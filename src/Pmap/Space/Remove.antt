-- ===== src/Pmap/Space/Remove.antt =====
-- page_remove on an address space: it clears the entry of its address and no other.
use pmake_os.Base.{
  ℕ, ◌/◌, ◌^◌, ◌<◌, ◌≡◌, refl, sym, ap, subst, ◌∙◌, ◌≢◌, inl, inr, Bool, true, false, ◌&&◌, List,
  ◌∷◌, arith, ◌==◌, if◌then◌else◌, Bool-cases,
}
use native.Mathlib.Decide.{ℕ_discrete}
use pmake_os.Kernel.{Kernel}
use pmake_os.Kernel.Run.{ok}
use pmake_os.Mmu.{pte_p, pdx, ptx, uvpt, test}
use pmake_os.Mmu.Laws.{test-present, present-test}
use pmake_os.Pmap.Alloc.FreeList.{has}
use pmake_os.Pmap.Paging.{page_remove, page_lookup, pgdir_walk}
use pmake_os.Pmap.Paging.Walk.{IsTable}
use pmake_os.Pmap.Paging.Remove.{IsUnmapped, page_lookup-entry, page_remove-unmaps}
use pmake_os.Pmap.Space.{view, IsSpace}
use pmake_os.Pmap.Space.Pages.{IsLeaf, respace}

module _ (k k' : Kernel) (pgdir va t : ℕ) (xs : List ℕ) (s : IsSpace k pgdir xs)
    (i : IsTable k pgdir va t) (own : pdx va ≢ pdx uvpt) (leaf : IsLeaf k pgdir (k.word t (ptx va)))
    (u : IsUnmapped pgdir va t (k.word t (ptx va) / 4096) xs k k') where
  here : test (k.word pgdir (pdx va)) pte_p ≡ true
  here = present-test (k.word pgdir (pdx va)) i.present

  t_proper : t ≢ pgdir
  t_proper = λ e. s.proper (pdx va) own here (i.target ∙ e)

  slots : (d : ℕ) → k'.word pgdir d ≡ k.word pgdir d
  slots d = u.words pgdir d (inl (λ e. t_proper (sym e)))

  abbrev freed : List ℕ
  freed = let p = k.word t (ptx va) / 4096 in if (k.pages p).pp_ref == 1 then p ∷ xs else xs

  unfreed : (p : ℕ) → has p xs ≡ false → p ≢ k.word t (ptx va) / 4096 → has p freed ≡ false
  unfreed p out ne = ground arith

  unmapped-IsSpace : IsSpace k' pgdir freed
  unmapped-IsSpace =
      respace k k' pgdir xs freed s u.list u.size (λ d. rw (slots d) (refl, refl))
        (unfreed pgdir s.apart (λ e. leaf.0 (sym e)))
        (λ d ne q. unfreed (k.word pgdir d / 4096) (s.used d ne q) (leaf.1 d ne q))

  unmapped-view :
      (d j : ℕ)
      → d ≢ pdx uvpt
      → view k' pgdir d j ≡ (if d == pdx va && j == ptx va then 0 else view k pgdir d j)
  unmapped-view d j ne = elim (ℕ_discrete d (pdx va)) [
    | yes e ↦ elim (ℕ_discrete j (ptx va)) [
      | yes at_j ↦ rw (e, slots (pdx va), here, i.target, at_j, u.cleared) (ground arith)
      | no away ↦ rw (e, slots (pdx va), here, i.target, u.words t j (inr away)) (ground arith)
    ]
    | no df ↦ elim (Bool-cases (test (k.word pgdir d) pte_p)) [
      | inl p ↦
          let apart : k.word pgdir d / 4096 ≢ t =
            λ e. s.distinct d (pdx va) ne own df p here (e ∙ sym i.target) in
          rw (slots d, p, u.words (k.word pgdir d / 4096) j (inl apart)) (ground arith)
      | inr q ↦ rw (slots d, q) (ground arith)
    ]
  ]

-- The table of the address, where its slot of the directory is present.
own-IsTable :
    (k : Kernel) (pgdir va : ℕ) (xs : List ℕ)
    → IsSpace k pgdir xs
    → pdx va ≢ pdx uvpt
    → test (k.word pgdir (pdx va)) pte_p ≡ true
    → IsTable k pgdir va (k.word pgdir (pdx va) / 4096)
own-IsTable k pgdir va xs s own p = record {
  present = test-present (k.word pgdir (pdx va)) p;
  target = refl;
  inside = s.within (pdx va) own p;
  reached = omega (arith, s.fits, s.within (pdx va) own p);
}

page_remove-unchanged :
    (k : Kernel) (pgdir va : ℕ) (xs : List ℕ)
    → IsSpace k pgdir xs
    → pdx va ≢ pdx uvpt
    → view k pgdir (pdx va) (ptx va) ≡ 0
    → page_remove pgdir va k ≡ ok tt k
unfolding page_remove page_lookup pgdir_walk
page_remove-unchanged k pgdir va xs s own none_there =
    elim (Bool-cases (test (k.word pgdir (pdx va)) pte_p)) [
      | inl p ↦
          let i = own-IsTable k pgdir va xs s own p in
          let blank : k.word (k.word pgdir (pdx va) / 4096) (ptx va) ≡ 0 =
            ap (λ (b : Bool). if b then k.word (k.word pgdir (pdx va) / 4096) (ptx va) else 0)
              (sym p)
            ∙ none_there in
          rw ((page_lookup-entry k pgdir va (k.word pgdir (pdx va) / 4096) i).0 blank) refl
      | inr q ↦ rw q refl
    ]

-- page_remove in an address space where the entry of the address, if it is not 0, maps a counted page
-- that is no table: it returns, and in the address space the entry of the address is 0, where every
-- other entry stays.
pub page_remove-IsSpace :
    (k : Kernel) (pgdir va : ℕ) (xs : List ℕ)
    → IsSpace k pgdir xs
    → pdx va ≢ pdx uvpt
    → (let w = view k pgdir (pdx va) (ptx va) in
        w ≢ 0
        → IsLeaf k pgdir w
          × (w / 4096 < k.npages)
          × (has (w / 4096) xs ≡ false)
          × (0 < (k.pages (w / 4096)).pp_ref)
          × ((k.pages (w / 4096)).pp_ref < 2 ^ 16))
    → (k' : Kernel) × (ys : List ℕ) × (page_remove pgdir va k ≡ ok tt k')
      × IsSpace k' pgdir ys
      × ((d j : ℕ)
          → d ≢ pdx uvpt
          → view k' pgdir d j ≡ (if d == pdx va && j == ptx va then 0 else view k pgdir d j))
page_remove-IsSpace k pgdir va xs s own c = elim (ℕ_discrete (view k pgdir (pdx va) (ptx va)) 0) [
  | yes none_there ↦ (
    k,
    xs,
    page_remove-unchanged k pgdir va xs s own none_there,
    s,
    λ d j ne. elim (ℕ_discrete d (pdx va)) [
      | yes e ↦ elim (ℕ_discrete j (ptx va)) [
        | yes e' ↦ rw (e, e', none_there) (ground arith)
        | no away ↦ ground arith
      ]
      | no away ↦ ground arith
    ],
  )
  | no some_page ↦ elim (Bool-cases (test (k.word pgdir (pdx va)) pte_p)) [
    | inl p ↦
        let t = k.word pgdir (pdx va) / 4096 in
        let i = own-IsTable k pgdir va xs s own p in
        let same : view k pgdir (pdx va) (ptx va) ≡ k.word t (ptx va) =
          ap (λ (b : Bool). if b then k.word t (ptx va) else 0) p in
        let (leaf, inside, out, pos, below) = c some_page in
        let leaf' : IsLeaf k pgdir (k.word t (ptx va)) = subst (IsLeaf k pgdir) same leaf in
        let (k', ran, u) =
          page_remove-unmaps k pgdir va t xs i s.list (λ e. some_page (same ∙ e))
            (rw same at inside) (rw same at out) (rw same at pos) (rw same at below) in
        (
          k',
          freed k k' pgdir va t xs s i own leaf' u,
          ran,
          unmapped-IsSpace k k' pgdir va t xs s i own leaf' u,
          unmapped-view k k' pgdir va t xs s i own leaf' u,
        )
    | inr q ↦ absurd (
        some_page
          (ap (λ (b : Bool). if b then k.word (k.word pgdir (pdx va) / 4096) (ptx va) else 0) q))
  ]
]
