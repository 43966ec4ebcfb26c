-- ===== src/Pmap/Space/Pages.antt =====
-- page_insert and page_remove on an address space: they change the entry of their address and no other.
use pmake_os.Base.{
  ℕ, ◌+◌, ◌/◌, ◌^◌, ◌<◌, ◌≡◌, refl, sym, ap, subst, ◌∙◌, ◌≢◌, inl, inr, Bool, true, false, ◌&&◌,
  not, List, ◌∷◌, arith, bit_or, length, ◌==◌, if◌then◌else◌, Bool-cases,
}
use native.Mathlib.Decide.{ℕ_discrete}
use pmake_os.Base.Bits.{bit_or-low}
use pmake_os.Kernel.{Kernel}
use pmake_os.Kernel.Run.{ok}
use pmake_os.Kernel.Ret.{val}
use pmake_os.Mmu.{pte_p, pdx, ptx, uvpt, test}
use pmake_os.Mmu.Laws.{present_absent, present-test}
use pmake_os.Pmap.Alloc.{page2pa}
use pmake_os.Pmap.Alloc.FreeList.{has, IsFreeList}
use pmake_os.Pmap.Paging.{page_insert}
use pmake_os.Pmap.Paging.Walk.{IsTable, bit_or-keeps_page}
use pmake_os.Pmap.Paging.Map.{IsInserted, Counted, maps, insert_at-IsInserted}
use pmake_os.Pmap.Space.{view, IsSpace}
use pmake_os.Pmap.Space.Walk.{IsWalked, has_table, pgdir_walk-IsWalked}

-- The page behind the word `w` is neither the directory nor one of its tables.
abbrev pub IsLeaf : Kernel → ℕ → ℕ → Type 0
IsLeaf k pgdir w =
    (w / 4096 ≢ pgdir)
    × ((d : ℕ)
        → d ≢ pdx uvpt
        → test (k.word pgdir d) pte_p ≡ true
        → k.word pgdir d / 4096 ≢ w / 4096)

-- A directory that differs in flags only, with other free pages.
pub respace :
    (k k' : Kernel) (pgdir : ℕ) (xs ys : List ℕ)
    → IsSpace k pgdir xs
    → IsFreeList k' ys
    → k'.npages ≡ k.npages
    → ((d : ℕ)
        → (test (k'.word pgdir d) pte_p ≡ test (k.word pgdir d) pte_p)
          × (k'.word pgdir d / 4096 ≡ k.word pgdir d / 4096))
    → has pgdir ys ≡ false
    → ((d : ℕ)
        → d ≢ pdx uvpt
        → test (k.word pgdir d) pte_p ≡ true
        → has (k.word pgdir d / 4096) ys ≡ false)
    → IsSpace k' pgdir ys
respace k k' pgdir xs ys s l size same out unused = record {
  fits = rw size s.fits;
  list = l;
  apart = out;
  within = λ d ne p. rw ((same d).1, size) (s.within d ne (sym (same d).0 ∙ p));
  used = λ d ne p. rw ((same d).1) (unused d ne (sym (same d).0 ∙ p));
  proper = λ d ne p. rw ((same d).1) (s.proper d ne (sym (same d).0 ∙ p));
  distinct = λ d e ne ne' df p q.
      rw ((same d).1, (same e).1)
        (s.distinct d e ne ne' df (sym (same d).0 ∙ p) (sym (same e).0 ∙ q));
}

present_free : (xs : List ℕ) (p : ℕ) → has p xs ≡ true → has p xs ≡ false → ⊥
present_free xs p in_it out = ground (arith, in_it, out)

module _ (k : Kernel) (pgdir pp va perm t : ℕ) (xs : List ℕ) (s : IsSpace k pgdir xs)
    (i : IsTable k pgdir va t) (own : pdx va ≢ pdx uvpt) (small : perm < 4096)
    (leaf : test (k.word t (ptx va)) pte_p ≡ true → IsLeaf k pgdir (k.word t (ptx va)))
    (k' : Kernel) (ins : IsInserted pgdir pp va perm t xs k k') where
  here : test (k.word pgdir (pdx va)) pte_p ≡ true
  here = present-test (k.word pgdir (pdx va)) i.present

  t_proper : t ≢ pgdir
  t_proper = λ e. s.proper (pdx va) own here (i.target ∙ e)

  flags :
      (d : ℕ)
      → (test (k'.word pgdir d) pte_p ≡ test (k.word pgdir d) pte_p)
        × (k'.word pgdir d / 4096 ≡ k.word pgdir d / 4096)
  flags d = elim (ℕ_discrete d (pdx va)) [
    | yes e ↦
        rw (e, ins.directory)
          (
            present-test _ (omega (arith, i.present, bit_or-low (k.word pgdir (pdx va)) perm))
                ∙ sym here,
            bit_or-keeps_page (k.word pgdir (pdx va)) perm small,
          )
    | no ne ↦
        let same = ins.words pgdir d (inl (λ e. t_proper (sym e))) (inr ne) in rw same (refl, refl)
  ]

  tables :
      (d j : ℕ)
      → d ≢ pdx uvpt
      → test (k.word pgdir d) pte_p ≡ true
      → k'.word (k.word pgdir d / 4096) j ≡ (
          if d == pdx va && j == ptx va
          then bit_or (bit_or (page2pa pp) perm) pte_p
          else k.word (k.word pgdir d / 4096) j)
  tables d j ne p = elim (ℕ_discrete d (pdx va)) [
    | yes e ↦ elim (ℕ_discrete j (ptx va)) [
      | yes at_j ↦ rw (e, i.target, at_j, ins.mapped) (ground arith)
      | no away ↦ rw (e, i.target, ins.words t j (inr away) (inl t_proper)) (ground arith)
    ]
    | no df ↦
        let apart : k.word pgdir d / 4096 ≢ t =
          λ e. s.distinct d (pdx va) ne own df p here (e ∙ sym i.target) in
        rw (ins.words (k.word pgdir d / 4096) j (inl apart) (inl (s.proper d ne p))) (ground arith)
  ]

  inserted-view :
      (d j : ℕ)
      → d ≢ pdx uvpt
      → view k' pgdir d j ≡ (
          if d == pdx va && j == ptx va
          then bit_or (bit_or (page2pa pp) perm) pte_p
          else view k pgdir d j)
  inserted-view d j ne = elim (Bool-cases (test (k.word pgdir d) pte_p)) [
    | inl p ↦ rw ((flags d).0, (flags d).1, p, tables d j ne p) refl
    | inr q ↦ elim (ℕ_discrete d (pdx va)) [
      | yes e ↦
          absurd (present_absent _ here (ap (λ (c : ℕ). test (k.word pgdir c) pte_p) (sym e) ∙ q))
      | no df ↦ rw ((flags d).0, (flags d).1, q) (ground arith)
    ]
  ]

  -- The free pages afterwards.
  abbrev freed : List ℕ
  freed =
      let old = k.word t (ptx va) / 4096 in
      if maps (k.word t (ptx va)) old && (not (old == pp) && ((k.pages old).pp_ref == 1))
      then old ∷ xs
      else xs

  unfreed :
      (p : ℕ)
      → has p xs ≡ false
      → (test (k.word t (ptx va)) pte_p ≡ true → p ≢ k.word t (ptx va) / 4096)
      → has p freed ≡ false
  unfreed p out ne = ground arith

  inserted-IsSpace : IsSpace k' pgdir freed
  inserted-IsSpace =
      respace k k' pgdir xs freed s ins.list ins.size flags
        (unfreed pgdir s.apart (λ p e. (leaf p).0 (sym e)))
        (λ d ne q. unfreed (k.word pgdir d / 4096) (s.used d ne q) (λ p. (leaf p).1 d ne q))

-- What holds of the address's entry before the walk holds of the word that the slot names behind it.
module _ (k k1 : Kernel) (pgdir va t : ℕ) (xs ys : List ℕ) (w : IsWalked pgdir va t xs ys k k1)
    (own : pdx va ≢ pdx uvpt) where
  abbrev entry : ℕ
  entry = view k pgdir (pdx va) (ptx va)

  walked-word : k1.word t (ptx va) ≡ entry
  walked-word =
      sym (
        ap (λ (b : Bool). if b then k1.word (k1.word pgdir (pdx va) / 4096) (ptx va) else 0)
          (present-test _ w.table.present)
        ∙ ap (λ (f : ℕ). k1.word f (ptx va)) w.table.target)
      ∙ w.views (pdx va) (ptx va) own

  walked-Counted : Counted k xs entry → Counted k1 ys (k1.word t (ptx va))
  walked-Counted c = subst (Counted k1 ys) (sym walked-word) (λ p.
      let (inside, out, pos, below) = c p in
      let (out', same) = w.in_use (entry / 4096) out in
      (rw w.size inside, out', rw same pos, rw same below))

  walked-IsLeaf :
      Counted k xs entry
      → (test entry pte_p ≡ true → IsLeaf k pgdir entry)
      → test (k1.word t (ptx va)) pte_p ≡ true
      → IsLeaf k1 pgdir (k1.word t (ptx va))
  walked-IsLeaf c leaf =
      subst (λ (e : ℕ). test e pte_p ≡ true → IsLeaf k1 pgdir e) (sym walked-word)
        (λ p. (
          (leaf p).0,
          λ d ne q. elim (w.slots d ne q) [
            | inl same ↦ rw same ((leaf p).1 d ne (rw same at q))
            | inr free ↦ λ e. present_free xs _ free (ap (λ (f : ℕ). has f xs) e ∙ (c p).1)
          ],
        ))

-- page_insert where the address has a table or a page is free, in an address space where the old entry of the address, if
-- it is present, maps a counted page that is no table: it returns 0, and in the address space the entry
-- of the address maps the page with `perm | PTE_P`, where every other entry stays.
pub page_insert-IsSpace :
    (k : Kernel) (pgdir pp va perm : ℕ) (xs : List ℕ)
    → IsSpace k pgdir xs
    → pdx va ≢ pdx uvpt
    → 0 < length xs + has_table k pgdir (pdx va)
    → perm < 4096
    → has pp xs ≡ false
    → (k.pages pp).pp_ref + 1 < 2 ^ 16
    → Counted k xs (view k pgdir (pdx va) (ptx va))
    → (test (view k pgdir (pdx va) (ptx va)) pte_p ≡ true
        → IsLeaf k pgdir (view k pgdir (pdx va) (ptx va)))
    → (k' : Kernel) × (ys : List ℕ) × (page_insert pgdir pp va perm k ≡ ok (val 0) k')
      × IsSpace k' pgdir ys
      × ((d j : ℕ)
          → d ≢ pdx uvpt
          → view k' pgdir d j ≡ (
              if d == pdx va && j == ptx va
              then bit_or (bit_or (page2pa pp) perm) pte_p
              else view k pgdir d j))
unfolding page_insert
page_insert-IsSpace k pgdir pp va perm xs s own some_page small out room c leaf =
    let (k1, t, ys, walked, w, few) = pgdir_walk-IsWalked k pgdir va xs s own some_page in
    let here = present-test (k1.word pgdir (pdx va)) w.table.present in
    let apart : t ≢ pgdir = λ e. w.space.proper (pdx va) own here (w.table.target ∙ e) in
    let c1 = walked-Counted k k1 pgdir va t xs ys w own c in
    let leaf1 = walked-IsLeaf k k1 pgdir va t xs ys w own c leaf in
    let (k', ran, ins) =
      insert_at-IsInserted k1 pgdir pp va perm t ys w.table w.space.list apart (w.in_use pp out).0
        (rw (w.in_use pp out).1 room) c1 in
    (
      k',
      freed k1 pgdir pp va perm t ys w.space w.table own small leaf1 k' ins,
      rw walked ran,
      inserted-IsSpace k1 pgdir pp va perm t ys w.space w.table own small leaf1 k' ins,
      λ d j ne.
          inserted-view k1 pgdir pp va perm t ys w.space w.table own small leaf1 k' ins d j ne
          ∙ rw (w.views d j ne) refl,
    )
