-- ===== src/Pmap/Space/Walk.antt =====
-- pgdir_walk leaves the address space as it is, and a store through the slot that it gives changes one
-- entry.
use pmake_os.Base.{
  ℕ, ◌+◌, ◌/◌, ◌<◌, ◌≡◌, refl, sym, ◌∙◌, ◌≢◌, ◌⊎◌, inl, inr, true, false, ◌&&◌, some, List, [], ◌∷◌,
  arith, length, ◌==◌, if◌then◌else◌, Bool-cases,
}
use native.Mathlib.Decide.{ℕ_discrete}
use pmake_os.Kernel.{Kernel}
use pmake_os.Kernel.Run.{ok}
use pmake_os.Mmu.{pte_p, pdx, ptx, uvpt, test}
use pmake_os.Mmu.Laws.{test-present, test-absent, present-test}
use pmake_os.Pmap.Alloc.FreeList.{has}
use pmake_os.Pmap.Paging.{slot, store, pgdir_walk}
use pmake_os.Pmap.Paging.Walk.{
  IsTable, with_table, pgdir_walk-present, pgdir_walk-with_table, with_table-IsTable,
  with_table-IsFreeList,
}
use pmake_os.Pmap.Space.{view, IsSpace}

-- The state k' has the same address space as k, with the free pages `ys` where k has `xs`; no page
-- in use changed its count, and the directory has the table `t`
-- for the address.
pub record IsWalked (pgdir va t : ℕ) (xs ys : List ℕ) (k k' : Kernel) : Type 0 where
  pub space : IsSpace k' pgdir ys
  pub table : IsTable k' pgdir va t
  pub views : (d i : ℕ) → d ≢ pdx uvpt → view k' pgdir d i ≡ view k pgdir d i
  pub size : k'.npages ≡ k.npages
  pub in_use : (p : ℕ) → has p xs ≡ false → (has p ys ≡ false) × (k'.pages p ≡ k.pages p)
  pub slots :
      (d : ℕ)
      → d ≢ pdx uvpt
      → test (k'.word pgdir d) pte_p ≡ true
      → (k'.word pgdir d ≡ k.word pgdir d) ⊎ (has (k'.word pgdir d / 4096) xs ≡ true)
  pub directory : k'.kern_pgdir ≡ k.kern_pgdir
  pub current : (k'.curenv ≡ k.curenv) × (k'.envs ≡ k.envs)

-- The slot c of the directory, absent in k, leads in k1 to a blank page x, and the rest is the same.
module _ (k k1 : Kernel) (pgdir c x : ℕ) (xs : List ℕ) (s : IsSpace k pgdir (x ∷ xs))
    (target : k1.word pgdir c / 4096 ≡ x)
    (slots : (d : ℕ) → d ≢ c → k1.word pgdir d ≡ k.word pgdir d) where
  distinct-slots :
      (d e : ℕ)
      → d ≢ pdx uvpt
      → e ≢ pdx uvpt
      → d ≢ e
      → test (k1.word pgdir d) pte_p ≡ true
      → test (k1.word pgdir e) pte_p ≡ true
      → k1.word pgdir d / 4096 ≢ k1.word pgdir e / 4096
  distinct-slots d e ne ne' df p q = elim (ℕ_discrete d c) [
    | yes at_d ↦
        let other : e ≢ c = λ at_e. df (at_d ∙ sym at_e) in
        rw (at_d, target, slots e other) (ground (arith, s.used e ne' (rw (slots e other) at q)))
    | no away ↦ elim (ℕ_discrete e c) [
      | yes at_e ↦
          rw (at_e, target, slots d away) (ground (arith, s.used d ne (rw (slots d away) at p)))
      | no away' ↦
          rw (slots d away, slots e away')
            (s.distinct d e ne ne' df (rw (slots d away) at p) (rw (slots e away') at q))
    ]
  ]

  view-slots :
      (d i : ℕ)
      → d ≢ pdx uvpt
      → test (k.word pgdir c) pte_p ≡ false
      → k1.word x i ≡ 0
      → (test (k.word pgdir d) pte_p ≡ true
          → k1.word (k.word pgdir d / 4096) i ≡ k.word (k.word pgdir d / 4096) i)
      → view k1 pgdir d i ≡ view k pgdir d i
  view-slots d i ne absent blank same = elim (ℕ_discrete d c) [
    | yes at_c ↦ rw (at_c, target, blank, absent) (ground arith)
    | no away ↦ rw (slots d away) (ground (arith, same))
  ]

module _ (k : Kernel) (pgdir va x : ℕ) (xs : List ℕ) (s : IsSpace k pgdir (x ∷ xs))
    (own : pdx va ≢ pdx uvpt) (absent : test (k.word pgdir (pdx va)) pte_p ≡ false) where
  abbrev k1 : Kernel
  k1 = with_table pgdir va x k

  i1 : IsTable k1 pgdir va x
  i1 =
      with_table-IsTable k pgdir va x xs s.fits s.list (test-absent (k.word pgdir (pdx va)) absent)
        s.apart

  slots : (d : ℕ) → d ≢ pdx va → k1.word pgdir d ≡ k.word pgdir d
  slots d ne = ground (arith, s.apart)

  tables :
      (d i : ℕ)
      → d ≢ pdx uvpt
      → test (k.word pgdir d) pte_p ≡ true
      → k1.word (k.word pgdir d / 4096) i ≡ k.word (k.word pgdir d / 4096) i
  tables d i ne p = ground (arith, s.used d ne p, s.proper d ne p)

  blank : (i : ℕ) → k1.word x i ≡ 0
  unfolding test
  blank i = ground (arith, s.apart)

  with_table-IsWalked : IsWalked pgdir va x (x ∷ xs) xs k k1
  with_table-IsWalked = record {
    space = record {
      fits = s.fits;
      list =
          with_table-IsFreeList k pgdir va x xs s.fits s.list
            (test-absent (k.word pgdir (pdx va)) absent) s.apart;
      apart = ground (arith, s.apart);
      within = λ d ne p. elim (ℕ_discrete d (pdx va)) [
        | yes e ↦ rw e (omega (arith, i1.target, i1.inside))
        | no df ↦ rw (slots d df) (s.within d ne (rw (slots d df) at p))
      ];
      used = λ d ne p. elim (ℕ_discrete d (pdx va)) [
        | yes e ↦ rw (e, i1.target) s.list.distinct.0
        | no df ↦ rw (slots d df) (ground (arith, s.used d ne (rw (slots d df) at p)))
      ];
      proper = λ d ne p. elim (ℕ_discrete d (pdx va)) [
        | yes e ↦ rw (e, i1.target) (ground (arith, s.apart))
        | no df ↦ rw (slots d df) (s.proper d ne (rw (slots d df) at p))
      ];
      distinct = distinct-slots k k1 pgdir (pdx va) x xs s i1.target slots;
    };
    table = i1;
    views = λ d i ne.
        view-slots k k1 pgdir (pdx va) x xs s i1.target slots d i ne absent (blank i)
          (tables d i ne);
    size = refl;
    in_use = λ p out. (ground arith, ground arith);
    slots = λ d ne p. elim (ℕ_discrete d (pdx va)) [
      | yes e ↦ inr (rw (e, i1.target) (ground arith))
      | no df ↦ inl (slots d df)
    ];
    directory = refl;
    current = (refl, refl);
  }

-- 1 if there is a table for the directory index, else 0.
abbrev pub has_table : Kernel → ℕ → ℕ → ℕ
has_table k pgdir d = if test (k.word pgdir d) pte_p then 1 else 0

walk_absent :
    (k : Kernel) (pgdir va : ℕ) (xs : List ℕ)
    → IsSpace k pgdir xs
    → pdx va ≢ pdx uvpt
    → test (k.word pgdir (pdx va)) pte_p ≡ false
    → 0 < length xs + 0
    → (k' : Kernel) × (t : ℕ) × (ys : List ℕ) × (pgdir_walk pgdir va true k
        ≡ ok (some (slot t (ptx va))) k')
      × IsWalked pgdir va t xs ys k k'
      × (length xs + has_table k pgdir (pdx va) ≡ length ys + 1)
walk_absent k pgdir va [] s own absent some_page = absurd (omega arith)
walk_absent k pgdir va (x ∷ xs) s own absent some_page = (
  with_table pgdir va x k,
  x,
  xs,
  pgdir_walk-with_table k pgdir va x xs s.fits s.list (test-absent (k.word pgdir (pdx va)) absent)
      s.apart,
  with_table-IsWalked k pgdir va x xs s own absent,
  rw absent (omega arith),
)

-- pgdir_walk with `create`, where there is a free page or the table is there: it gives the slot of the
-- address in a table, the address space is the same, and at most one page is not free any more.
pub pgdir_walk-IsWalked :
    (k : Kernel) (pgdir va : ℕ) (xs : List ℕ)
    → IsSpace k pgdir xs
    → pdx va ≢ pdx uvpt
    → 0 < length xs + has_table k pgdir (pdx va)
    → (k' : Kernel) × (t : ℕ) × (ys : List ℕ) × (pgdir_walk pgdir va true k
        ≡ ok (some (slot t (ptx va))) k')
      × IsWalked pgdir va t xs ys k k'
      × (length xs + has_table k pgdir (pdx va) ≡ length ys + 1)
pgdir_walk-IsWalked k pgdir va xs s own some_page =
    elim (Bool-cases (test (k.word pgdir (pdx va)) pte_p)) [
      | inl present ↦
          let t = k.word pgdir (pdx va) / 4096 in
          let i : IsTable k pgdir va t = record {
            present = test-present (k.word pgdir (pdx va)) present;
            target = refl;
            inside = s.within (pdx va) own present;
            reached = omega (arith, s.fits, s.within (pdx va) own present);
          } in
          (
            k,
            t,
            xs,
            pgdir_walk-present k pgdir va t true i,
            record {
              space = s;
              table = i;
              views = λ d j ne. refl;
              size = refl;
              in_use = λ p out. (out, refl);
              slots = λ d ne p. inl refl;
              directory = refl;
              current = (refl, refl);
            },
            rw present refl,
          )
      | inr absent ↦ walk_absent k pgdir va xs s own absent (rw absent at some_page)
    ]

-- A store through the slot of the address changes this entry of the address space, and no other.
module _ (k : Kernel) (pgdir va t w : ℕ) (xs : List ℕ) (s : IsSpace k pgdir xs)
    (i : IsTable k pgdir va t) (own : pdx va ≢ pdx uvpt) where
  abbrev k2 : Kernel
  k2 = store (slot t (ptx va)) w k

  here : test (k.word pgdir (pdx va)) pte_p ≡ true
  here = present-test (k.word pgdir (pdx va)) i.present

  t_proper : t ≢ pgdir
  t_proper = λ e. s.proper (pdx va) own here (i.target ∙ e)

  pub store-slots : (d : ℕ) → k2.word pgdir d ≡ k.word pgdir d
  store-slots d = ground (arith, t_proper)

  pub store-IsSpace : IsSpace k2 pgdir xs
  store-IsSpace = record {
    fits = s.fits;
    list = s.list;
    apart = s.apart;
    within = λ d ne p. rw (store-slots d) (s.within d ne (rw (store-slots d) at p));
    used = λ d ne p. rw (store-slots d) (s.used d ne (rw (store-slots d) at p));
    proper = λ d ne p. rw (store-slots d) (s.proper d ne (rw (store-slots d) at p));
    distinct = λ d e ne ne' df p q.
        rw (store-slots d, store-slots e)
          (s.distinct d e ne ne' df (rw (store-slots d) at p) (rw (store-slots e) at q));
  }

  pub view-store :
      (d j : ℕ)
      → d ≢ pdx uvpt
      → view k2 pgdir d j ≡ (if d == pdx va && j == ptx va then w else view k pgdir d j)
  view-store d j ne = elim (ℕ_discrete d (pdx va)) [
    | yes e ↦ rw (e, store-slots (pdx va), here, i.target) (ground arith)
    | no df ↦ rw (store-slots d) (ground (arith, s.distinct d (pdx va) ne own df, i.target, here))
  ]
