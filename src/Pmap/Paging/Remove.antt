-- ===== src/Pmap/Paging/Remove.antt =====
-- page_lookup and page_remove of kern/pmap.c: which page an address is mapped to, and how the reference counts follow.
use pmake_os.Base.{
  ℕ, ◌-◌, ◌/◌, ◌^◌, ◌≤◌, ◌<◌, ◌≡◌, refl, ap, ◌≢◌, ◌⊎◌, inl, inr, false, none, some, List, ◌∷◌,
  arith, ◌==◌, if◌then◌else◌, Bool-cases, ne→==,
}
use pmake_os.Kernel.{Kernel}
use pmake_os.Kernel.Run.{ok, panicked}
use pmake_os.Mmu.{pte_p, pdx, ptx, pte_addr, test}
use pmake_os.Mmu.Laws.{present-test}
use pmake_os.Pmap.Alloc.FreeList.{has, IsFreeList, page_decref_lem}
use pmake_os.Pmap.Paging.{
  slot, store, page_lookup, is_current, tlb_invalidate, page_remove, check_va2pa,
}
use pmake_os.Pmap.Paging.Walk.{
  IsTable, pgdir_walk-present, kaddr-pte_addr, pa2page-pte_addr, pa2page-beyond,
}

module _ (k : Kernel) (pgdir va t : ℕ) (i : IsTable k pgdir va t) where
  abbrev entry : ℕ
  entry = k.word t (ptx va)

  -- page_lookup under a table: no page where the entry is 0, and else the page that the entry's
  -- address names, whether or not the present bit is set; a panic where there is no such page.
  pub page_lookup-entry :
      (entry ≡ 0 → page_lookup pgdir va k ≡ ok none k)
      × (entry ≢ 0
          → entry / 4096 < k.npages
          → page_lookup pgdir va k ≡ ok (some (entry / 4096, slot t (ptx va))) k)
      × (entry ≢ 0 → k.npages ≤ entry / 4096 → page_lookup pgdir va k ≡ panicked)
  unfolding page_lookup
  page_lookup-entry = (
    λ e. rw (pgdir_walk-present k pgdir va t false i) (ground arith),
    λ e lt.
        rw (pgdir_walk-present k pgdir va t false i, ne→== entry 0 e, pa2page-pte_addr entry k lt)
          refl,
    λ e ge.
        rw (pgdir_walk-present k pgdir va t false i, ne→== entry 0 e, pa2page-beyond entry k ge)
          refl,
  )

  -- check_va2pa follows the two levels as the hardware does.
  pub check_va2pa-entry :
      check_va2pa pgdir va k ≡ ok (if test entry pte_p then pte_addr entry else 0xFFFF_FFFF) k
  unfolding check_va2pa
  check_va2pa-entry =
      rw
        (
          present-test (k.word pgdir (pdx va)) i.present,
          kaddr-pte_addr (k.word pgdir (pdx va)) k (omega (arith, i.target, i.inside))
              (omega (arith, i.target, i.reached)),
        )
        (ground (arith, i.target))

-- The state after tlb_invalidate.
abbrev pub invalidated : ℕ → ℕ → Kernel → Kernel
invalidated pgdir va k = record k {
  flushed = if is_current pgdir k then va ∷ k.flushed else k.flushed;
}

tlb_invalidate-invalidated :
    (pgdir va : ℕ) (k : Kernel) → tlb_invalidate pgdir va k ≡ ok tt (invalidated pgdir va k)
unfolding tlb_invalidate
tlb_invalidate-invalidated pgdir va k = elim (Bool-cases (is_current pgdir k)) [
  | inl b ↦ rw b refl
  | inr b ↦ rw b refl
]

-- The state k' is k with `va`, whose entry is the word `ptx va` of `t`, unmapped from the page `p`.
pub record IsUnmapped (pgdir va t p : ℕ) (xs : List ℕ) (k k' : Kernel) : Type 0 where
  pub cleared : k'.word t (ptx va) ≡ 0
  pub words : (f i : ℕ) → (f ≢ t) ⊎ (i ≢ ptx va) → k'.word f i ≡ k.word f i
  pub count : (k'.pages p).pp_ref ≡ (k.pages p).pp_ref - 1
  pub list : IsFreeList k' (if (k.pages p).pp_ref == 1 then p ∷ xs else xs)
  pub others : (q : ℕ) → q ≢ p → k'.pages q ≡ k.pages q
  pub size : k'.npages ≡ k.npages
  pub flushed : k'.flushed ≡ (if is_current pgdir k then va ∷ k.flushed else k.flushed)

-- page_remove of a mapped address clears its entry and drops one reference to the page, which is
-- free when that was the last one. The address is flushed if the directory is in use, and the rest
-- of the memory and of the page array stays.
pub page_remove-unmaps :
    (k : Kernel) (pgdir va t : ℕ) (xs : List ℕ)
    → IsTable k pgdir va t
    → IsFreeList k xs
    → let p = k.word t (ptx va) / 4096 in
      k.word t (ptx va) ≢ 0
      → p < k.npages
      → has p xs ≡ false
      → 0 < (k.pages p).pp_ref
      → (k.pages p).pp_ref < 2 ^ 16
      → (k' : Kernel) × (page_remove pgdir va k ≡ ok tt k') × IsUnmapped pgdir va t p xs k k'
unfolding page_remove
page_remove-unmaps k pgdir va t xs i l mapped lt out pos small =
    let p = k.word t (ptx va) / 4096 in
    let (k1, ran, d) = page_decref_lem p xs k l out lt pos small in
    let k2 = store (slot t (ptx va)) 0 k1 in
    (
      invalidated pgdir va k2,
      rw ((page_lookup-entry k pgdir va t i).1 mapped lt, ran)
          (tlb_invalidate-invalidated pgdir va k2),
      record {
        cleared = ground arith;
        words = λ f j o. ground (arith, ap (λ (z : Kernel). z.word) d.rest);
        count = d.count;
        list = d.list;
        others = d.others;
        size = ap (λ (z : Kernel). z.npages) d.rest;
        flushed =
            ap (λ (z : Kernel). if is_current pgdir z then va ∷ z.flushed else z.flushed) d.rest;
      },
    )
