-- ===== src/Pmap/Paging/Map.antt =====
-- page_insert of kern/pmap.c: how the page table and the reference counts follow.
use pmake_os.Base.{
  ℕ, ◌+◌, ◌*◌, ◌/◌, ◌%◌, ◌^◌, ◌<◌, ◌≡◌, refl, ◌∙◌, ◌≢◌, ◌⊎◌, inl, inr, Bool, true, false, ◌&&◌, not,
  List, [], ◌∷◌, arith, bit_or, ◌==◌, if◌then◌else◌, Bool-cases, update,
}
use pmake_os.Base.Bits.{bit_or-low}
use pmake_os.Kernel.{Kernel}
use pmake_os.Kernel.Run.{ok}
use pmake_os.Kernel.Ret.{val, err, e_no_mem}
use pmake_os.Mmu.{pte_p, pdx, ptx, pte_addr, test}
use pmake_os.Mmu.Laws.{test-present, present-test}
use pmake_os.Pmap.Alloc.{page2pa, page_incref}
use pmake_os.Pmap.Alloc.FreeList.{has, Fits, IsFreeList, update-IsFreeList}
use pmake_os.Pmap.Paging.{slot, store, page_remove, insert_at, page_insert, check_va2pa}
use pmake_os.Pmap.Paging.Walk.{
  IsTable, pgdir_walk-present, pgdir_walk-create, pgdir_walk-exhausted, bit_or-keeps_page,
}
use pmake_os.Pmap.Paging.Remove.{check_va2pa-entry, IsUnmapped, page_remove-unmaps}

-- Does the entry `w` map the page `q`?
abbrev pub maps : ℕ → ℕ → Bool
maps w q = test w pte_p && (w / 4096 == q)

-- The state k' is k with the page `pp` mapped at `va`, where the entry was the word `ptx va` of `t`.
-- Each page's count falls by one if the old entry mapped it, and rises by one if it is `pp`.
pub record IsInserted (pgdir pp va perm t : ℕ) (xs : List ℕ) (k k' : Kernel) : Type 0 where
  pub mapped : k'.word t (ptx va) ≡ bit_or (bit_or (page2pa pp) perm) pte_p
  pub directory : k'.word pgdir (pdx va) ≡ bit_or (k.word pgdir (pdx va)) perm
  pub words :
      (f j : ℕ) → (f ≢ t) ⊎ (j ≢ ptx va) → (f ≢ pgdir) ⊎ (j ≢ pdx va) → k'.word f j ≡ k.word f j
  pub counts :
      (q : ℕ)
      → (k'.pages q).pp_ref + (if maps (k.word t (ptx va)) q then 1 else 0)
        ≡ (k.pages q).pp_ref + (if q == pp then 1 else 0)
  pub list :
      let old = k.word t (ptx va) / 4096 in
      IsFreeList k' (
        if maps (k.word t (ptx va)) old && (not (old == pp) && ((k.pages old).pp_ref == 1))
        then old ∷ xs
        else xs)
  pub size : k'.npages ≡ k.npages

-- The page that is mapped at an entry is allocated and counted.
abbrev pub Counted : Kernel → List ℕ → ℕ → Type 0
Counted k xs w =
    test w pte_p ≡ true
    → (w / 4096 < k.npages)
      × (has (w / 4096) xs ≡ false)
      × (0 < (k.pages (w / 4096)).pp_ref)
      × ((k.pages (w / 4096)).pp_ref < 2 ^ 16)

-- The two stores at the end of page_insert.
abbrev linked : (pgdir pp va perm t : ℕ) → Kernel → Kernel
linked pgdir pp va perm t k =
    let k' = store (slot t (ptx va)) (bit_or (bit_or (page2pa pp) perm) pte_p) k in
    store (slot pgdir (pdx va)) (bit_or (k'.word pgdir (pdx va)) perm) k'

abbrev counted : ℕ → Kernel → Kernel
counted pp k = record k {
  pages = update k.pages pp (record (k.pages pp) { pp_ref = (k.pages pp).pp_ref + 1 });
}

page_incref-counted :
    (pp : ℕ) (k : Kernel)
    → (k.pages pp).pp_ref + 1 < 2 ^ 16
    → page_incref pp k ≡ ok tt (counted pp k)
unfolding page_incref
page_incref-counted pp k small =
    let same : ((k.pages pp).pp_ref + 1) % 65536 ≡ (k.pages pp).pp_ref + 1 = omega arith in rw same

module _ (k : Kernel) (pgdir pp va perm t : ℕ) (xs : List ℕ) (i : IsTable k pgdir va t)
    (l : IsFreeList k xs) (apart : t ≢ pgdir) (out : has pp xs ≡ false)
    (room : (k.pages pp).pp_ref + 1 < 2 ^ 16) (c : Counted k xs (k.word t (ptx va))) where
  l1 : IsFreeList (counted pp k) xs
  l1 = update-IsFreeList pp _ xs k l out (l.unlinked pp out)

  insert_at-absent :
      test (k.word t (ptx va)) pte_p ≡ false
      → (insert_at pgdir pp va perm (slot t (ptx va)) k
          ≡ ok (val 0) (linked pgdir pp va perm t (counted pp k)))
        × IsInserted pgdir pp va perm t xs k (linked pgdir pp va perm t (counted pp k))
  unfolding insert_at
  insert_at-absent no_page = (
    rw (page_incref-counted pp k room, no_page) refl,
    record {
      mapped = ground arith;
      directory = ground arith;
      words = λ f j o d. ground arith;
      counts = λ q. ground arith;
      list = rw no_page l1;
      size = refl;
    },
  )

  abbrev old : ℕ
  old = k.word t (ptx va) / 4096

  module _ (some_page : test (k.word t (ptx va)) pte_p ≡ true) where
    unmapped :
        (k' : Kernel) × (page_remove pgdir va (counted pp k) ≡ ok tt k')
        × IsUnmapped pgdir va t old xs (counted pp k) k'
    unmapped =
        page_remove-unmaps (counted pp k) pgdir va t xs
          (record {
            present = i.present;
            target = i.target;
            inside = i.inside;
            reached = i.reached;
          })
          l1 (λ z. absurd (omega (arith, test-present (k.word t (ptx va)) some_page)))
          (c some_page).0 (c some_page).1 (ground (arith, c some_page))
          (ground (arith, c some_page))

    -- The page of the old entry is free afterwards if that held its last reference.
    left :
        (maps (k.word t (ptx va)) old && (not (old == pp) && ((k.pages old).pp_ref == 1)))
        ≡ (((counted pp k).pages old).pp_ref == 1)
    left = ground (arith, c some_page)

    module _ (k2 : Kernel) (u : IsUnmapped pgdir va t old xs (counted pp k) k2) where
      linked-IsInserted : IsInserted pgdir pp va perm t xs k (linked pgdir pp va perm t k2)
      linked-IsInserted = record {
        mapped = ground arith;
        directory = ground (arith, u.words pgdir (pdx va));
        words = λ f j o d. ground (arith, u.words f j);
        counts = λ q. ground (arith, u.count, u.others q, c some_page);
        list = rw left u.list;
        size = u.size;
      }

    insert_at-present :
        (k' : Kernel) × (insert_at pgdir pp va perm (slot t (ptx va)) k ≡ ok (val 0) k')
        × IsInserted pgdir pp va perm t xs k k'
    unfolding insert_at
    insert_at-present =
        let (k2, ran, u) = unmapped in
        (
          linked pgdir pp va perm t k2,
          rw (page_incref-counted pp k room, some_page, ran) refl,
          linked-IsInserted k2 u,
        )

  pub insert_at-IsInserted :
      (k' : Kernel) × (insert_at pgdir pp va perm (slot t (ptx va)) k ≡ ok (val 0) k')
      × IsInserted pgdir pp va perm t xs k k'
  insert_at-IsInserted = elim (Bool-cases (test (k.word t (ptx va)) pte_p)) [
    | inl yes_page ↦ insert_at-present yes_page
    | inr no_page ↦
        let r = insert_at-absent no_page in (linked pgdir pp va perm t (counted pp k), r.0, r.1)
  ]

  -- page_insert under a table maps the page `pp` at `va` with the flags `perm | PTE_P`, unmaps the
  -- page that was there, and adds the flags to the directory entry. The counts follow, also when
  -- `pp` itself was there. The table is not the directory, and the count of `pp` is below 65535.
  pub page_insert-IsInserted :
      (k' : Kernel) × (page_insert pgdir pp va perm k ≡ ok (val 0) k')
      × IsInserted pgdir pp va perm t xs k k'
  unfolding page_insert
  page_insert-IsInserted = rw (pgdir_walk-present k pgdir va t true i) insert_at-IsInserted

-- The entry that page_insert stores is present and holds the page's address.
entry_present : (pp perm : ℕ) → test (bit_or (bit_or (page2pa pp) perm) pte_p) pte_p ≡ true
entry_present pp perm = present-test _ (omega (arith, bit_or-low (bit_or (page2pa pp) perm) pte_p))

entry_address :
    (pp perm : ℕ) → perm < 4096 → pte_addr (bit_or (bit_or (page2pa pp) perm) pte_p) ≡ page2pa pp
unfolding pte_addr page2pa
entry_address pp perm small = omega (
  arith,
  bit_or-keeps_page (bit_or (pp * 4096 % 4294967296) perm) 1 (omega arith),
  bit_or-keeps_page (pp * 4096 % 4294967296) perm small,
)

-- After page_insert with flags below a page the address translates to the page inserted.
pub check_va2pa-page_insert :
    (k : Kernel) (pgdir pp va perm t : ℕ) (xs : List ℕ)
    → Fits k
    → IsTable k pgdir va t
    → IsFreeList k xs
    → t ≢ pgdir
    → has pp xs ≡ false
    → pp < k.npages
    → (k.pages pp).pp_ref + 1 < 2 ^ 16
    → Counted k xs (k.word t (ptx va))
    → perm < 4096
    → (k' : Kernel) × (page_insert pgdir pp va perm k ≡ ok (val 0) k')
      × (check_va2pa pgdir va k' ≡ ok (page2pa pp) k')
check_va2pa-page_insert k pgdir pp va perm t xs fits i l apart out lt room c small =
    let (k', ran, ins) = page_insert-IsInserted k pgdir pp va perm t xs i l apart out room c in
    let i' : IsTable k' pgdir va t = record {
      present = omega (arith, ins.directory, i.present, bit_or-low (k.word pgdir (pdx va)) perm);
      target = rw ins.directory (bit_or-keeps_page (k.word pgdir (pdx va)) perm small ∙ i.target);
      inside = omega (arith, i.inside, ins.size);
      reached = i.reached;
    } in
    (
      k',
      ran,
      check_va2pa-entry k' pgdir va t i'
          ∙ rw (ins.mapped, entry_present pp perm, entry_address pp perm small) refl,
    )

-- Where the table is missing and no page is free, page_insert reports -E_NO_MEM and changes nothing.
pub page_insert-exhausted :
    (k : Kernel) (pgdir pp va perm : ℕ)
    → k.word pgdir (pdx va) % 2 ≡ 0
    → IsFreeList k []
    → page_insert pgdir pp va perm k ≡ ok (err e_no_mem) k
unfolding page_insert
page_insert-exhausted k pgdir pp va perm absent l =
    rw (pgdir_walk-exhausted k pgdir va absent l) refl

blank_test : (w : ℕ) → w ≡ 0 → test w pte_p ≡ true → ⊥
blank_test w e p = omega (arith, test-present w p)

-- Where the table is missing, page_insert makes the first free page one, and inserts into it.
pub page_insert-creates :
    (k : Kernel) (pgdir pp va perm x : ℕ) (xs : List ℕ)
    → Fits k
    → k.word pgdir (pdx va) % 2 ≡ 0
    → IsFreeList k (x ∷ xs)
    → has pgdir (x ∷ xs) ≡ false
    → has pp (x ∷ xs) ≡ false
    → (k.pages pp).pp_ref + 1 < 2 ^ 16
    → (k1 k' : Kernel) × (page_insert pgdir pp va perm k ≡ ok (val 0) k')
      × IsTable k1 pgdir va x
      × ((k1.pages x).pp_ref ≡ 1)
      × ((p j : ℕ) → p ≢ x → (p ≢ pgdir) ⊎ (j ≢ pdx va) → k1.word p j ≡ k.word p j)
      × ((p : ℕ) → p ≢ x → k1.pages p ≡ k.pages p)
      × IsInserted pgdir pp va perm x xs k1 k'
unfolding page_insert
page_insert-creates k pgdir pp va perm x xs fits absent l apart out room =
    let (k1, ran, i, l1, once, blank, others, words) =
      pgdir_walk-create k pgdir va x xs fits l absent apart in
    let (k', ran', ins) =
      insert_at-IsInserted k1 pgdir pp va perm x xs i l1 (ground arith) (ground arith)
        (ground (arith, others pp))
        (λ p. absurd (blank_test (k1.word x (ptx va)) (blank (ptx va)) p)) in
    (k1, k', rw ran ran', i, once, words, others, ins)
