-- ===== src/Pmap/Paging/Walk.antt =====
-- pgdir_walk of kern/pmap.c on each of its branches.
use pmake_os.Base.{
  ℕ, ◌/◌, ◌%◌, ◌≤◌, ◌<◌, ◌≡◌, refl, ◌∙◌, ◌≢◌, ◌⊎◌, Bool, true, false, none, some, List, [], ◌∷◌,
  arith, bit_or, update,
}
use pmake_os.Base.Bits.{bit_or-page, bit_or-zero, bit_or-low}
use pmake_os.Kernel.{Kernel}
use pmake_os.Kernel.Run.{ok, panicked}
use pmake_os.Mmu.{pte_p, pte_w, pte_u, pg_num, pdx, ptx, pte_addr, test}
use pmake_os.Mmu.Laws.{present-test, absent-test}
use pmake_os.Pmap.Alloc.{mapped_pages, kaddr, page2pa, pa2page, page_incref}
use pmake_os.Pmap.Alloc.FreeList.{
  has, Fits, IsFreeList, taken, taken-IsFreeList, page_alloc-some, page_alloc-empty,
  update-IsFreeList,
}
use pmake_os.Pmap.Paging.{slot, store, walk_table, new_table, pgdir_walk}

-- The directory entry for `va` is present and leads to page `t`.
pub record IsTable (k : Kernel) (pgdir va t : ℕ) : Type 0 where
  pub present : k.word pgdir (pdx va) % 2 ≡ 1
  pub target : k.word pgdir (pdx va) / 4096 ≡ t
  pub inside : t < k.npages
  pub reached : t < mapped_pages

pub kaddr-pte_addr :
    (w : ℕ) (k : Kernel)
    → w / 4096 < k.npages
    → w / 4096 < mapped_pages
    → kaddr (pte_addr w) k ≡ ok (w / 4096) k
unfolding kaddr pte_addr pg_num
kaddr-pte_addr w k h low = ground arith

pub pa2page-beyond : (w : ℕ) (k : Kernel) → k.npages ≤ w / 4096 → pa2page (pte_addr w) k ≡ panicked
unfolding pa2page pte_addr pg_num
pa2page-beyond w k h = ground arith

pub pa2page-pte_addr :
    (w : ℕ) (k : Kernel) → w / 4096 < k.npages → pa2page (pte_addr w) k ≡ ok (w / 4096) k
unfolding pa2page pte_addr pg_num
pa2page-pte_addr w k h = ground arith

-- Flags do not reach the address in an entry.
pub bit_or-keeps_page : (w m : ℕ) → m < 4096 → bit_or w m / 4096 ≡ w / 4096
bit_or-keeps_page w m h =
    let low : m / 4096 ≡ 0 = omega arith in bit_or-page w m ∙ rw low (bit_or-zero (w / 4096))

pub page2pa-page : (p : ℕ) (k : Kernel) → Fits k → p < k.npages → page2pa p / 4096 ≡ p
unfolding page2pa
page2pa-page p k fits h = omega arith

walk_table-found :
    (k : Kernel) (pgdir va t : ℕ)
    → IsTable k pgdir va t
    → walk_table pgdir va k ≡ ok (some (slot t (ptx va))) k
unfolding walk_table
walk_table-found k pgdir va t i =
    rw (kaddr-pte_addr (k.word pgdir (pdx va)) k (omega arith) (omega arith), i.target)

-- pgdir_walk of a present directory entry: the entry in the table, and no change.
pub pgdir_walk-present :
    (k : Kernel) (pgdir va t : ℕ) (create : Bool)
    → IsTable k pgdir va t
    → pgdir_walk pgdir va create k ≡ ok (some (slot t (ptx va))) k
unfolding pgdir_walk
pgdir_walk-present k pgdir va t create i =
    rw (present-test (k.word pgdir (pdx va)) i.present) (walk_table-found k pgdir va t i)

pub pgdir_walk-missing :
    (k : Kernel) (pgdir va : ℕ)
    → k.word pgdir (pdx va) % 2 ≡ 0
    → pgdir_walk pgdir va false k ≡ ok none k
unfolding pgdir_walk
pgdir_walk-missing k pgdir va absent = rw (absent-test (k.word pgdir (pdx va)) absent)

pub pgdir_walk-exhausted :
    (k : Kernel) (pgdir va : ℕ)
    → k.word pgdir (pdx va) % 2 ≡ 0
    → IsFreeList k []
    → pgdir_walk pgdir va true k ≡ ok none k
unfolding pgdir_walk
pgdir_walk-exhausted k pgdir va absent l =
    rw (absent-test (k.word pgdir (pdx va)) absent, page_alloc-empty 1 k l)

-- The directory entry of a new table.
abbrev pub table_entry : ℕ → ℕ
table_entry x = bit_or (bit_or (bit_or (page2pa x) pte_p) pte_u) pte_w

-- The state that pgdir_walk leaves behind when it makes the page `x` a table.
abbrev pub with_table : ℕ → ℕ → ℕ → Kernel → Kernel
with_table pgdir va x k =
    let k' = taken 1 x k in
    store (slot pgdir (pdx va)) (table_entry x)
      (record k' { pages = update k'.pages x (record { pp_link = none; pp_ref = 1 }) })

table_entry-present : (x : ℕ) → table_entry x % 2 ≡ 1
table_entry-present x =
    let a = bit_or (page2pa x) pte_p in
    omega
      (arith, bit_or-low (bit_or a pte_u) pte_w, bit_or-low a pte_u, bit_or-low (page2pa x) pte_p)

table_entry-page : (x : ℕ) (k : Kernel) → Fits k → x < k.npages → table_entry x / 4096 ≡ x
table_entry-page x k fits h =
    let a = bit_or (page2pa x) pte_p in
    bit_or-keeps_page (bit_or a pte_u) pte_w (omega arith)
    ∙ bit_or-keeps_page a pte_u (omega arith)
    ∙ bit_or-keeps_page (page2pa x) pte_p (omega arith)
    ∙ page2pa-page x k fits h

pub page_incref-first :
    (x : ℕ) (k : Kernel)
    → k.pages x ≡ record { pp_link = none; pp_ref = 0 }
    → page_incref x k
      ≡ ok tt (record k { pages = update k.pages x (record { pp_link = none; pp_ref = 1 }) })
unfolding page_incref
page_incref-first x k e = ground arith

module _ (k : Kernel) (pgdir va x : ℕ) (xs : List ℕ) (fits : Fits k) (l : IsFreeList k (x ∷ xs))
    (absent : k.word pgdir (pdx va) % 2 ≡ 0) (apart : has pgdir (x ∷ xs) ≡ false) where
  pub with_table-IsTable : IsTable (with_table pgdir va x k) pgdir va x
  with_table-IsTable = record {
    present = ground (arith, table_entry-present x);
    target = ground (arith, table_entry-page x k fits (l.within x (ground arith)));
    inside = l.within x (ground arith);
    reached = omega (arith, fits, l.within x (ground arith));
  }

  pub with_table-IsFreeList : IsFreeList (with_table pgdir va x k) xs
  with_table-IsFreeList =
      update-IsFreeList x (record { pp_link = none; pp_ref = 1 }) xs (taken 1 x k)
        (taken-IsFreeList 1 x xs k l) l.distinct.0 refl

  new_table-with_table :
      new_table pgdir va x (taken 1 x k) ≡ ok (some (slot x (ptx va))) (with_table pgdir va x k)
  unfolding new_table
  new_table-with_table =
      rw (page_incref-first x (taken 1 x k) (ground (arith, l.unused x)))
        (walk_table-found (with_table pgdir va x k) pgdir va x with_table-IsTable)

  pub pgdir_walk-with_table :
      pgdir_walk pgdir va true k ≡ ok (some (slot x (ptx va))) (with_table pgdir va x k)
  unfolding pgdir_walk
  pgdir_walk-with_table =
      rw (absent-test (k.word pgdir (pdx va)) absent, page_alloc-some 1 x xs k fits l)
        new_table-with_table

  -- pgdir_walk of a missing table with free pages left: the first free page becomes the table, with
  -- the count 1 and no entry present, and the rest of the memory and of the page array stays.
  pub pgdir_walk-create :
      (k' : Kernel) × (pgdir_walk pgdir va true k ≡ ok (some (slot x (ptx va))) k')
      × IsTable k' pgdir va x
      × IsFreeList k' xs
      × ((k'.pages x).pp_ref ≡ 1)
      × ((i : ℕ) → k'.word x i ≡ 0)
      × ((p : ℕ) → p ≢ x → k'.pages p ≡ k.pages p)
      × ((p i : ℕ) → p ≢ x → (p ≢ pgdir) ⊎ (i ≢ pdx va) → k'.word p i ≡ k.word p i)
  unfolding test
  pgdir_walk-create = (
    with_table pgdir va x k,
    pgdir_walk-with_table,
    with_table-IsTable,
    with_table-IsFreeList,
    ground arith,
    λ i. ground arith,
    λ p ne. ground arith,
    λ p i ne other. ground arith,
  )
