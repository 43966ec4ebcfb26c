-- ===== src/Examples/Pages.antt =====
-- The theorems about pages and tables at the small machine.
use pmake_os.Base.{ℕ, ◌+◌, ◌≤◌, ◌<◌, ◌≡◌, refl, ◌⊎◌, true, false, some, List, [], ◌∷◌, arith}
use pmake_os.Kernel.{Kernel}
use pmake_os.Kernel.Run.{ok}
use pmake_os.Kernel.Ret.{val, err, e_fault}
use pmake_os.Mmu.{pdx, ptx, round_down, pg_size, test}
use pmake_os.Pmap.Alloc.{page_alloc, page_free}
use pmake_os.Pmap.Alloc.FreeList.{IsFreeList, page_alloc-page_free}
use pmake_os.Pmap.Paging.{page_remove, page_insert}
use pmake_os.Pmap.Paging.Walk.{IsTable}
use pmake_os.Pmap.Paging.Remove.{IsUnmapped, page_remove-unmaps}
use pmake_os.Pmap.Paging.Map.{IsInserted, page_insert-IsInserted}
use pmake_os.Pmap.UserMem.{user_mem_check}
use pmake_os.Pmap.UserMem.Range.{grants, Valid, user_mem_check_lem, user_mem_check-wraps}
use pmake_os.Examples.{machine, full_machine, machine-Fits, machine-IsFreeList}

machine-IsTable : IsTable machine 2 0x400000 3
unfolding pdx
machine-IsTable = record {
  present = refl;
  target = refl;
  inside = omega arith;
  reached = omega arith;
}

page_insert-IsInserted_example :
    (k' : Kernel) × (page_insert 2 7 0x400000 6 machine ≡ ok (val 0) k')
    × IsInserted 2 7 0x400000 6 3 (5 ∷ 6 ∷ []) machine k'
unfolding ptx
page_insert-IsInserted_example =
    page_insert-IsInserted machine 2 7 0x400000 6 3 (5 ∷ 6 ∷ []) machine-IsTable machine-IsFreeList
      (omega arith) refl (omega arith) (λ p. (omega arith, refl, omega arith, omega arith))

page_remove-unmaps_example :
    (k' : Kernel) × (page_remove 2 0x400000 machine ≡ ok tt k')
    × IsUnmapped 2 0x400000 3 4 (5 ∷ 6 ∷ []) machine k'
unfolding ptx
page_remove-unmaps_example =
    page_remove-unmaps machine 2 0x400000 3 (5 ∷ 6 ∷ []) machine-IsTable machine-IsFreeList
      (omega arith) (omega arith) refl (omega arith) (omega arith)

page_alloc-page_free_example :
    (k' : Kernel) × (page_free 7 machine ≡ ok tt k')
    × IsFreeList k' (7 ∷ 5 ∷ 6 ∷ [])
    × (page_alloc 0 k' ≡ ok (some 7) machine)
page_alloc-page_free_example =
    page_alloc-page_free 7 (5 ∷ 6 ∷ []) machine machine-Fits machine-IsFreeList refl (omega arith)
      refl

abbrev last_page : List ℕ
last_page = 6 ∷ []

-- boot_alloc has handed out the memory before page 300.
abbrev begun_machine : Kernel
begun_machine = record full_machine { npages = 512; nextfree = 0xF012_C000 }

machine-Valid : Valid machine 2
unfolding test
machine-Valid i present = (ground arith, ground arith)

user_mem_check_lem_example :
    ((user_mem_check 0 0x400010 100 4 machine ≡ ok (val 0) machine)
      × ((a : ℕ)
          → 0x400010 ≤ a
          → a < 0x400010 + 100
          → grants machine 2 4 (round_down a pg_size) ≡ true))
    ⊎ ((a : ℕ) × (user_mem_check 0 0x400010 100 4 machine
          ≡ ok (err e_fault) (record machine { user_mem_check_addr = a }))
        × (0x400010 ≤ a)
        × (a < 0x400010 + 100)
        × (grants machine 2 4 (round_down a pg_size) ≡ false)
        × ((c : ℕ) → 0x400010 ≤ c → c < a → grants machine 2 4 (round_down c pg_size) ≡ true))
user_mem_check_lem_example =
    user_mem_check_lem machine 0 2 0x400010 100 4 refl machine-Valid (omega arith) (omega arith)

-- A range that begins in the kernel's part of the address space.
user_mem_check-wraps_example : user_mem_check 0 0xF0000000 0x10000000 6 machine ≡ ok (val 0) machine
user_mem_check-wraps_example =
    user_mem_check-wraps machine 0 0xF0000000 0x10000000 6 (omega arith) (omega arith) (omega arith)
