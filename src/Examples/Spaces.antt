-- ===== src/Examples/Spaces.antt =====
-- The theorems about address spaces and the set-up of the memory at the small machine.
use pmake_os.Base.{
  ℕ, ◌+◌, ◌*◌, ◌/◌, ◌≡◌, refl, false, ◌≢◌, true, ◌&&◌, none, List, [], ◌∷◌, arith, bit_or, ◌==◌,
  if◌then◌else◌,
}
use pmake_os.Kernel.{Kernel}
use pmake_os.Kernel.Run.{ok}
use pmake_os.Kernel.Ret.{val}
use pmake_os.Mmu.{pte_p, pte_w, pte_pcd, pte_pwt, pdx, ptx, uvpt, test}
use pmake_os.Pmap.Check.{check_page_free_list}
use pmake_os.Pmap.Check.FreePages.{page_init-check_page_free_list}
use pmake_os.Pmap.Alloc.Init.{usable_below}
use pmake_os.Pmap.Alloc.{page2pa, page_init}
use pmake_os.Pmap.Paging.{page_insert, page_remove, mmio_map_region}
use pmake_os.Pmap.Space.{view, IsSpace}
use pmake_os.Pmap.Space.Steps.{IsMapped}
use pmake_os.Pmap.Space.Region.{device_pages, mmio_map_region-IsMapped}
use pmake_os.Pmap.Space.Pages.{page_insert-IsSpace}
use pmake_os.Pmap.Space.Remove.{page_remove-IsSpace}
use pmake_os.Examples.{machine, full_machine, machine-Fits, machine-IsFreeList}
use pmake_os.Pmap.Alloc.FreeList.{IsFreeList}

only_slot : (d : ℕ) → test (machine.word 2 d) pte_p ≡ true → d ≡ 1
unfolding test
only_slot d p = ground (arith, p)

machine-IsSpace : IsSpace machine 2 (5 ∷ 6 ∷ [])
machine-IsSpace = record {
  fits = machine-Fits;
  list = machine-IsFreeList;
  apart = refl;
  within = λ d ne p. rw (only_slot d p) (omega arith);
  used = λ d ne p. rw (only_slot d p) refl;
  proper = λ d ne p. rw (only_slot d p) (omega arith);
  distinct = λ d e ne ne' df p q. absurd (df (ground (arith, only_slot d p, only_slot e q)));
}

page_insert-IsSpace_example :
    (k' : Kernel) × (ys : List ℕ) × (page_insert 2 7 0x400000 6 machine ≡ ok (val 0) k')
    × IsSpace k' 2 ys
    × ((d j : ℕ)
        → d ≢ pdx uvpt
        → view k' 2 d j ≡ (
            if d == pdx 0x400000 && j == ptx 0x400000
            then bit_or (bit_or (page2pa 7) 6) pte_p
            else view machine 2 d j))
unfolding pdx ptx test
page_insert-IsSpace_example =
    page_insert-IsSpace machine 2 7 0x400000 6 (5 ∷ 6 ∷ []) machine-IsSpace (omega arith)
      (omega arith) (omega arith) refl (omega arith)
      (λ p. (omega arith, refl, omega arith, omega arith))
      (λ p. (omega arith, λ d ne q. rw (only_slot d q) (omega arith)))

page_remove-IsSpace_example :
    (k' : Kernel) × (ys : List ℕ) × (page_remove 2 0x400000 machine ≡ ok tt k')
    × IsSpace k' 2 ys
    × ((d j : ℕ)
        → d ≢ pdx uvpt
        → view k' 2 d j
          ≡ (if d == pdx 0x400000 && j == ptx 0x400000 then 0 else view machine 2 d j))
unfolding pdx ptx test
page_remove-IsSpace_example =
    page_remove-IsSpace machine 2 0x400000 (5 ∷ 6 ∷ []) machine-IsSpace (omega arith) (λ p. (
      (omega arith, λ d ne q. rw (only_slot d q) (omega arith)),
      omega arith,
      refl,
      omega arith,
      omega arith,
    ))

-- The machine with page 2 as the kernel's directory.
abbrev mapped_machine : Kernel
mapped_machine = record machine { kern_pgdir = 2 }

mapped_machine-IsSpace : IsSpace mapped_machine 2 (5 ∷ 6 ∷ [])
mapped_machine-IsSpace =
    let s = machine-IsSpace in
    record {
      fits = s.fits;
      list = s.list;
      apart = s.apart;
      within = s.within;
      used = s.used;
      proper = s.proper;
      distinct = s.distinct;
    }

mmio_map_region-IsMapped_example :
    (k' : Kernel) × (mmio_map_region 0xFEE00000 4096 mapped_machine
      ≡ ok mapped_machine.mmio_base (record k' {
        mmio_base = mapped_machine.mmio_base + device_pages 0xFEE00000 4096 * 4096;
      }))
    × IsMapped 2
        (0xEF800000 / 4096)
        (device_pages 0xFEE00000 4096)
        (0xFEE00000 / 4096 * 4096)
        (bit_or (bit_or pte_pcd pte_pwt) pte_w)
        (5 ∷ 6 ∷ [])
        mapped_machine
        k'
mmio_map_region-IsMapped_example =
    mmio_map_region-IsMapped mapped_machine 0xFEE00000 4096 (5 ∷ 6 ∷ []) mapped_machine-IsSpace
      (omega arith) (omega arith) (omega arith) (omega arith) (omega arith) (omega arith)

-- A machine that starts, and a clock's memory that tells of 16448 KB.
abbrev pub fresh_machine : Kernel
fresh_machine = record machine { page_free_list = none; nextfree = 0 }

abbrev pub clock : ℕ → ℕ
clock r = if r == 52 then 1 else 0

-- A machine of 2 MB, where boot_alloc has handed out the memory before page 300.
abbrev begun_machine : Kernel
begun_machine = record full_machine { npages = 512; nextfree = 0xF012_C000 }

page_init-check_page_free_list_example :
    (k1 : Kernel) × (k2 : Kernel) × (page_init 0xF010_0345 begun_machine ≡ ok tt k1)
    × (check_page_free_list 0xF010_0345 false k1 ≡ ok tt k2)
    × IsFreeList k2 (usable_below 300 512)
page_init-check_page_free_list_example =
    page_init-check_page_free_list 0xF010_0345 300 begun_machine refl (omega arith) (omega arith)
      (omega arith) refl (λ p. refl)
