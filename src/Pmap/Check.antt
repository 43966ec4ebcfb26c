-- ===== src/Pmap/Check.antt =====
-- The self-tests of kern/pmap.c that read: check_kern_pgdir and check_page_free_list. A test that fails
-- panics.
pub mod Pages
pub mod Mappings
pub mod FreeList
pub mod FreePages
use pmake_os.Base.{
  ℕ, zero, suc, ◌+◌, ◌-◌, ◌*◌, ◌/◌, ◌%◌, ◌^◌, Bool, true, false, ◌&&◌, ◌||◌, not, Option, none,
  some, List, [], ◌∷◌, ◌++◌, is_some, leb, ltb, ◌==◌, if◌then◌else◌, update,
}
use pmake_os.Kernel.{Kernel}
use pmake_os.Kernel.Run.{M, undefined, pure, ◌>>=◌, ◌>>◌, gets, modify, panic}
use pmake_os.Mmu.{
  u32, pg_size, pte_p, pte_w, npdentries, pdx, uvpt, upages, uenvs, kstacktop, kern_base, mmiobase,
  io_phys_mem, ext_phys_mem, mpentry_paddr, round_up, test,
}
use pmake_os.Env.{nenv}
use pmake_os.Pmap.Alloc.{page2pa, page2kva, set_link, set_free_list, boot_alloc}
use pmake_os.Pmap.Paging.{slot, load, check_va2pa}
use pmake_os.Pmap.Setup.{ncpu, kstksize, kstkgap, sizeof_page_info, sizeof_env}

unfoldable pub assert : Bool → M (Unit {0})
assert test = if test then pure tt else panic

-- A loop over n pages from offset i on: each is mapped to what is expected at its offset.
unfoldable pub check_pages : ℕ → ℕ → (ℕ → ℕ) → ℕ → ℕ → M (Unit {0})
check_pages pgdir va expect zero i = pure tt
check_pages pgdir va expect (suc n) i = do
  pa ← check_va2pa pgdir (u32 (va + i))
  assert (pa == expect i)
  check_pages pgdir va expect n (i + pg_size)

-- How many pages a loop `for (i = 0; i < size; i += PGSIZE)` visits.
abbrev pub pages_of : ℕ → ℕ
pages_of size = (size + (pg_size - 1)) / pg_size

-- The loop over the stacks of the CPUs c, c + 1, …, by the number of those left.
unfoldable pub check_stacks : ℕ → ℕ → ℕ → ℕ → M (Unit {0})
check_stacks pgdir percpu_kstacks zero c = pure tt
check_stacks pgdir percpu_kstacks (suc n) c = do
  let base = kstacktop - (kstksize + kstkgap) * (c + 1)
  check_pages pgdir (base + kstkgap) (λ i. u32 (percpu_kstacks + c * kstksize - kern_base + i))
      (pages_of kstksize) 0
  check_pages pgdir base (λ i. 2 ^ 32 - 1) (pages_of kstkgap) 0
  check_stacks pgdir percpu_kstacks n (c + 1)

-- The four loops of check_kern_pgdir over addresses.
unfoldable pub check_mappings : ℕ → ℕ → ℕ → M (Unit {0})
unfolding check_stacks
check_mappings pages envs percpu_kstacks = do
  pgdir ← gets (λ k. k.kern_pgdir)
  npages ← gets (λ k. k.npages)
  check_pages pgdir upages (λ i. u32 (pages - kern_base + i))
      (pages_of (round_up (u32 (npages * sizeof_page_info)) pg_size)) 0
  check_pages pgdir uenvs (λ i. u32 (envs - kern_base + i))
      (pages_of (round_up (nenv * sizeof_env) pg_size)) 0
  check_pages pgdir kern_base (λ i. i) (pages_of (u32 (npages * pg_size))) 0
  check_stacks pgdir percpu_kstacks ncpu 0

-- The directory entry i is as the switch of check_kern_pgdir wants it.
unfoldable pub pde_fits : ℕ → ℕ → Bool
pde_fits i pde =
    if i == pdx uvpt
      || (i == pdx (kstacktop - 1) || (i == pdx upages || (i == pdx uenvs || i == pdx mmiobase)))
    then test pde pte_p
    else if leb (pdx kern_base) i
    then test pde pte_p && test pde pte_w
    else pde == 0

-- The loop over the n directory entries from i on.
unfoldable pub check_pdes : ℕ → ℕ → ℕ → M (Unit {0})
unfolding pde_fits
check_pdes pgdir zero i = pure tt
check_pdes pgdir (suc n) i = do
  pde ← gets (load (slot pgdir i))
  assert (pde_fits i pde)
  check_pdes pgdir n (i + 1)

unfoldable pub check_kern_pgdir : ℕ → ℕ → ℕ → M (Unit {0})
unfolding check_mappings check_pdes
check_kern_pgdir pages envs percpu_kstacks = do
  check_mappings pages envs percpu_kstacks
  pgdir ← gets (λ k. k.kern_pgdir)
  check_pdes pgdir npdentries 0

-- The pages from `head` on, by the links; none where more than `fuel` pages follow.
unfoldable pub linked : ℕ → Kernel → Option ℕ → Option (List ℕ)
linked fuel k none = some []
linked zero k (some p) = none
linked (suc fuel) k (some p) = elim (linked fuel k (k.pages p).pp_link) [
  | none ↦ none
  | some ps ↦ some (p ∷ ps)
]

-- The pages of the free list; a list that goes round has no end.
unfoldable pub free_pages : M (List ℕ)
free_pages k = elim (linked k.npages k k.page_free_list) [ none ↦ undefined | some ps ↦ pure ps k ]

-- The pages with a directory index below the limit, or at or above it.
unfoldable pub side : ℕ → Bool → List ℕ → List ℕ
side pdx_limit low [] = []
side pdx_limit low (p ∷ ps) =
    let rest = side pdx_limit low ps in
    if (if ltb (pdx (page2pa p)) pdx_limit then low else not low) then p ∷ rest else rest

-- Each page is linked to the next one, and the last one to none.
unfoldable pub link_up : List ℕ → Kernel → Kernel
link_up [] k = set_free_list none k
link_up (p ∷ ps) k =
    let k1 = link_up ps k in set_free_list (some p) (set_link p k1.page_free_list k1)

-- The loop that moves the low pages to the front.
unfoldable pub sort_pages : ℕ → M (Unit {0})
unfolding side link_up
sort_pages pdx_limit = do
  ps ← free_pages
  modify (link_up (side pdx_limit true ps ++ side pdx_limit false ps))

-- memset(page, 0x97, 128)
unfoldable pub scribble : ℕ → Kernel → Kernel
scribble f k = record k {
  word = update k.word f (λ i. if ltb i 32 then 0x9797_9797 else k.word f i);
}

unfoldable pub scribble_all : ℕ → List ℕ → M (Unit {0})
scribble_all pdx_limit [] = pure tt
scribble_all pdx_limit (p ∷ ps) = do
  (if ltb (pdx (page2pa p)) pdx_limit then (do f ← page2kva p; modify (scribble f)) else pure tt)
  scribble_all pdx_limit ps

-- The assertions on a page of the list.
unfoldable pub check_free : ℕ → ℕ → M (Unit {0})
check_free first_free_page p = do
  npages ← gets (λ k. k.npages)
  assert (ltb p npages)
  assert (not (page2pa p == 0))
  assert (not (page2pa p == io_phys_mem))
  assert (not (page2pa p == ext_phys_mem - pg_size))
  assert (not (page2pa p == ext_phys_mem))
  (if ltb (page2pa p) ext_phys_mem
      then pure tt
      else (do f ← page2kva p; assert (leb first_free_page (u32 (page2pa p + kern_base)))))
  assert (not (page2pa p == mpentry_paddr))

-- The last loop, with the numbers of pages below and above the first megabyte.
unfoldable pub check_all_free : ℕ → List ℕ → ℕ → ℕ → M (ℕ × ℕ)
check_all_free first_free_page [] nfree_basemem nfree_extmem = pure (nfree_basemem, nfree_extmem)
check_all_free first_free_page (p ∷ ps) nfree_basemem nfree_extmem = do
  check_free first_free_page p
  let low = ltb (page2pa p) ext_phys_mem
  check_all_free first_free_page ps (if low then nfree_basemem + 1 else nfree_basemem)
      (if low then nfree_extmem else nfree_extmem + 1)

unfoldable pub check_page_free_list : ℕ → Bool → M (Unit {0})
check_page_free_list bss_end only_low_memory = do
  head ← gets (λ k. k.page_free_list)
  assert (is_some head)
  let pdx_limit = if only_low_memory then 1 else npdentries
  (if only_low_memory then sort_pages pdx_limit else pure tt)
  ps ← free_pages
  scribble_all pdx_limit ps
  first_free_page ← boot_alloc bss_end 0
  counts ← check_all_free first_free_page ps 0 0
  assert (ltb 0 counts.0)
  assert (ltb 0 counts.1)
