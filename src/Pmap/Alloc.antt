-- ===== src/Pmap/Alloc.antt =====
-- The page allocator of kern/pmap.c: page_alloc, page_free, page_decref, page_init, and the
-- conversions of kern/pmap.h between pages and addresses.
pub mod FreeList
pub mod Init
use pmake_os.Base.{
  ℕ, zero, suc, ◌+◌, ◌-◌, ◌*◌, ◌/◌, ◌%◌, ◌^◌, Bool, ◌&&◌, ◌||◌, not, Option, none, some, ltb, leb,
  ◌==◌, if◌then◌else◌, is_some, update,
}
use pmake_os.Kernel.{PageInfo, Kernel}
use pmake_os.Kernel.Run.{M, undefined, ok, pure, ◌>>=◌, ◌>>◌, gets, modify, panic}
use pmake_os.Mmu.{u32, pg_size, pg_num, io_phys_mem, mpentry_paddr, kern_base, test, round_up}

-- The pages of the 256 MB between KERNBASE and the end of the addresses.
abbrev pub mapped_pages : ℕ
mapped_pages = 0x1_0000

-- KADDR: the page behind a physical address, through the mapping at KERNBASE. Above 256 MB the sum
-- wraps, and the pointer is not to the page.
unfoldable pub kaddr : ℕ → M ℕ
kaddr pa k =
    if leb k.npages (pg_num pa)
    then panic k
    else if leb mapped_pages (pg_num pa)
    then undefined
    else pure (pg_num pa) k

-- page2pa: `(pp - pages) << PGSHIFT`
unfoldable pub page2pa : ℕ → ℕ
page2pa pp = u32 (pp * 2 ^ 12)

unfoldable pub pa2page : ℕ → M ℕ
pa2page pa k = if leb k.npages (pg_num pa) then panic k else pure (pg_num pa) k

unfoldable pub page2kva : ℕ → M ℕ
unfolding kaddr page2pa
page2kva pp = kaddr (page2pa pp)

abbrev pub alloc_zero : ℕ
alloc_zero = 1

-- memset of one page to zero, by the page's number.
unfoldable pub zero_page : ℕ → Kernel → Kernel
zero_page f k = record k { word = update k.word f (λ _. 0) }

unfoldable pub set_link : ℕ → Option ℕ → Kernel → Kernel
set_link pp l k = record k { pages = update k.pages pp (record (k.pages pp) { pp_link = l }) }

unfoldable pub set_ref : ℕ → ℕ → Kernel → Kernel
set_ref pp r k = record k { pages = update k.pages pp (record (k.pages pp) { pp_ref = r }) }

abbrev pub set_free_list : Option ℕ → Kernel → Kernel
set_free_list l k = record k { page_free_list = l }

-- What page_alloc does with the first page of a list that is not empty.
take_page : ℕ → ℕ → M (Option ℕ)
unfolding set_link zero_page page2kva
take_page flags pp = do
  link ← gets (λ k. (k.pages pp).pp_link)
  modify (set_free_list link)
  modify (set_link pp none)
  if test flags alloc_zero
      then (do f ← page2kva pp; modify (zero_page f); pure (some pp))
      else pure (some pp)

unfoldable pub page_alloc : ℕ → M (Option ℕ)
unfolding take_page
page_alloc flags k = elim k.page_free_list [ none ↦ pure none k | some pp ↦ take_page flags pp k ]

unfoldable pub page_free : ℕ → M (Unit {0})
unfolding set_link
page_free pp k =
    if not ((k.pages pp).pp_ref == 0) || is_some (k.pages pp).pp_link
    then panic k
    else (do modify (set_link pp k.page_free_list); modify (set_free_list (some pp))) k

-- `--pp->pp_ref`, on a uint16_t
unfoldable pub page_decref : ℕ → M (Unit {0})
unfolding page_free set_ref
page_decref pp k =
    let r = ((k.pages pp).pp_ref + (2 ^ 16 - 1)) % 2 ^ 16 in
    (modify (set_ref pp r) >> (if r == 0 then page_free pp else pure tt)) k

-- `pp->pp_ref++`
unfoldable pub page_incref : ℕ → M (Unit {0})
unfolding set_ref
page_incref pp k = modify (set_ref pp (((k.pages pp).pp_ref + 1) % 2 ^ 16)) k

-- PADDR: a kernel virtual address as a physical one.
unfoldable pub paddr : ℕ → M ℕ
paddr kva k = if ltb kva kern_base then panic k else pure (kva - kern_base) k

-- `bss_end` is the linker's symbol `end`.
unfoldable pub boot_alloc : ℕ → ℕ → M ℕ
boot_alloc bss_end n k =
    let result = if k.nextfree == 0 then round_up bss_end pg_size else k.nextfree in
    ok result (record k { nextfree = round_up (u32 (result + n)) pg_size })

unfoldable pub reserve : ℕ → Kernel → Kernel
reserve i k = record k { pages = update k.pages i (record { pp_link = none; pp_ref = 1 }) }

unfoldable pub release : ℕ → Kernel → Kernel
release i k = record k {
  pages = update k.pages i (record { pp_link = k.page_free_list; pp_ref = 0 });
  page_free_list = some i;
}

-- One round of the loop of page_init.
unfoldable pub page_init_at : ℕ → ℕ → Kernel → Kernel
unfolding reserve release
page_init_at kernel_end_page i k =
    if i == 0
    then reserve i k
    else if leb (io_phys_mem / pg_size) i && ltb i kernel_end_page
    then reserve i k
    else if i == mpentry_paddr / pg_size
    then reserve i k
    else release i k

-- The rounds for i = 0, 1, …, n - 1.
unfoldable pub page_init_loop : ℕ → ℕ → Kernel → Kernel
page_init_loop kernel_end_page zero k = k
page_init_loop kernel_end_page (suc n) k =
    page_init_at kernel_end_page n (page_init_loop kernel_end_page n k)

unfoldable pub page_init : ℕ → M (Unit {0})
page_init bss_end = do
  kernel_end ← boot_alloc bss_end 0
  kernel_end_pa ← paddr kernel_end
  npages ← gets (λ k. k.npages)
  modify (page_init_loop (kernel_end_pa / pg_size) npages)
