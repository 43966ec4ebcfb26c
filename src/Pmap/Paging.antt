-- ===== src/Pmap/Paging.antt =====
-- The page tables of kern/pmap.c: pgdir_walk, page_lookup, page_remove, page_insert,
-- tlb_invalidate, boot_map_region, mmio_map_region and check_va2pa.
pub mod Walk
pub mod Remove
pub mod Map
use pmake_os.Base.{
  ℕ, zero, suc, ◌+◌, ◌-◌, ◌*◌, ◌/◌, ◌%◌, ◌^◌, Bool, ◌||◌, not, Option, none, some, ◌∷◌, bit_and,
  bit_or, leb, ltb, ◌==◌, if◌then◌else◌, update,
}
use pmake_os.Kernel.{Kernel}
use pmake_os.Kernel.Run.{M, ok, pure, ◌>>=◌, ◌>>◌, gets, modify, panic}
use pmake_os.Kernel.Ret.{Ret, val, err, e_no_mem}
use pmake_os.Mmu.{
  u32, pg_size, pte_p, pte_w, pte_u, pte_pwt, pte_pcd, pdx, ptx, pte_addr, mmiolim, test,
  round_down, round_up,
}
use pmake_os.Pmap.Alloc.{kaddr, page2pa, pa2page, page_alloc, page_decref, page_incref}

-- A `pte_t *` or `pde_t *`: a word of a page.
pub record Slot : Type 0 where
  pub page : ℕ
  pub index : ℕ

abbrev pub slot : ℕ → ℕ → Slot
slot f i = record { page = f; index = i }

abbrev pub load : Slot → Kernel → ℕ
load s k = k.word s.page s.index

abbrev pub store : Slot → ℕ → Kernel → Kernel
store s w k = record k { word = update k.word s.page (update (k.word s.page) s.index w) }

-- The last line of pgdir_walk.
unfoldable pub walk_table : ℕ → ℕ → M (Option Slot)
walk_table pgdir va = do
  pde ← gets (load (slot pgdir (pdx va)))
  f ← kaddr (pte_addr pde)
  pure (some (slot f (ptx va)))

-- A new page table for the slot of the directory.
unfoldable pub new_table : ℕ → ℕ → ℕ → M (Option Slot)
unfolding walk_table
new_table pgdir va pp = do
  page_incref pp
  modify (store (slot pgdir (pdx va)) (bit_or (bit_or (bit_or (page2pa pp) pte_p) pte_u) pte_w))
  walk_table pgdir va

unfoldable pub pgdir_walk : ℕ → ℕ → Bool → M (Option Slot)
unfolding walk_table new_table
pgdir_walk pgdir va create = do
  pde ← gets (load (slot pgdir (pdx va)))
  if not (test pde pte_p)
      then (if not create
          then pure none
          else do pp ← page_alloc 1; elim pp [ none ↦ pure none | some p ↦ new_table pgdir va p ])
      else walk_table pgdir va

-- The page mapped at `va` and its entry, which the source leaves in `*pte_store`. The source tests
-- `!(*pte) & PTE_P`: the entry is passed over only if all its bits are 0.
unfoldable pub lookup_at : Slot → M (Option (ℕ × Slot))
lookup_at s = do
  pte ← gets (load s)
  if pte == 0 then pure none else do pp ← pa2page (pte_addr pte); pure (some (pp, s))

unfoldable pub page_lookup : ℕ → ℕ → M (Option (ℕ × Slot))
unfolding lookup_at
page_lookup pgdir va = do
  pte ← pgdir_walk pgdir va Bool.false
  elim pte [ none ↦ pure none | some s ↦ lookup_at s ]

-- Is this directory the one in use?
abbrev is_current : ℕ → Kernel → Bool
is_current pgdir k = elim k.curenv [
  | none ↦ Bool.true
  | some e ↦ elim (k.envs e).env_pgdir [ none ↦ Bool.false | some f ↦ f == pgdir ]
]

unfoldable pub tlb_invalidate : ℕ → ℕ → M (Unit {0})
tlb_invalidate pgdir va k =
    if is_current pgdir k then ok tt (record k { flushed = va ∷ k.flushed }) else ok tt k

unfoldable pub unmap : ℕ → ℕ → ℕ → Slot → M (Unit {0})
unmap pgdir va pp s = do page_decref pp; modify (store s 0); tlb_invalidate pgdir va

unfoldable pub page_remove : ℕ → ℕ → M (Unit {0})
unfolding unmap
page_remove pgdir va = do
  found ← page_lookup pgdir va
  elim found [ none ↦ pure tt | some (pp, s) ↦ unmap pgdir va pp s ]

-- page_insert behind its call of pgdir_walk.
unfoldable pub insert_at : ℕ → ℕ → ℕ → ℕ → Slot → M Ret
insert_at pgdir pp va perm s = do
  page_incref pp
  pte ← gets (load s)
  (if test pte pte_p then page_remove pgdir va else pure tt)
  modify (store s (bit_or (bit_or (page2pa pp) perm) pte_p))
  modify (λ k. store (slot pgdir (pdx va)) (bit_or (k.word pgdir (pdx va)) perm) k)
  pure (val 0)

unfoldable pub page_insert : ℕ → ℕ → ℕ → ℕ → M Ret
unfolding insert_at
page_insert pgdir pp va perm = do
  pte ← pgdir_walk pgdir va Bool.true
  elim pte [ none ↦ pure (err e_no_mem) | some s ↦ insert_at pgdir pp va perm s ]

-- The loop of boot_map_region, by the number of pages left.
unfoldable pub boot_map_loop : ℕ → ℕ → ℕ → ℕ → ℕ → M (Unit {0})
boot_map_loop pgdir perm zero va pa = pure tt
boot_map_loop pgdir perm (suc n) va pa = do
  pte ← pgdir_walk pgdir va Bool.true
  elim pte [
    | none ↦ panic
    | some s ↦ do
      modify (store s (bit_or (bit_or pa pte_p) perm))
      boot_map_loop pgdir perm n (u32 (va + pg_size)) (u32 (pa + pg_size))
  ]

unfoldable pub boot_map_region : ℕ → ℕ → ℕ → ℕ → ℕ → M (Unit {0})
boot_map_region pgdir va size pa perm =
    let pgs = if size % pg_size == 0 then size / pg_size else size / pg_size + 1 in
    boot_map_loop pgdir perm pgs va pa

unfoldable pub mmio_map_region : ℕ → ℕ → M ℕ
mmio_map_region pa size k =
    let last = round_up (u32 (pa + size)) pg_size in
    let first = round_down pa pg_size in
    let bytes = (last + 2 ^ 32 - first) % 2 ^ 32 in
    let base = k.mmio_base in
    if leb mmiolim (u32 (base + bytes))
    then panic k
    else (do
      boot_map_region k.kern_pgdir base bytes first (bit_or (bit_or pte_pcd pte_pwt) pte_w)
      modify (λ k'. record k' { mmio_base = u32 (base + bytes) })
      gets (λ k'. (k'.mmio_base + 2 ^ 32 - bytes) % 2 ^ 32))
        k

-- `~0` for an address that is not mapped.
unfoldable pub check_va2pa : ℕ → ℕ → M ℕ
check_va2pa pgdir va = do
  pde ← gets (load (slot pgdir (pdx va)))
  if not (test pde pte_p) then pure (2 ^ 32 - 1) else do
    p ← kaddr (pte_addr pde)
    pte ← gets (load (slot p (ptx va)))
    if not (test pte pte_p) then pure (2 ^ 32 - 1) else pure (pte_addr pte)
