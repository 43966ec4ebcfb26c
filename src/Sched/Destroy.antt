-- ===== src/Sched/Destroy.antt =====
-- env_free and env_destroy of kern/env.c, and user_mem_assert of kern/pmap.c, which calls them.
use pmake_os.Base.{ℕ, zero, suc, ◌+◌, ◌&&◌, not, none, some, bit_or, if◌then◌else◌}
use pmake_os.Kernel.{env_free, env_dying, is_running}
use pmake_os.Kernel.Run.{M, pure, ◌>>=◌, ◌>>◌, gets, modify, deref}
use pmake_os.Kernel.Ret.{val, err}
use pmake_os.Mmu.{pte_p, pte_u, pdx, utop, pg_addr, pte_addr, test}
use pmake_os.Pmap.Alloc.{page2pa, kaddr, pa2page, page_decref}
use pmake_os.Pmap.Paging.{slot, load, store, page_remove}
use pmake_os.Pmap.UserMem.{user_mem_check}
use pmake_os.Env.{set_env, set_status, is_env}
use pmake_os.Sched.{sched_yield}

-- The inner loop of env_free, with n entries of the table `pt` left and the counter at i.
unfoldable pub free_ptes : ℕ → ℕ → ℕ → ℕ → ℕ → M (Unit {0})
free_ptes pgdir pdeno pt zero i = pure tt
free_ptes pgdir pdeno pt (suc n) i = do
  pte ← gets (load (slot pt i))
  (if test pte pte_p then page_remove pgdir (pg_addr pdeno i 0) else pure tt)
  free_ptes pgdir pdeno pt n (i + 1)

-- One page table: its pages, its directory entry, and the table itself.
unfoldable pub free_table : ℕ → ℕ → ℕ → M (Unit {0})
free_table pgdir pdeno pde = do
  pt ← kaddr (pte_addr pde)
  free_ptes pgdir pdeno pt 1024 0
  modify (store (slot pgdir pdeno) 0)
  pp ← pa2page (pte_addr pde)
  page_decref pp

-- The outer loop, with n directory entries left and the counter at i.
unfoldable pub free_tables : ℕ → ℕ → ℕ → M (Unit {0})
free_tables pgdir zero i = pure tt
free_tables pgdir (suc n) i = do
  pde ← gets (load (slot pgdir i))
  (if test pde pte_p then free_table pgdir i pde else pure tt)
  free_tables pgdir n (i + 1)

-- The end of env_free: the directory, and the free list.
unfoldable pub retire : ℕ → ℕ → M (Unit {0})
retire e pgdir = do
  modify (λ k. set_env e (record (k.envs e) { env_pgdir = none }) k)
  pp ← pa2page (page2pa pgdir)
  page_decref pp
  modify
      (λ k. set_env e (record (k.envs e) { env_status = env_free; env_link = k.env_free_list }) k)
  modify (λ k. record k { env_free_list = some e })

unfoldable pub free_env : ℕ → M (Unit {0})
unfolding free_table retire
free_env e = do
  modify (λ k. if is_env k.curenv e then record k { cr3 = k.kern_pgdir } else k)
  env_pgdir ← gets (λ k. (k.envs e).env_pgdir)
  pgdir ← deref env_pgdir
  free_tables pgdir (pdx utop) 0
  retire e pgdir

unfoldable pub env_destroy : ℕ → M (Unit {0})
env_destroy e k =
    if is_running (k.envs e).env_status && not (is_env k.curenv e)
    then (modify (set_status e env_dying)) k
    else (do
      free_env e
      mine ← gets (λ k. is_env k.curenv e)
      if mine then (do modify (λ k. record k { curenv = none }); sched_yield) else pure tt)
        k

unfoldable pub user_mem_assert : ℕ → ℕ → ℕ → ℕ → M (Unit {0})
user_mem_assert env va len perm = do
  r ← user_mem_check env va len (bit_or perm pte_u)
  elim r [ val _ ↦ pure tt | err _ ↦ env_destroy env ]
