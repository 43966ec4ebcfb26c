-- ===== src/Syscall/Memory.antt =====
-- The system calls on memory: which errors come before anything changes.
use pmake_os.Base.{ℕ, ◌≡◌, refl, true, false, ◌||◌, some, [], arith}
use pmake_os.Kernel.{Kernel}
use pmake_os.Kernel.Run.{ok}
use pmake_os.Kernel.Ret.{err, got, fail, Error, e_inval, e_no_mem}
use pmake_os.Pmap.Alloc.FreeList.{IsFreeList, page_alloc-empty}
use pmake_os.Env.{envid2env}
use pmake_os.Syscall.{
  bad_address, bad_perm, sys_env_destroy, sys_env_set_status, sys_env_set_pgfault_upcall,
  sys_page_alloc, sys_page_map, sys_page_unmap,
}

-- An identifier that envid2env does not allow the caller to manage is answered with its error by
-- each call that takes one, and changes nothing.
pub envid2env-denied :
    (envid va dst dstva perm func : ℕ) (x : Error) (k : Kernel)
    → envid2env envid true k ≡ ok (fail x) k
    → (sys_env_destroy envid k ≡ ok (err x) k)
      × (sys_env_set_status envid 2 k ≡ ok (err x) k)
      × (sys_env_set_pgfault_upcall envid func k ≡ ok (err x) k)
      × (sys_page_alloc envid va perm k ≡ ok (err x) k)
      × (sys_page_map envid va dst dstva perm k ≡ ok (err x) k)
      × (sys_page_unmap envid va k ≡ ok (err x) k)
unfolding sys_env_destroy sys_env_set_status sys_env_set_pgfault_upcall sys_page_alloc sys_page_map
    sys_page_unmap
envid2env-denied envid va dst dstva perm func x k denied =
    (rw denied refl, rw denied refl, rw denied refl, rw denied refl, rw denied refl, rw denied refl)

-- sys_page_alloc for an environment that the caller may manage: an address at or above UTOP or inside
-- a page, or flags without PTE_U or PTE_P, are answered by -E_INVAL, and no free page by -E_NO_MEM.
-- Nothing changes then.
pub sys_page_alloc-fails :
    (envid e va perm : ℕ) (k : Kernel)
    → envid2env envid true k ≡ ok (got (some e)) k
    → ((bad_address va || bad_perm perm) ≡ true
        → sys_page_alloc envid va perm k ≡ ok (err e_inval) k)
      × ((bad_address va || bad_perm perm) ≡ false
          → IsFreeList k []
          → sys_page_alloc envid va perm k ≡ ok (err e_no_mem) k)
unfolding sys_page_alloc
sys_page_alloc-fails envid e va perm k found =
    rw found (λ bad. ground arith, λ good empty. ground (arith, page_alloc-empty 1 k empty))
