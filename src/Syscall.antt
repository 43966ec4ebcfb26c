-- ===== src/Syscall.antt =====
-- kern/syscall.c: the system calls. Addresses, permissions and identifiers are 32-bit patterns.
pub mod Memory
pub mod Ipc
pub mod Dispatch
use pmake_os.Base.{
  ℕ, ◌+◌, Bool, true, false, ◌&&◌, ◌||◌, not, Option, none, some, bit_and, ltb, leb, ◌==◌,
  if◌then◌else◌,
}
use pmake_os.Kernel.{Env, Kernel, Trapframe, env_runnable, env_not_runnable}
use pmake_os.Kernel.Run.{M, ok, undefined, pure, ◌>>=◌, ◌>>◌, gets, modify, deref}
use pmake_os.Kernel.Ret.{Ret, val, err, Res, got, fail, e_inval, e_no_mem, e_ipc_not_recv}
use pmake_os.Mmu.{pg_size, pte_p, pte_w, pte_u, utop, test, round_down}
use pmake_os.Pmap.Alloc.{page_alloc, page_free}
use pmake_os.Pmap.Paging.{Slot, load, page_lookup, page_insert, page_remove}
use pmake_os.Env.{set_env, set_status, envid2env, env_alloc}
use pmake_os.Sched.{sched_yield}
use pmake_os.Sched.Destroy.{env_destroy, user_mem_assert}

-- Go on with the environment of an envid; an error is returned.
abbrev pub with_env : Res (Option ℕ) → (ℕ → M Ret) → M Ret
with_env (fail e) f = pure (err e)
with_env (got e) f = deref e >>= f

abbrev pub curenv_of : M ℕ
curenv_of = gets (λ k. k.curenv) >>= deref

-- The directory of an environment, which the page functions follow.
abbrev pub pgdir_of : ℕ → M ℕ
pgdir_of e = gets (λ k. (k.envs e).env_pgdir) >>= deref

-- Not below UTOP, or not at the start of a page.
abbrev pub bad_address : ℕ → Bool
bad_address va = leb utop va || not (round_down va pg_size == va)

-- Without PTE_U or PTE_P.
abbrev pub bad_perm : ℕ → Bool
bad_perm perm = not (bit_and perm 5 == 5)

-- The characters go to the console.
unfoldable pub sys_cputs : ℕ → ℕ → M (Unit {0})
sys_cputs s len = do
  c ← curenv_of
  cs ← gets (λ k. (k.envs c).env_tf.tf_cs)
  if test cs 3 then user_mem_assert c s len 0 else pure tt

unfoldable pub sys_getenvid : M Ret
sys_getenvid = do c ← curenv_of; gets (λ k. val (k.envs c).env_id)

unfoldable pub sys_env_destroy : ℕ → M Ret
sys_env_destroy envid = do
  r ← envid2env envid true
  with_env r (λ e. do env_destroy e; pure (val 0))

-- The environment that sys_exofork returns, behind env_alloc.
unfoldable pub copy_frame : ℕ → ℕ → Kernel → Kernel
copy_frame c e k =
    let tf : Trapframe = (k.envs c).env_tf in
    set_env e
      (record (k.envs e) {
        env_tf = record tf { tf_regs = record (tf.tf_regs) { reg_eax = 0 } };
        env_status = env_not_runnable;
      })
      k

unfoldable pub sys_exofork : M Ret
sys_exofork = do
  c ← curenv_of
  parent ← gets (λ k. (k.envs c).env_id)
  r ← env_alloc parent
  elim r [
    | fail x ↦ pure (err x)
    | got e ↦ do modify (copy_frame c e); gets (λ k. val (k.envs e).env_id)
  ]

-- ENV_RUNNABLE is 2, ENV_NOT_RUNNABLE is 4.
unfoldable pub sys_env_set_status : ℕ → ℕ → M Ret
sys_env_set_status envid status =
    if not (status == 4) && not (status == 2) then pure (err e_inval) else do
      r ← envid2env envid true
      with_env r (λ e. do
        modify (set_status e (if status == 4 then env_not_runnable else env_runnable))
        pure (val 0))

unfoldable pub sys_env_set_pgfault_upcall : ℕ → ℕ → M Ret
sys_env_set_pgfault_upcall envid func = do
  r ← envid2env envid true
  with_env r (λ e. do
    modify (λ k. set_env e (record (k.envs e) { env_pgfault_upcall = func }) k)
    pure (val 0))

-- sys_page_alloc behind page_alloc: the page is given back if it cannot be mapped.
unfoldable pub map_new : ℕ → ℕ → ℕ → ℕ → M Ret
map_new e va perm pg = do
  pgdir ← pgdir_of e
  r ← page_insert pgdir pg va perm
  elim r [ val n ↦ pure (val 0) | err x ↦ do page_free pg; pure (err x) ]

unfoldable pub sys_page_alloc : ℕ → ℕ → ℕ → M Ret
unfolding map_new
sys_page_alloc envid va perm = do
  r ← envid2env envid true
  with_env r (λ e.
      if bad_address va
      then pure (err e_inval)
      else if bad_perm perm
      then pure (err e_inval)
      else do
        pg ← page_alloc 1
        elim pg [ none ↦ pure (err e_no_mem) | some p ↦ map_new e va perm p ])

-- sys_page_map behind page_lookup.
unfoldable pub map_found : ℕ → ℕ → ℕ → ℕ → Slot → M Ret
map_found de dstva perm pg pte = if bad_perm perm then pure (err e_inval) else do
  w ← gets (load pte)
  if not (test w pte_w) && test perm pte_w
      then pure (err e_inval)
      else (do pgdir ← pgdir_of de; page_insert pgdir pg dstva perm)

unfoldable pub sys_page_map : ℕ → ℕ → ℕ → ℕ → ℕ → M Ret
unfolding map_found
sys_page_map srcenvid srcva dstenvid dstva perm = do
  r ← envid2env srcenvid true
  with_env r (λ se. do
    r' ← envid2env dstenvid true
    with_env r' (λ de. if bad_address srcva || bad_address dstva then pure (err e_inval) else do
      pgdir ← pgdir_of se
      found ← page_lookup pgdir srcva
      elim found [ none ↦ pure (err e_inval) | some (pg, pte) ↦ map_found de dstva perm pg pte ]))

unfoldable pub sys_page_unmap : ℕ → ℕ → M Ret
sys_page_unmap envid va = do
  r ← envid2env envid true
  with_env r (λ e.
      if bad_address va
      then pure (err e_inval)
      else do pgdir ← pgdir_of e; page_remove pgdir va; pure (val 0))
