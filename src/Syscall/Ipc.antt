-- ===== src/Syscall/Ipc.antt =====
-- sys_ipc_try_send and sys_ipc_recv of kern/syscall.c.
pub mod Laws
use pmake_os.Base.{
  ℕ, Bool, true, false, ◌&&◌, ◌||◌, not, Option, none, some, bit_and, ltb, ◌==◌, if◌then◌else◌,
}
use pmake_os.Kernel.{Env, Kernel, Trapframe, PushRegs, env_runnable, env_not_runnable}
use pmake_os.Kernel.Run.{M, undefined, pure, ◌>>=◌, ◌>>◌, gets, modify, deref}
use pmake_os.Kernel.Ret.{Ret, val, err, e_inval, e_ipc_not_recv}
use pmake_os.Mmu.{pg_size, pte_w, utop, test, round_down}
use pmake_os.Pmap.Paging.{Slot, load, page_lookup, page_insert}
use pmake_os.Env.{set_env, envid2env}
use pmake_os.Sched.{sched_yield}
use pmake_os.Syscall.{with_env, curenv_of, pgdir_of}

-- The receiver's fields at the end of sys_ipc_try_send.
unfoldable pub receive : ℕ → ℕ → ℕ → Kernel → Kernel
receive rcv from value k =
    let tf : Trapframe = (k.envs rcv).env_tf in
    set_env rcv
      (record (k.envs rcv) {
        env_ipc_recving = false;
        env_ipc_from = from;
        env_ipc_value = value;
        env_status = env_runnable;
        env_tf = record tf { tf_regs = record (tf.tf_regs) { reg_eax = 0 } };
      })
      k

unfoldable pub deliver : ℕ → ℕ → M Ret
unfolding receive
deliver rcv value = do
  c ← curenv_of
  from ← gets (λ k. (k.envs c).env_id)
  modify (receive rcv from value)
  pure (val 0)

-- The page goes to the receiver if it asked for one.
unfoldable pub share_page : ℕ → ℕ → ℕ → ℕ → M Ret
share_page rcv value perm pg = do
  dstva ← gets (λ k. (k.envs rcv).env_ipc_dstva)
  if ltb dstva utop
      then (do
        pgdir ← pgdir_of rcv
        r ← page_insert pgdir pg dstva perm
        elim r [
          | err x ↦ pure (err x)
          | val n ↦ do
            modify (λ k. set_env rcv (record (k.envs rcv) { env_ipc_perm = perm }) k)
            deliver rcv value
        ])
      else deliver rcv value

-- The tests of the sender's page. `*pte` is read before `pg` is tested, and page_lookup leaves `pte`
-- unset where it finds no page: that read has no meaning.
unfoldable pub send_page : ℕ → ℕ → ℕ → ℕ → M Ret
unfolding share_page
send_page rcv value srcva perm = do
  c ← curenv_of
  pgdir ← pgdir_of c
  found ← page_lookup pgdir srcva
  if not (srcva == round_down srcva pg_size) then pure (err e_inval) else elim found [
    | none ↦ (λ k. undefined)
    | some (pg, pte) ↦ do
      w ← gets (load pte)
      if not (bit_and (bit_and w perm) 7 == bit_and perm 7)
          then pure (err e_inval)
          else if test perm pte_w && not (test w pte_w)
          then pure (err e_inval)
          else share_page rcv value perm pg
  ]

unfoldable pub sys_ipc_try_send : ℕ → ℕ → ℕ → ℕ → M Ret
sys_ipc_try_send envid value srcva perm = do
  r ← envid2env envid false
  with_env r (λ rcv. do
    recving ← gets (λ k. (k.envs rcv).env_ipc_recving)
    if not recving
        then pure (err e_ipc_not_recv)
        else if ltb srcva utop
        then send_page rcv value srcva perm
        else deliver rcv value)

-- The current environment waits for a message.
unfoldable pub start_waiting : ℕ → ℕ → Kernel → Kernel
start_waiting c dstva k =
    set_env c
      (record (k.envs c) {
        env_ipc_recving = true;
        env_status = env_not_runnable;
        env_ipc_dstva = dstva;
      })
      k

unfoldable pub sys_ipc_recv : ℕ → M Ret
sys_ipc_recv dstva =
    if ltb dstva utop && not (dstva == round_down dstva pg_size)
    then pure (err e_inval)
    else do c ← curenv_of; modify (start_waiting c dstva); sched_yield; pure (val 0)
