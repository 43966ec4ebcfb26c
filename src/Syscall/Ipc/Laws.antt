-- ===== src/Syscall/Ipc/Laws.antt =====
-- Messages between environments: who waits, what arrives, and what is refused.
use pmake_os.Base.{ℕ, ◌%◌, ◌≤◌, ◌<◌, ◌≡◌, refl, sym, ◌≢◌, true, false, some, arith, le→ltb}
use mathlib.Core.Bool.{false≢true}
use native.Mathlib.Decide.{ℕ_discrete}
use pmake_os.Kernel.{Kernel, env_runnable, env_not_runnable, is_free, is_runnable}
use pmake_os.Kernel.Run.{ok, left, undefined}
use pmake_os.Kernel.Ret.{val, err, got, e_ipc_not_recv}
use pmake_os.Mmu.{pg_size, utop, pdx, round_down}
use pmake_os.Pmap.Paging.{page_lookup}
use pmake_os.Pmap.Paging.Walk.{pgdir_walk-missing}
use pmake_os.Env.{nenv, envx, envid2env}
use pmake_os.Sched.Run.{HasSpace}
use pmake_os.Sched.Robin.{sched_yield-first}
use pmake_os.Syscall.Ipc.{
  receive, deliver, send_page, sys_ipc_try_send, start_waiting, sys_ipc_recv,
}

-- Under the identifier `envid` the environment `r` is found in each state that keeps its fields.
pub record IsNamed (envid r : ℕ) (k : Kernel) : Type 0 where
  pub nonzero : envid ≢ 0
  pub slot_of : envx envid ≡ r
  pub live : is_free (k.envs r).env_status ≡ false
  pub exact : (k.envs r).env_id ≡ envid

envid2env-IsNamed :
    (envid r : ℕ) (k : Kernel) → IsNamed envid r k → envid2env envid false k ≡ ok (got (some r)) k
unfolding envid2env
envid2env-IsNamed envid r k n = ground arith

-- A send to an environment that does not wait is refused and changes nothing.
pub sys_ipc_try_send-refused :
    (envid r value srcva perm : ℕ) (k : Kernel)
    → IsNamed envid r k
    → (k.envs r).env_ipc_recving ≡ false
    → sys_ipc_try_send envid value srcva perm k ≡ ok (err e_ipc_not_recv) k
unfolding sys_ipc_try_send
sys_ipc_try_send-refused envid r value srcva perm k n waits =
    rw (envid2env-IsNamed envid r k n, waits) refl

receive-IsNamed :
    (envid r from value : ℕ) (k : Kernel)
    → IsNamed envid r k
    → IsNamed envid r (receive r from value k)
unfolding receive
receive-IsNamed envid r from value k n = record {
  nonzero = n.nonzero;
  slot_of = n.slot_of;
  live = ground arith;
  exact = ground (arith, n.exact);
}

-- A send without a page to an environment that waits arrives: the receiver has the value and the
-- sender's identifier, is runnable, and its own call returns 0. The receiver's recorded permission
-- and every other environment stay as they were, and each further send is refused until the
-- receiver waits again.
pub sys_ipc_try_send-delivers :
    (envid r c value srcva perm : ℕ) (k : Kernel)
    → IsNamed envid r k
    → (k.envs r).env_ipc_recving ≡ true
    → k.curenv ≡ some c
    → utop ≤ srcva
    → (k' : Kernel) × (sys_ipc_try_send envid value srcva perm k ≡ ok (val 0) k')
      × ((k'.envs r).env_ipc_value ≡ value)
      × ((k'.envs r).env_ipc_from ≡ (k.envs c).env_id)
      × ((k'.envs r).env_status ≡ env_runnable)
      × ((k'.envs r).env_tf.tf_regs.reg_eax ≡ 0)
      × ((k'.envs r).env_ipc_perm ≡ (k.envs r).env_ipc_perm)
      × ((i : ℕ) → i ≢ r → k'.envs i ≡ k.envs i)
      × ((value' srcva' perm' : ℕ)
          → sys_ipc_try_send envid value' srcva' perm' k' ≡ ok (err e_ipc_not_recv) k')
unfolding sys_ipc_try_send deliver receive
sys_ipc_try_send-delivers envid r c value srcva perm k n waits run high =
    let k' = receive r (k.envs c).env_id value k in
    (
      k',
      rw (envid2env-IsNamed envid r k n, waits, le→ltb srcva utop high, run) refl,
      ground arith,
      ground arith,
      ground arith,
      ground arith,
      ground arith,
      (λ i ne. ground arith),
      λ value' srcva' perm'.
          sys_ipc_try_send-refused envid r value' srcva' perm' k'
            (receive-IsNamed envid r (k.envs c).env_id value k n) (ground arith),
    )

-- A send of a page address below UTOP, at the start of a page, under which the sender has no page
-- table reads a pointer that was never set.
pub sys_ipc_try_send-unmapped :
    (envid r c pgdir value srcva perm : ℕ) (k : Kernel)
    → IsNamed envid r k
    → (k.envs r).env_ipc_recving ≡ true
    → k.curenv ≡ some c
    → (k.envs c).env_pgdir ≡ some pgdir
    → srcva < utop
    → round_down srcva pg_size ≡ srcva
    → k.word pgdir (pdx srcva) % 2 ≡ 0
    → sys_ipc_try_send envid value srcva perm k ≡ undefined
unfolding sys_ipc_try_send send_page page_lookup
sys_ipc_try_send-unmapped envid r c pgdir value srcva perm k n waits run own low start absent =
    ground (arith, envid2env-IsNamed envid r k n, pgdir_walk-missing k pgdir srcva absent)

start_waiting-HasSpace :
    (c dstva : ℕ) (k : Kernel) → HasSpace k → HasSpace (start_waiting c dstva k)
unfolding start_waiting
start_waiting-HasSpace c dstva k space j can = elim (ℕ_discrete j c) [
  | yes e ↦ absurd (ground arith)
  | no ne ↦ let (pgdir, own) = space j (ground (arith, can)) in (pgdir, ground (arith, own))
]

-- sys_ipc_recv with another environment runnable: the caller waits, with the address that it gave,
-- is not runnable, and the CPU enters an environment that was runnable.
pub sys_ipc_recv-waits :
    (c w dstva : ℕ) (k : Kernel)
    → k.curenv ≡ some c
    → k.kernel_locked ≡ true
    → HasSpace k
    → (dstva < utop → round_down dstva pg_size ≡ dstva)
    → w < nenv
    → w ≢ c
    → is_runnable (k.envs w).env_status ≡ true
    → (j : ℕ) × (k' : Kernel) × (sys_ipc_recv dstva k ≡ left k')
      × (k'.curenv ≡ some j)
      × (j ≢ c)
      × (is_runnable (k.envs j).env_status ≡ true)
      × ((k'.envs c).env_ipc_recving ≡ true)
      × ((k'.envs c).env_ipc_dstva ≡ dstva)
      × ((k'.envs c).env_status ≡ env_not_runnable)
unfolding sys_ipc_recv start_waiting
sys_ipc_recv-waits c w dstva k run locked space aligned hw ne rw_ =
    let k1 = start_waiting c dstva k in
    let (j, k', ran, is, _, rj, _) =
      sched_yield-first k1 w locked (start_waiting-HasSpace c dstva k space) hw
        (ground (arith, rw_)) in
    let apart : j ≢ c = λ e. false≢true (ground (arith, rj)) in
    let kept = is.kept c (λ e. apart (sym e)) (ground arith) in
    (
      j,
      k',
      ground (arith, run, ran),
      is.current,
      apart,
      ground (arith, rj),
      rw kept (ground arith),
      rw kept (ground arith),
      rw kept (ground arith),
    )
