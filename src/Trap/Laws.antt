-- ===== src/Trap/Laws.antt =====
-- What a trap from user mode leads to: preemption, and the result of a system call.
use pmake_os.Base.{ℕ, ◌+◌, ◌%◌, ◌<◌, ◌≡◌, refl, sym, ap, ◌∙◌, ◌≤◌, ◌≢◌, true, false, some, arith}
use native.Mathlib.Decide.{ℕ_discrete}
use mathlib.Core.Bool.{false≢true}
use pmake_os.Kernel.{
  EnvStatus, Kernel, Trapframe, cpu_started, env_runnable, is_runnable, is_running, is_dying,
}
use pmake_os.Kernel.Run.{ok, left, and_then}
use pmake_os.Kernel.Ret.{Ret, to_word}
use pmake_os.Env.{nenv, set_env, env_run}
use pmake_os.Sched.{start_of}
use pmake_os.Sched.Run.{HasSpace, env_run-IsRunning}
use pmake_os.Sched.Robin.{distance, sched_yield-first}
use pmake_os.Syscall.Dispatch.{syscall}
use pmake_os.Trap.{
  t_syscall, irq_offset, irq_timer, lock_kernel, set_result, trap_dispatch, resume, is_halted,
  trap_user, trap,
}

-- The state in which a trap from user mode is dispatched: the lock is held, and the frame is in the
-- environment.
abbrev pub trapped : ℕ → Trapframe → Kernel → Kernel
trapped c tf k =
    set_env c (record (k.envs c) { env_tf = tf })
      (record k { cpu_status = cpu_started; kernel_locked = true })

-- The environment `c` runs in user mode on this CPU, which does not hold the lock, and `tf` is the
-- frame of a trap from there.
pub record IsUserTrap (c : ℕ) (tf : Trapframe) (k : Kernel) : Type 0 where
  pub current : k.curenv ≡ some c
  pub running : is_running (k.envs c).env_status ≡ true
  pub awake : is_halted k.cpu_status ≡ false
  pub unlocked : k.kernel_locked ≡ false
  pub user : tf.tf_cs % 4 ≡ 3

pub running_apart :
    (s : EnvStatus) → is_running s ≡ true → (is_dying s ≡ false) × (is_runnable s ≡ false)
running_apart EnvStatus.env_free r = (refl, refl)
running_apart EnvStatus.env_dying r = absurd (false≢true r)
running_apart EnvStatus.env_runnable r = absurd (false≢true r)
running_apart EnvStatus.env_running r = (refl, refl)
running_apart EnvStatus.env_not_runnable r = (refl, refl)

trapped-HasSpace : (c : ℕ) (tf : Trapframe) (k : Kernel) → HasSpace k → HasSpace (trapped c tf k)
trapped-HasSpace c tf k space j can = elim (ℕ_discrete j c) [
  | yes e ↦ let (pgdir, own) = space j (ground (arith, can)) in (pgdir, ground (arith, own))
  | no ne ↦ let (pgdir, own) = space j (ground (arith, can)) in (pgdir, ground (arith, own))
]

-- Saving the frame changes no turn.
trapped-first :
    (c : ℕ) (tf : Trapframe) (k : Kernel) (j b : ℕ)
    → k.curenv ≡ some c
    → (is_runnable ((trapped c tf k).envs b).env_status ≡ true
        → distance (start_of (trapped c tf k)) j ≤ distance (start_of (trapped c tf k)) b)
    → is_runnable (k.envs b).env_status ≡ true
    → distance (start_of k) j ≤ distance (start_of k) b
trapped-first c tf k j b current first rb =
    let same : start_of (trapped c tf k) ≡ start_of k = ground (arith, current) in
    rw same at first (ground (arith, rb))

-- The clock interrupts the running environment `c` while another one is runnable, and what can run has
-- an address space: the CPU enters the runnable environment that comes first in circular order behind
-- `c`, which is another one, and releases the lock; `c` keeps the frame of the trap and is runnable
-- again.
pub trap-preempts :
    (c w fault_va : ℕ) (tf : Trapframe) (k : Kernel)
    → IsUserTrap c tf k
    → HasSpace k
    → tf.tf_trapno ≡ irq_offset + irq_timer
    → w < nenv
    → is_runnable (k.envs w).env_status ≡ true
    → (j : ℕ) × (k' : Kernel) × (trap fault_va false tf k ≡ left k')
      × (k'.curenv ≡ some j)
      × (j ≢ c)
      × (is_runnable (k.envs j).env_status ≡ true)
      × ((k'.envs c).env_tf ≡ tf)
      × ((k'.envs c).env_status ≡ env_runnable)
      × (k'.kernel_locked ≡ false)
      × ((b : ℕ)
          → b < nenv
          → is_runnable (k.envs b).env_status ≡ true
          → distance (start_of k) j ≤ distance (start_of k) b)
unfolding trap trap_user trap_dispatch lock_kernel
trap-preempts c w fault_va tf k u space clock hw rw_ =
    let k1 = trapped c tf k in
    let (j, k', ran, is, _, rj, first) =
      sched_yield-first k1 w refl (trapped-HasSpace c tf k space) hw (ground (arith, rw_)) in
    let rj' : is_runnable (k.envs j).env_status ≡ true = ground (arith, rj) in
    let apart : j ≢ c = λ e. false≢true (
      sym (running_apart (k.envs c).env_status u.running).1
      ∙ ap (λ (i : ℕ). is_runnable (k.envs i).env_status) (sym e)
      ∙ rj') in
    let live = (running_apart (k.envs c).env_status u.running).0 in
    (
      j,
      k',
      ground (arith, u.current, u.running, u.awake, u.unlocked, u.user, clock, ran, live),
      is.current,
      apart,
      rj',
      ground (arith, is.frames c),
      ground (arith, is.others c, u.current, u.running),
      is.unlocked,
      λ b hb rb. trapped-first c tf k j b u.current (first b hb) rb,
    )

resume-running :
    (c : ℕ) (k : Kernel)
    → k.curenv ≡ some c
    → is_running (k.envs c).env_status ≡ true
    → resume k ≡ env_run c k
unfolding resume
resume-running c k run running = rw (run, running) refl

pub trap-dispatched :
    (c fault_va : ℕ) (tf : Trapframe) (k : Kernel)
    → IsUserTrap c tf k
    → is_dying (k.envs c).env_status ≡ false
    → trap fault_va false tf k
      ≡ and_then (trap_dispatch (some c) fault_va tf (trapped c tf k)) (λ _. resume)
unfolding trap trap_user lock_kernel
trap-dispatched c fault_va tf k u live =
    ground (arith, u.current, u.running, u.awake, u.unlocked, u.user, live)

trap_dispatch-called :
    (c fault_va : ℕ) (tf : Trapframe) (r : Ret) (k k2 : Kernel)
    → tf.tf_trapno ≡ t_syscall
    → syscall (tf.tf_regs.reg_eax) (tf.tf_regs.reg_edx) (tf.tf_regs.reg_ecx) k ≡ ok r k2
    → trap_dispatch (some c) fault_va tf k ≡ ok tt (set_result (some c) (to_word r) k2)
unfolding trap_dispatch
trap_dispatch-called c fault_va tf r k k2 call ran = rw (call, ran) refl

-- A system call that returns to the environment `c`, which still runs: `c` goes on in user mode with
-- the result in %eax and its other registers as they were at the trap.
pub trap-syscall :
    (c pgdir fault_va : ℕ) (tf : Trapframe) (r : Ret) (k k2 : Kernel)
    → IsUserTrap c tf k
    → tf.tf_trapno ≡ t_syscall
    → syscall (tf.tf_regs.reg_eax) (tf.tf_regs.reg_edx) (tf.tf_regs.reg_ecx) (trapped c tf k)
      ≡ ok r k2
    → k2.curenv ≡ some c
    → is_running (k2.envs c).env_status ≡ true
    → k2.kernel_locked ≡ true
    → (k2.envs c).env_tf ≡ tf
    → (k2.envs c).env_pgdir ≡ some pgdir
    → (k' : Kernel) × (trap fault_va false tf k ≡ left k')
      × (k'.curenv ≡ some c)
      × (k'.cr3 ≡ pgdir)
      × ((k'.envs c).env_tf ≡ record tf { tf_regs = record (tf.tf_regs) { reg_eax = to_word r } })
unfolding set_result
trap-syscall c pgdir fault_va tf r k k2 u call ran run running locked frame own =
    let live = (running_apart (k.envs c).env_status u.running).0 in
    let k3 = set_result (some c) (to_word r) k2 in
    let (k', entered_it, is) = env_run-IsRunning c pgdir k3 locked (ground (arith, own)) in
    (
      k',
      rw
          (
            trap-dispatched c fault_va tf k u live,
            trap_dispatch-called c fault_va tf r (trapped c tf k) k2 call ran,
          )
          (resume-running c k3 run (ground (arith, running)) ∙ entered_it),
      is.current,
      ground (arith, is.space, own),
      is.frames c ∙ ground (arith, frame),
    )
