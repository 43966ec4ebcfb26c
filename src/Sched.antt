-- ===== src/Sched.antt =====
-- kern/sched.c: the choice of the next environment.
pub mod Run
pub mod Robin
pub mod Destroy
use pmake_os.Base.{
  ℕ, zero, suc, ◌+◌, ◌%◌, Bool, true, false, ◌||◌, not, Option, none, some, ◌==◌, if◌then◌else◌,
}
use pmake_os.Kernel.{is_dying, is_runnable, is_running, cpu_halted, Env, Kernel}
use pmake_os.Kernel.Run.{M, left, panicked, in_monitor}
use pmake_os.Env.{nenv, envx, env_run}

-- Is one of the first n environments runnable, running or dying?
unfoldable pub some_live : ℕ → (ℕ → Env) → Bool
some_live zero envs = false
some_live (suc n) envs =
    let s = (envs n).env_status in
    some_live n envs || (is_runnable s || (is_running s || is_dying s))

unfoldable pub sched_halt : M (Unit {0})
unfolding some_live
sched_halt k =
    if not (some_live nenv k.envs)
    then in_monitor k
    else if not k.kernel_locked
    then panicked
    else left (record k {
      curenv = none;
      cr3 = k.kern_pgdir;
      cpu_status = cpu_halted;
      kernel_locked = false;
    })

-- Behind the loop of sched_yield.
unfoldable pub run_again : M (Unit {0})
run_again k = elim k.curenv [
  | none ↦ sched_halt k
  | some c ↦ if is_running (k.envs c).env_status then env_run c k else sched_halt k
]

-- The loop of sched_yield, with n rounds left and the counter at i.
unfoldable pub sched_loop : ℕ → ℕ → ℕ → M (Unit {0})
unfolding run_again
sched_loop zero start i k = run_again k
sched_loop (suc n) start i k =
    let rest = sched_loop n start (i + 1) k in
    let j = (start + i) % nenv in if is_runnable (k.envs j).env_status then env_run j k else rest

abbrev pub start_of : Kernel → ℕ
start_of k = elim k.curenv [ none ↦ 0 | some c ↦ envx (k.envs c).env_id + 1 ]

unfoldable pub sched_yield : M (Unit {0})
sched_yield k = sched_loop nenv (start_of k) 0 k
