-- ===== src/Examples/Envs.antt =====
-- The theorems about environments, the scheduler, traps and the lock at concrete states.
use pmake_os.Base.{
  ℕ, ◌^◌, ◌-◌, ◌≤◌, ◌<◌, ◌≡◌, refl, ◌≢◌, ◌⊎◌, true, false, none, some, [], ◌∷◌, arith,
  if◌then◌else◌, ◌==◌,
}
use pmake_os.Kernel.{Kernel, Trapframe, env_free, env_runnable, is_runnable}
use pmake_os.Kernel.Run.{ok, left}
use pmake_os.Kernel.Ret.{got, fail, e_bad_env}
use pmake_os.Env.{nenv, envx, envid2env, env_alloc, user_tf}
use pmake_os.Env.Alloc.{IsAllocated, env_alloc-IsAllocated, envid2env-env_alloc}
use pmake_os.Sched.{start_of, sched_yield}
use pmake_os.Sched.Run.{IsRunning, HasSpace}
use pmake_os.Sched.Robin.{distance, sched_yield-first, sched_yield-progress}
use pmake_os.User.Stubs.{stub, returned, libmain, run_main, stub-unserved, libmain-thisenv}
use pmake_os.Trap.{trap}
use pmake_os.Trap.Laws.{IsUserTrap, trap-preempts}
use pmake_os.Spin.{Phase, Spinlock, initlock, advance, spin_lock_enter, spin_lock_xchg, holding}
use pmake_os.Spin.Exclusion.{Reachable, start, step, spin_lock-excludes, advance-total}
use pmake_os.Examples.{machine, machine-Fits, machine-IsFreeList}

machine-HasSpace : HasSpace machine
machine-HasSpace j can = (2, ground arith)

env_alloc-IsAllocated_example :
    (k' : Kernel) × (env_alloc 4096 machine ≡ ok (got 3) k')
    × IsAllocated 3 5 4096 (6 ∷ []) machine k'
env_alloc-IsAllocated_example =
    env_alloc-IsAllocated 4096 3 5 (6 ∷ []) machine machine-Fits machine-IsFreeList refl refl

envid2env-env_alloc_example :
    (k' : Kernel) × (env_alloc 4096 machine ≡ ok (got 3) k')
    × (envid2env (k'.envs 3).env_id false k' ≡ ok (got (some 3)) k')
    × ((machine.envs 3).env_id ≢ 0
        → envx (machine.envs 3).env_id ≡ 3
        → envid2env (machine.envs 3).env_id false k' ≡ ok (fail e_bad_env) k')
envid2env-env_alloc_example =
    envid2env-env_alloc 4096 3 5 (6 ∷ []) machine machine-Fits machine-IsFreeList refl refl
      (omega arith) (omega arith)

sched_yield-first_example :
    (j : ℕ) × (k' : Kernel) × (sched_yield machine ≡ left k')
    × IsRunning j machine k'
    × (j < nenv)
    × (is_runnable (machine.envs j).env_status ≡ true)
    × ((b : ℕ)
        → b < nenv
        → is_runnable (machine.envs b).env_status ≡ true
        → distance (start_of machine) j ≤ distance (start_of machine) b)
sched_yield-first_example = sched_yield-first machine 2 refl machine-HasSpace (omega arith) refl

sched_yield-progress_example :
    (k' : Kernel) × (sched_yield machine ≡ left k')
    × ((k'.curenv ≡ some 2)
        ⊎ ((is_runnable (k'.envs 2).env_status ≡ true)
            × (distance (start_of k') 2 < distance (start_of machine) 2)))
unfolding envx
sched_yield-progress_example =
    sched_yield-progress machine 2 refl machine-HasSpace (λ i h. omega arith) (omega arith) refl

-- The machine with every environment free.
abbrev idle_machine : Kernel
idle_machine = record machine {
  envs = λ e. record (machine.envs e) { env_status = env_free };
  curenv = none;
}

-- The machine in user mode, and traps from there.
abbrev user_machine : Kernel
user_machine = record machine { kernel_locked = false }

abbrev frame_of : ℕ → ℕ → Trapframe
frame_of trapno eax =
    let tf : Trapframe = user_tf in
    record tf { tf_trapno = trapno; tf_regs = record (tf.tf_regs) { reg_eax = eax } }

user_machine-IsUserTrap : (trapno eax : ℕ) → IsUserTrap 0 (frame_of trapno eax) user_machine
user_machine-IsUserTrap trapno eax = record {
  current = refl;
  running = refl;
  awake = refl;
  unlocked = refl;
  user = refl;
}

trap-preempts_example :
    (j : ℕ) × (k' : Kernel) × (trap 0 false (frame_of 32 0) user_machine ≡ left k')
    × (k'.curenv ≡ some j)
    × (j ≢ 0)
    × (is_runnable (user_machine.envs j).env_status ≡ true)
    × ((k'.envs 0).env_tf ≡ frame_of 32 0)
    × ((k'.envs 0).env_status ≡ env_runnable)
    × (k'.kernel_locked ≡ false)
    × ((b : ℕ)
        → b < nenv
        → is_runnable (user_machine.envs b).env_status ≡ true
        → distance (start_of user_machine) j ≤ distance (start_of user_machine) b)
trap-preempts_example =
    trap-preempts 0 2 0 (frame_of 32 0) user_machine (user_machine-IsUserTrap 32 0)
      (λ j can. (2, ground arith)) refl (omega arith) refl

user_tf-IsUserTrap : IsUserTrap 0 user_tf user_machine
user_tf-IsUserTrap = record {
  current = refl;
  running = refl;
  awake = refl;
  unlocked = refl;
  user = refl;
}

-- SYS_page_alloc.
stub-unserved_example :
    (k' : Kernel) × (stub 0 4 true 0 0x80_0000 7 0 0 user_tf user_machine
      ≡ returned (2 ^ 32 - 3) k')
    × (k'.curenv ≡ some 0)
stub-unserved_example =
    stub-unserved 0 2 4 0 0x80_0000 7 0 0 true user_tf user_machine user_tf-IsUserTrap refl
      (omega arith) (omega arith) (omega arith)

libmain-thisenv_example :
    (k' : Kernel) × (libmain 0 user_tf (λ e name k. returned user_tf k) 5 1 9 user_machine
      ≡ run_main 0 (λ e name k. returned user_tf k) 0 9 k')
    × (k'.curenv ≡ some 0)
libmain-thisenv_example =
    libmain-thisenv 0 2 5 1 9 user_tf (λ e name k. returned user_tf k) user_machine
      user_tf-IsUserTrap refl

-- CPU 1 enters spin_lock, and takes the lock.
abbrev one_spins : Spinlock
one_spins = record initlock { phases = λ c. if c == 1 then Phase.spinning else Phase.outside }

abbrev one_takes : Spinlock
one_takes = record {
  locked = true;
  cpu = none;
  phases = λ c. if c == 1 then Phase.taken else if c == 1 then Phase.spinning else Phase.outside;
}

one_takes-Reachable : Reachable one_takes
unfolding advance initlock spin_lock_enter spin_lock_xchg holding
one_takes-Reachable = step {s = one_spins} 1 (step {s = initlock} 1 start refl) refl

abbrev first_cpu : ℕ
first_cpu = 1

spin_lock-excludes_example : first_cpu ≡ first_cpu
spin_lock-excludes_example =
    spin_lock-excludes one_takes first_cpu first_cpu one_takes-Reachable refl refl

advance-total_example : (s' : Spinlock) × (advance 2 one_takes ≡ some s') × Reachable s'
advance-total_example = advance-total one_takes 2 one_takes-Reachable
