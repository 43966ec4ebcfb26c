-- ===== src/Sched/Run.antt =====
-- Behind env_run of kern/env.c, which enters an environment and does not return.
use pmake_os.Base.{ℕ, ◌≡◌, refl, ◌≢◌, true, false, ◌&&◌, ◌||◌, some, arith, if◌then◌else◌}
use pmake_os.Kernel.{env_runnable, env_running, is_runnable, is_running, Kernel}
use pmake_os.Kernel.Run.{left}
use pmake_os.Env.{is_env, demote, entered, env_run}

-- Behind env_run of `j`: it is current and running in its own address space without the kernel's
-- lock, the environment that ran before is runnable again, and no other environment and no word of
-- memory changed.
pub record IsRunning (j : ℕ) (k k' : Kernel) : Type 0 where
  pub current : k'.curenv ≡ some j
  pub status : (k'.envs j).env_status ≡ env_running
  pub space : (k.envs j).env_pgdir ≡ some k'.cr3
  pub unlocked : k'.kernel_locked ≡ false
  pub others :
      (i : ℕ)
      → i ≢ j
      → (k'.envs i).env_status ≡ (
          if is_env k.curenv i && is_running (k.envs i).env_status
          then env_runnable
          else (k.envs i).env_status)
  pub kept :
      (i : ℕ)
      → i ≢ j
      → (is_env k.curenv i && is_running (k.envs i).env_status) ≡ false
      → k'.envs i ≡ k.envs i
  pub frames : (i : ℕ) → (k'.envs i).env_tf ≡ (k.envs i).env_tf
  pub ids : (i : ℕ) → (k'.envs i).env_id ≡ (k.envs i).env_id
  pub memory : k'.word ≡ k.word

-- Every environment that is runnable or running has an address space.
abbrev pub HasSpace : Kernel → Type 0
HasSpace k =
    (j : ℕ)
    → (is_runnable (k.envs j).env_status || is_running (k.envs j).env_status) ≡ true
    → (pgdir : ℕ) × ((k.envs j).env_pgdir ≡ some pgdir)

pub env_run-IsRunning :
    (j pgdir : ℕ) (k : Kernel)
    → k.kernel_locked ≡ true
    → (k.envs j).env_pgdir ≡ some pgdir
    → (k' : Kernel) × (env_run {A = Unit {0}} j k ≡ left k') × IsRunning j k k'
unfolding env_run
env_run-IsRunning j pgdir k locked space = (
  entered j pgdir (demote k),
  ground arith,
  record {
    current = refl;
    status = ground arith;
    space = space;
    unlocked = refl;
    others = λ i ne. ground arith;
    kept = λ i ne stays. ground arith;
    frames = λ i. ground arith;
    ids = λ i. ground arith;
    memory = ground arith;
  },
)
