-- ===== src/Sched/Robin.antt =====
-- sched_yield takes the first runnable environment in circular order, so that no runnable
-- environment is passed over for ever.
use pmake_os.Base.{
  ℕ, zero, suc, ◌+◌, ◌-◌, ◌%◌, ◌≤◌, ◌<◌, ◌≡◌, refl, ap, ◌∙◌, ◌≢◌, ◌⊎◌, inl, inr, Bool, true, false,
  none, some, sym, arith, Bool-cases, Option-cases,
}
use mathlib.Core.Bool.{false≢true}
use native.Mathlib.Decide.{ℕ_discrete, dec_lt}
use pmake_os.Kernel.{is_runnable, is_running, cpu_halted, Kernel}
use pmake_os.Kernel.Run.{left, in_monitor}
use pmake_os.Env.{nenv, envx, env_run}
use pmake_os.Sched.{some_live, sched_halt, run_again, sched_loop, start_of, sched_yield}
use pmake_os.Sched.Run.{IsRunning, HasSpace, env_run-IsRunning}

-- How far `j` lies behind `start` in circular order.
abbrev pub distance : ℕ → ℕ → ℕ
distance start j = (j + 1024 - start) % 1024

module _ (k : Kernel) (start : ℕ) where
  abbrev runs_at : ℕ → Bool
  runs_at d = is_runnable (k.envs ((start + d) % nenv)).env_status

  past : (i d : ℕ) → i ≤ d → runs_at i ≡ false → runs_at d ≡ true → suc i ≤ d
  past i d lo stopped r = elim (ℕ_discrete i d) [
    | yes e ↦ absurd (false≢true (sym stopped ∙ ap runs_at e ∙ r))
    | no ne ↦ omega arith
  ]

  from_here :
      (i c : ℕ)
      → runs_at i ≡ false
      → ((b : ℕ) → i + 1 ≤ b → b < c → runs_at b ≡ false)
      → (b : ℕ) → i ≤ b
      → b < c
      → runs_at b ≡ false
  from_here i c stopped before b lb hb = elim (ℕ_discrete b i) [
    | yes e ↦ ap runs_at e ∙ stopped
    | no ne ↦ before b (omega arith) hb
  ]

  -- The loop stops at the first runnable environment behind `start`.
  sched_loop-first :
      (n i d : ℕ)
      → i ≤ d
      → d < i + n
      → runs_at d ≡ true
      → (c : ℕ) × (i ≤ c)
        × (c ≤ d)
        × (runs_at c ≡ true)
        × ((b : ℕ) → i ≤ b → b < c → runs_at b ≡ false)
        × (sched_loop n start i k ≡ env_run ((start + c) % nenv) k)
  unfolding sched_loop
  sched_loop-first zero i d lo hi r = absurd (omega arith)
  sched_loop-first (suc n) i d lo hi r = elim (Bool-cases (runs_at i)) [
    | inl here ↦ (i, omega arith, lo, here, λ b lb hb. absurd (omega arith), rw here refl)
    | inr later ↦
        let beyond : suc i ≤ d = past i d lo later r in
        let next : i + 1 ≡ suc i = omega arith in
        let (c, lc, hc, rc, before, ran) =
          sched_loop-first n (i + 1) d (omega arith) (omega arith) r in
        (c, omega arith, hc, rc, from_here i c later before, rw later ran)
  ]

start_of-le : (k : Kernel) → start_of k ≤ 1024
unfolding envx
start_of-le k = ground arith

at_distance : (s w : ℕ) → s ≤ 1024 → w < 1024 → (s + distance s w) % 1024 ≡ w
at_distance s w hs hw = omega arith

distance_of : (s c : ℕ) → s ≤ 1024 → c < 1024 → distance s ((s + c) % 1024) ≡ c
distance_of s c hs hc = omega arith

no_closer :
    (k : Kernel) (s c b : ℕ)
    → s ≤ 1024
    → c < 1024
    → b < nenv
    → ((d : ℕ) → 0 ≤ d → d < c → runs_at k s d ≡ false)
    → is_runnable (k.envs b).env_status ≡ true
    → distance s ((s + c) % nenv) ≤ distance s b
no_closer k s c b hs hc hb before rb = elim (dec_lt (distance s b) c) [
  | yes closer ↦ absurd (
      false≢true (sym (before (distance s b) (omega arith) closer) ∙ rw (at_distance s b hs hb) rb))
  | no far ↦ rw (distance_of s c hs hc) (omega arith)
]

-- With an environment of the array runnable, sched_yield enters the one that comes first in circular
-- order behind the environment that ran last. This CPU holds the kernel's lock, and what can run
-- has an address space.
pub sched_yield-first :
    (k : Kernel) (w : ℕ)
    → k.kernel_locked ≡ true
    → HasSpace k
    → w < nenv
    → is_runnable (k.envs w).env_status ≡ true
    → (j : ℕ) × (k' : Kernel) × (sched_yield k ≡ left k')
      × IsRunning j k k'
      × (j < nenv)
      × (is_runnable (k.envs j).env_status ≡ true)
      × ((b : ℕ)
          → b < nenv
          → is_runnable (k.envs b).env_status ≡ true
          → distance (start_of k) j ≤ distance (start_of k) b)
unfolding sched_yield
sched_yield-first k w locked space hw rw_ =
    let s = start_of k in
    let hs = start_of-le k in
    let (c, _, hc, rc, before, ran) =
      sched_loop-first k s nenv 0 (distance s w) (omega arith) (omega arith)
        (rw (at_distance s w hs hw) rw_) in
    let (pgdir, own) = space ((s + c) % nenv) (rw rc refl) in
    let (k', entered_it, is) = env_run-IsRunning ((s + c) % nenv) pgdir k locked own in
    (
      (s + c) % nenv,
      k',
      ran ∙ entered_it,
      is,
      omega arith,
      rc,
      λ b hb rb. no_closer k s c b hs (omega arith) hb before rb,
    )

closer :
    (s j w : ℕ)
    → s ≤ 1024
    → j < 1024
    → w < 1024
    → w ≢ j
    → distance s j ≤ distance s w
    → distance (j + 1) w < distance s w
closer s j w hs hj hw ne le = omega arith

start_after :
    (j : ℕ) (k k' : Kernel) → IsRunning j k k' → envx (k.envs j).env_id ≡ j → start_of k' ≡ j + 1
start_after j k k' is slot_of = ground (arith, is.current, is.ids j)

-- Bounded waiting: when sched_yield enters another environment than the runnable `w`, then `w` is
-- runnable still, and it is closer to its turn at the next call. The identifier of each runnable
-- environment names its slot, this CPU holds the kernel's lock, and what can run has an address
-- space.
pub sched_yield-progress :
    (k : Kernel) (w : ℕ)
    → k.kernel_locked ≡ true
    → HasSpace k
    → ((i : ℕ) → i < nenv → is_runnable (k.envs i).env_status ≡ true → envx (k.envs i).env_id ≡ i)
    → w < nenv
    → is_runnable (k.envs w).env_status ≡ true
    → (k' : Kernel) × (sched_yield k ≡ left k')
      × ((k'.curenv ≡ some w)
          ⊎ ((is_runnable (k'.envs w).env_status ≡ true)
              × (distance (start_of k') w < distance (start_of k) w)))
sched_yield-progress k w locked space slots hw rw_ =
    let (j, k', ran, is, hj, rj, first) = sched_yield-first k w locked space hw rw_ in
    (
      k',
      ran,
      elim (ℕ_discrete w j) [
        | yes e ↦ inl (is.current ∙ ap some (sym e))
        | no ne ↦ inr (
          ground (arith, is.others w),
          rw (start_after j k k' is (slots j hj rj))
              (closer (start_of k) j w (start_of-le k) hj hw ne (first w hw rw_)),
        )
      ],
    )

-- Does the current environment run?
abbrev pub runs_here : Kernel → Bool
runs_here k = elim k.curenv [ none ↦ false | some c ↦ is_running (k.envs c).env_status ]

sched_loop-idle :
    (k : Kernel) (start n i : ℕ)
    → ((b : ℕ) → b < nenv → is_runnable (k.envs b).env_status ≡ false)
    → sched_loop n start i k ≡ run_again k
unfolding sched_loop
sched_loop-idle k start zero i idle = refl
sched_loop-idle k start (suc n) i idle =
    rw (idle ((start + i) % nenv) (omega arith)) (sched_loop-idle k start n (i + 1) idle)

run_again-IsRunning :
    (k : Kernel)
    → k.kernel_locked ≡ true
    → HasSpace k
    → runs_here k ≡ true
    → (c : ℕ) × (k' : Kernel) × (k.curenv ≡ some c) × (run_again k ≡ left k') × IsRunning c k k'
unfolding run_again
run_again-IsRunning k locked space here = elim (Option-cases k.curenv) [
  | inl idle ↦ absurd (ground arith)
  | inr (c, e) ↦
      let runs : is_running (k.envs c).env_status ≡ true = ground arith in
      let (pgdir, own) = space c (ground arith) in
      let (k', ran, is) = env_run-IsRunning c pgdir k locked own in
      (c, k', e, ground (arith, ran), is)
]

-- Without a runnable environment sched_yield goes on with the one that runs on this CPU; without
-- that it halts the CPU, with no current environment and the lock released, if an environment runs
-- on another CPU or is dying there; and otherwise it stays in the monitor.
pub sched_yield-idle :
    (k : Kernel)
    → k.kernel_locked ≡ true
    → HasSpace k
    → ((b : ℕ) → b < nenv → is_runnable (k.envs b).env_status ≡ false)
    → (runs_here k ≡ true
        → (c : ℕ) × (k' : Kernel) × (k.curenv ≡ some c)
          × (sched_yield k ≡ left k')
          × IsRunning c k k')
      × (runs_here k ≡ false
          → some_live nenv k.envs ≡ true
          → sched_yield k
            ≡ left (record k {
              curenv = none;
              cr3 = k.kern_pgdir;
              cpu_status = cpu_halted;
              kernel_locked = false;
            }))
      × (runs_here k ≡ false → some_live nenv k.envs ≡ false → sched_yield k ≡ in_monitor k)
unfolding sched_yield run_again sched_halt
sched_yield-idle k locked space idle =
    rw (sched_loop-idle k (start_of k) nenv 0 idle)
      (run_again-IsRunning k locked space, λ here live. ground arith, λ here dead. ground arith)
