-- ===== src/Spin.antt =====
-- kern/spinlock.c and kern/spinlock.h, with DEBUG_SPINLOCK as the header defines it: spin_lock and
-- spin_unlock as the CPUs interleave. Each step is what one CPU does between two accesses to the
-- lock; the stack of callers in `pcs` and the lock's name are not part of the state.
pub mod Exclusion
use pmake_os.Base.{ℕ, Bool, true, false, ◌&&◌, not, Option, none, some, ◌==◌, if◌then◌else◌, update}

-- Where a CPU is: outside of the lock; in the loop of spin_lock; behind the loop, before `cpu` is
-- set; inside, behind spin_lock; in spin_unlock with `cpu` cleared.
pub data Phase : Type 0 where
  outside : Phase
  spinning : Phase
  taken : Phase
  inside : Phase
  leaving : Phase

-- struct spinlock, with the phases of the CPUs.
pub record Spinlock : Type 0 where
  pub locked : Bool
  pub cpu : Option ℕ
  pub phases : ℕ → Phase

unfoldable pub initlock : Spinlock
initlock = record { locked = false; cpu = none; phases = λ c. Phase.outside }

unfoldable pub holding : ℕ → Spinlock → Bool
holding c s = s.locked && elim s.cpu [ none ↦ false | some d ↦ d == c ]

-- spin_lock up to its loop; `none` is the panic.
unfoldable pub spin_lock_enter : ℕ → Spinlock → Option Spinlock
spin_lock_enter c s =
    if holding c s then none else some (record s { phases = update s.phases c Phase.spinning })

-- One xchg of the loop.
unfoldable pub spin_lock_xchg : ℕ → Spinlock → Spinlock
spin_lock_xchg c s = record s {
  locked = true;
  phases = update s.phases c (if s.locked then Phase.spinning else Phase.taken);
}

unfoldable pub spin_lock_record : ℕ → Spinlock → Spinlock
spin_lock_record c s = record s { cpu = some c; phases = update s.phases c Phase.inside }

-- spin_unlock up to its xchg; `none` is the panic.
unfoldable pub spin_unlock_check : ℕ → Spinlock → Option Spinlock
spin_unlock_check c s =
    if not (holding c s)
    then none
    else some (record s { cpu = none; phases = update s.phases c Phase.leaving })

unfoldable pub spin_unlock_xchg : ℕ → Spinlock → Spinlock
spin_unlock_xchg c s = record s { locked = false; phases = update s.phases c Phase.outside }

-- The next step of the CPU c.
unfoldable pub advance : ℕ → Spinlock → Option Spinlock
unfolding spin_lock_enter spin_lock_xchg spin_lock_record spin_unlock_check spin_unlock_xchg
advance c s = elim (s.phases c) [
  | outside ↦ spin_lock_enter c s
  | spinning ↦ some (spin_lock_xchg c s)
  | taken ↦ some (spin_lock_record c s)
  | inside ↦ spin_unlock_check c s
  | leaving ↦ some (spin_unlock_xchg c s)
]
