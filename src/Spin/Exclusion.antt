-- ===== src/Spin/Exclusion.antt =====
-- The lock excludes: at most one CPU is behind the loop of spin_lock, and the tests of holding() do
-- not fail.
use pmake_os.Base.{
  ℕ, ◌≡◌, refl, sym, subst, ap, ◌∙◌, ◌≢◌, ◌⊎◌, inl, inr, Bool, true, false, Option, none, some,
  arith, if◌then◌else◌, update,
}
use mathlib.Core.Bool.{false≢true}
use native.Mathlib.Decide.{ℕ_discrete}
use pmake_os.Spin.{
  Phase, outside, spinning, taken, inside, leaving, Spinlock, initlock, holding, advance,
  spin_lock_enter, spin_lock_xchg, spin_lock_record, spin_unlock_check, spin_unlock_xchg,
}

-- Is the CPU behind the loop of spin_lock, and before the end of spin_unlock?
abbrev pub critical : Phase → Bool
critical Phase.outside = false
critical Phase.spinning = false
critical _ = true

abbrev pub is_inside : Phase → Bool
is_inside Phase.inside = true
is_inside _ = false

-- The states that steps of the CPUs lead to, in any order.
pub data Reachable : Spinlock → Type 0 where
  start : Reachable initlock
  step : {s s' : Spinlock} (c : ℕ) → Reachable s → advance c s ≡ some s' → Reachable s'

-- No CPU has the lock.
record IsOpen (s : Spinlock) : Type 0 where
  unlocked : s.locked ≡ false
  idle : (c : ℕ) → critical (s.phases c) ≡ false
  nobody : s.cpu ≡ none

-- The CPU o has the lock; `cpu` names it while it is inside.
record IsOwned (o : ℕ) (s : Spinlock) : Type 0 where
  locked : s.locked ≡ true
  owner : critical (s.phases o) ≡ true
  others : (c : ℕ) → c ≢ o → critical (s.phases c) ≡ false
  named : s.cpu ≡ (if is_inside (s.phases o) then some o else none)

abbrev Inv : Spinlock → Type 0
Inv s = IsOpen s ⊎ ((o : ℕ) × IsOwned o s)

phase_cases :
    (p : Phase) → (p ≡ outside) ⊎ ((p ≡ spinning) ⊎ ((p ≡ taken) ⊎ ((p ≡ inside) ⊎ (p ≡ leaving))))
phase_cases Phase.outside = inl refl
phase_cases Phase.spinning = inr (inl refl)
phase_cases Phase.taken = inr (inr (inl refl))
phase_cases Phase.inside = inr (inr (inr (inl refl)))
phase_cases Phase.leaving = inr (inr (inr (inr refl)))

-- Where each step leads that does not panic.
advance-Inv-open :
    (c : ℕ) (s : Spinlock) → IsOpen s → (s' : Spinlock) × (advance c s ≡ some s') × Inv s'
unfolding advance holding spin_lock_enter spin_lock_xchg
advance-Inv-open c s a = elim (phase_cases (s.phases c)) [
  | inl e ↦
      let s' : Spinlock = record s { phases = update s.phases c Phase.spinning } in
      (
        s',
        ground arith,
        inl (record {
          unlocked = a.unlocked;
          idle = λ d. ground (arith, a.idle d);
          nobody = a.nobody;
        }),
      )
  | inr (inl e) ↦
      let s' : Spinlock = spin_lock_xchg c s in
      (
        s',
        ground arith,
        inr (
          c,
          record {
            locked = refl;
            owner = ground (arith, a.unlocked);
            others = λ d ne. ground (arith, a.idle d);
            named = ground (arith, a.unlocked, a.nobody);
          },
        ),
      )
  | inr (inr (inl e)) ↦ absurd (ground (arith, a.idle c))
  | inr (inr (inr (inl e))) ↦ absurd (ground (arith, a.idle c))
  | inr (inr (inr (inr e))) ↦ absurd (ground (arith, a.idle c))
]

same_owner : (c : ℕ) (s : Spinlock) (o : ℕ) → IsOwned o s → critical (s.phases c) ≡ true → c ≡ o
same_owner c s o b crit = elim (ℕ_discrete c o) [
  | yes e ↦ e
  | no ne ↦ absurd (false≢true (sym (b.others c ne) ∙ crit))
]

advance-Inv-owned :
    (c o : ℕ) (s : Spinlock) → IsOwned o s → (s' : Spinlock) × (advance c s ≡ some s') × Inv s'
unfolding advance holding spin_lock_enter spin_lock_xchg spin_lock_record spin_unlock_check
    spin_unlock_xchg
advance-Inv-owned c o s b = elim (phase_cases (s.phases c)) [
  | inl e ↦
      let apart : c ≢ o = λ same.
        false≢true (ap critical (sym e) ∙ ap (λ (i : ℕ). critical (s.phases i)) same ∙ b.owner) in
      let s' : Spinlock = record s { phases = update s.phases c Phase.spinning } in
      (
        s',
        ground arith,
        inr (
          o,
          record {
            locked = b.locked;
            owner = ground (arith, b.owner);
            others = λ d ne. ground (arith, b.others d ne);
            named = ground (arith, b.named);
          },
        ),
      )
  | inr (inl e) ↦
      let apart : c ≢ o = λ same.
        false≢true (ap critical (sym e) ∙ ap (λ (i : ℕ). critical (s.phases i)) same ∙ b.owner) in
      (
        spin_lock_xchg c s,
        ground arith,
        inr (
          o,
          record {
            locked = refl;
            owner = ground (arith, b.owner);
            others = λ d ne. ground (arith, b.locked, b.others d ne);
            named = ground (arith, b.named);
          },
        ),
      )
  | inr (inr (inl e)) ↦
      let same : c ≡ o = same_owner c s o b (ap critical e) in
      (
        spin_lock_record c s,
        ground arith,
        inr (
          c,
          record {
            locked = b.locked;
            owner = ground arith;
            others = λ d ne. ground (arith, same, b.others d);
            named = ground arith;
          },
        ),
      )
  | inr (inr (inr (inl e))) ↦
      let same : c ≡ o = same_owner c s o b (ap critical e) in
      let named : s.cpu ≡ some c = ground (arith, same, b.named) in
      let s' : Spinlock = record s { cpu = none; phases = update s.phases c Phase.leaving } in
      (
        s',
        ground (arith, b.locked),
        inr (
          c,
          record {
            locked = b.locked;
            owner = ground arith;
            others = λ d ne. ground (arith, same, b.others d);
            named = ground arith;
          },
        ),
      )
  | inr (inr (inr (inr e))) ↦
      let same : c ≡ o = same_owner c s o b (ap critical e) in
      (
        spin_unlock_xchg c s,
        ground arith,
        inl (record {
          unlocked = refl;
          idle = λ d. ground (arith, same, b.others d);
          nobody = ground (arith, same, b.named);
        }),
      )
]

get_or : Spinlock → Option Spinlock → Spinlock
get_or t none = t
get_or t (some s) = s

advance-Inv : (c : ℕ) (s : Spinlock) → Inv s → (s' : Spinlock) × (advance c s ≡ some s') × Inv s'
advance-Inv c s (inl a) = advance-Inv-open c s a
advance-Inv c s (inr (o, b)) = advance-Inv-owned c o s b

Reachable-Inv : (s : Spinlock) → Reachable s → Inv s
unfolding initlock get_or
Reachable-Inv _ start = inl (record { unlocked = refl; idle = λ c. refl; nobody = refl })
Reachable-Inv s' (step {s} c r ran) =
    let (t, ran', inv) = advance-Inv c s (Reachable-Inv s r) in
    let same : t ≡ s' = ap (get_or t) (sym ran' ∙ ran) in subst Inv same inv

-- In no state that steps of the CPUs lead to are two CPUs behind the loop of spin_lock and before the end
-- of spin_unlock.
pub spin_lock-excludes :
    (s : Spinlock) (c d : ℕ)
    → Reachable s
    → critical (s.phases c) ≡ true
    → critical (s.phases d) ≡ true
    → c ≡ d
spin_lock-excludes s c d r cc cd = elim (Reachable-Inv s r) [
  | inl a ↦ absurd (false≢true (sym (a.idle c) ∙ cc))
  | inr (o, b) ↦ same_owner c s o b cc ∙ sym (same_owner d s o b cd)
]

-- In each state that steps of the CPUs lead to, the next step of every CPU is one that does not panic: neither does
-- spin_lock find that the CPU holds the lock already, nor spin_unlock that it does not hold it.
pub advance-total :
    (s : Spinlock) (c : ℕ) → Reachable s → (s' : Spinlock) × (advance c s ≡ some s') × Reachable s'
advance-total s c r =
    let (s', ran, _) = advance-Inv c s (Reachable-Inv s r) in (s', ran, step c r ran)
