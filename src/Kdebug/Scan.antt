-- ===== src/Kdebug/Scan.antt =====
-- The two loops of stab_binsearch that pass over stabs of other types.
use pmake_os.Base.{
  ℕ, zero, suc, ◌+◌, ◌≤◌, ◌<◌, ◌≡◌, refl, ◌≢◌, ◌⊎◌, inl, inr, true, false, none, some, arith, ltb,
  ◌==◌, Bool-cases,
}
use native.Mathlib.Decide.{ℕ_discrete}
use pmake_os.Kdebug.{Stab, find_back, rightmost}

-- find_back finds the last stab of the type.
pub find_back-last :
    (stabs : ℕ → Stab) (type l n m : ℕ)
    → find_back stabs type l n ≡ some m
    → (l ≤ m)
      × (m < l + n)
      × ((stabs m).n_type ≡ type)
      × ((i : ℕ) → m < i → i < l + n → (stabs i).n_type ≢ type)
unfolding find_back
find_back-last stabs type l zero m e = ground arith
find_back-last stabs type l (suc n) m e = elim (ℕ_discrete (stabs (l + n)).n_type type) [
  | yes here ↦
      let at : m ≡ l + n = ground arith in
      (omega arith, omega arith, rw at here, λ i a b. absurd (omega arith))
  | no away ↦
      let (a, b, c, d) = find_back-last stabs type l n m (ground arith) in
      (
        a,
        omega arith,
        c,
        λ i lo hi. elim (ℕ_discrete i (l + n)) [
          | yes e' ↦ rw e' away
          | no ne ↦ d i lo (omega arith)
        ],
      )
]

pub find_back-none :
    (stabs : ℕ → Stab) (type l n : ℕ)
    → find_back stabs type l n ≡ none
    → (i : ℕ) → l ≤ i
    → i < l + n
    → (stabs i).n_type ≢ type
unfolding find_back
find_back-none stabs type l zero e i lo hi = absurd (omega arith)
find_back-none stabs type l (suc n) e i lo hi = elim (ℕ_discrete (stabs (l + n)).n_type type) [
  | yes here ↦ absurd (ground arith)
  | no away ↦ elim (ℕ_discrete i (l + n)) [
    | yes e' ↦ rw e' away
    | no ne ↦ find_back-none stabs type l n (ground arith) i lo (omega arith)
  ]
]

-- The loop at the end stops behind a stab of the type, or at `left1`, or where it starts.
pub rightmost-last :
    (stabs : ℕ → Stab) (type left1 n : ℕ)
    → let r = rightmost stabs type left1 n in
      (r ≤ n)
      × ((n ≤ r) ⊎ (left1 ≤ r))
      × ((r ≤ left1) ⊎ ((j : ℕ) × (r ≡ suc j) × ((stabs j).n_type ≡ type)))
      × ((i : ℕ) → r ≤ i → i < n → (stabs i).n_type ≢ type)
unfolding rightmost
rightmost-last stabs type left1 zero =
    (omega arith, inl (omega arith), inl (omega arith), λ i lo hi. absurd (omega arith))
rightmost-last stabs type left1 (suc n) = elim (Bool-cases (ltb left1 (suc n))) [
  | inl lt ↦ elim (ℕ_discrete (stabs n).n_type type) [
    | yes here ↦
        let same : ((stabs n).n_type == type) ≡ true = ground arith in
        rw (lt, same)
          (omega arith, inl (omega arith), inr (n, refl, here), λ i lo hi. absurd (omega arith))
    | no away ↦
        let other : ((stabs n).n_type == type) ≡ false = ground arith in
        let (x, y, z, w) = rightmost-last stabs type left1 n in
        rw (lt, other)
          (
            omega (arith, x),
            elim y [ inl q ↦ inr (ground (arith, x, q)) | inr q ↦ inr q ],
            z,
            λ i lo hi. elim (ℕ_discrete i n) [ yes e ↦ rw e away | no ne ↦ w i lo (omega arith) ],
          )
  ]
  | inr ge ↦
      rw ge (omega arith, inl (omega arith), inl (ground arith), λ i lo hi. absurd (omega arith))
]
