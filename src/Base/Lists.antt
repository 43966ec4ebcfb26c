-- ===== src/Base/Lists.antt =====
-- Lists measured and indexed by native numbers, under the library's names.
use Prim.Native.Nat.{ℕ, zero, suc, ◌+◌, ◌≤◌}
use mathlib.Core.Path.{◌≡◌, refl, ap}
use pmake_os.Base.Tests.{update}
use mathlib.Core.List.{List, [], ◌∷◌, ◌++◌}
use native.Mathlib.Omega.{arith}

module _ {ℓ} {A : Type ℓ} where
  abbrev pub length : List A → ℕ
  length [] = 0
  length (x ∷ xs) = suc (length xs)

  pub length-append : (xs ys : List A) → length (xs ++ ys) ≡ length xs + length ys
  length-append [] ys = omega arith
  length-append (x ∷ xs) ys = omega (arith, length-append xs ys)

  -- Every element satisfies the predicate.
  abbrev pub All {κ} : (A → Type κ) → List A → Type κ
  All P [] = Unit
  All P (x ∷ xs) = P x × All P xs

-- The n bytes from index i on.
abbrev pub bytes : (ℕ → ℕ) → ℕ → ℕ → List ℕ
bytes m i zero = []
bytes m i (suc n) = m i ∷ bytes m (i + 1) n

pub bytes-snoc :
    (m : ℕ → ℕ) (i n j v : ℕ) → j ≡ i + n → bytes (update m j v) i (suc n) ≡ bytes m i n ++ v ∷ []
bytes-snoc m i zero j v at = ground arith
bytes-snoc m i (suc n) j v at =
    let first : update m j v i ≡ m i = ground arith in
    rw first (ap (λ (r : List ℕ). m i ∷ r) (bytes-snoc m (i + 1) n j v (omega arith)))

pub length-bytes : (m : ℕ → ℕ) (i n : ℕ) → length (bytes m i n) ≡ n
length-bytes m i zero = refl
length-bytes m i (suc n) = omega (arith, length-bytes m (i + 1) n)

-- A store behind the bytes.
pub bytes-update : (m : ℕ → ℕ) (i n j v : ℕ) → i + n ≤ j → bytes (update m j v) i n ≡ bytes m i n
bytes-update m i zero j v behind = refl
bytes-update m i (suc n) j v behind =
    let first : update m j v i ≡ m i = ground arith in
    rw first (ap (λ (r : List ℕ). m i ∷ r) (bytes-update m (i + 1) n j v (omega arith)))
