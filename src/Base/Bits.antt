-- ===== src/Base/Bits.antt =====
-- Laws of `bit_and` and `bit_or` at variables: one binary digit at a time, and then k of them.
use Prim.Native.Nat.{
  ℕ, zero, suc, ◌+◌, ◌-◌, ◌*◌, ◌/◌, ◌%◌, ◌^◌, ◌≤◌, ◌<◌, min, max, bit_and, bit_or, digits,
  bit_and-bitwise, bit_or-bitwise,
}
use mathlib.Core.Path.{◌≡◌, refl, ◌∙◌, ap, ap₂, sym}
use native.Mathlib.Nat.{pow-suc}
use native.Mathlib.Omega.{arith}

-- The digit-wise operations of the native numbers, over the operation `f` on two digits.
module _ (z : ℕ → ℕ) (f : ℕ → ℕ → ℕ) (ends : (b : ℕ) → z (b / 2) * 2 + f 0 (b % 2) ≡ z b) where
  -- Fuel beyond the number itself changes nothing.
  spare_fuel :
      (number other fuel spare : ℕ)
      → number ≤ fuel
      → digits z f (fuel + spare) number other ≡ digits z f fuel number other
  spare_fuel number other fuel zero enough = let e : fuel + 0 ≡ fuel = omega arith in rw e refl
  spare_fuel zero other zero (suc spare) enough =
      let e : 0 + suc spare ≡ suc spare = omega arith in rw e refl
  spare_fuel (suc number) other zero (suc spare) enough = absurd (omega arith)
  spare_fuel zero other (suc fuel) (suc spare) enough =
      let e : suc fuel + suc spare ≡ suc (fuel + suc spare) = omega arith in rw e refl
  spare_fuel (suc number) other (suc fuel) (suc spare) enough =
      let e : suc fuel + suc spare ≡ suc (fuel + suc spare) = omega arith in
      let half = suc number / 2 in
      rw e (
        ap (λ (t : ℕ). t * 2 + f (suc number % 2) (other % 2))
          (spare_fuel half (other / 2) fuel (suc spare) (omega arith)))

  exact_fuel :
      (number other fuel : ℕ)
      → number ≤ fuel
      → digits z f fuel number other ≡ digits z f number number other
  exact_fuel number other fuel enough =
      let e : number + (fuel - number) ≡ fuel = omega arith in
      rw e at (spare_fuel number other number (fuel - number) (omega arith))

  digits_step :
      (a b : ℕ) → digits z f a a b ≡ digits z f (a / 2) (a / 2) (b / 2) * 2 + f (a % 2) (b % 2)
  digits_step zero b = sym (ends b)
  digits_step (suc a) b =
      ap (λ (t : ℕ). t * 2 + f (suc a % 2) (b % 2)) (exact_fuel (suc a / 2) (b / 2) a (omega arith))

pub bit_or_step : (a b : ℕ) → bit_or a b ≡ bit_or (a / 2) (b / 2) * 2 + max (a % 2) (b % 2)
bit_or_step a b =
    let law : (c : ℕ) → c / 2 * 2 + max 0 (c % 2) ≡ c = λ c. omega arith in
    bit_or-bitwise a b
    ∙ digits_step (λ c. c) max law a b
    ∙ ap (λ (t : ℕ). t * 2 + max (a % 2) (b % 2)) (sym (bit_or-bitwise (a / 2) (b / 2)))

pub bit_and_step : (a b : ℕ) → bit_and a b ≡ bit_and (a / 2) (b / 2) * 2 + min (a % 2) (b % 2)
bit_and_step a b =
    let law : (c : ℕ) → 0 * 2 + min 0 (c % 2) ≡ 0 = λ c. omega arith in
    bit_and-bitwise a b
    ∙ digits_step (λ c. 0) min law a b
    ∙ ap (λ (t : ℕ). t * 2 + min (a % 2) (b % 2)) (sym (bit_and-bitwise (a / 2) (b / 2)))

-- Shifting right goes under the operation.
pub bit_or-half : (a b : ℕ) → bit_or a b / 2 ≡ bit_or (a / 2) (b / 2)
bit_or-half a b = omega (arith, bit_or_step a b)

pub bit_and-half : (a b : ℕ) → bit_and a b / 2 ≡ bit_and (a / 2) (b / 2)
bit_and-half a b = omega (arith, bit_and_step a b)

pub bit_or-low : (a b : ℕ) → bit_or a b % 2 ≡ max (a % 2) (b % 2)
bit_or-low a b = omega (arith, bit_or_step a b)

pub bit_and-low : (a b : ℕ) → bit_and a b % 2 ≡ min (a % 2) (b % 2)
bit_and-low a b = omega (arith, bit_and_step a b)

pub bit_or-zero : (a : ℕ) → bit_or a 0 ≡ a
bit_or-zero a = go a a (omega arith)
  where
    go : (n a : ℕ) → a ≤ n → bit_or a 0 ≡ a
    go n zero h = refl
    go zero (suc a) h = absurd (omega arith)
    go (suc n) (suc a) h = omega (arith, bit_or_step (suc a) 0, go n (suc a / 2) (omega arith))

-- A shift to the right by k places, one at a time.
halve : ℕ → ℕ → ℕ
halve zero a = a
halve (suc k) a = halve k (a / 2)

halve-bit_or : (k a b : ℕ) → halve k (bit_or a b) ≡ bit_or (halve k a) (halve k b)
unfolding halve
halve-bit_or zero a b = refl
halve-bit_or (suc k) a b = rw (bit_or-half a b) (halve-bit_or k (a / 2) (b / 2))

halve-bit_and : (k a b : ℕ) → halve k (bit_and a b) ≡ bit_and (halve k a) (halve k b)
unfolding halve
halve-bit_and zero a b = refl
halve-bit_and (suc k) a b = rw (bit_and-half a b) (halve-bit_and k (a / 2) (b / 2))

halve-page : (a : ℕ) → halve 12 a ≡ a / 4096
unfolding halve
halve-page a = omega arith

-- The part of a word above the offset in a page.
pub bit_or-page : (a b : ℕ) → bit_or a b / 4096 ≡ bit_or (a / 4096) (b / 4096)
bit_or-page a b = cc (halve-bit_or 12 a b, halve-page a, halve-page b, halve-page (bit_or a b))

pub bit_and-page : (a b : ℕ) → bit_and a b / 4096 ≡ bit_and (a / 4096) (b / 4096)
bit_and-page a b = cc (halve-bit_and 12 a b, halve-page a, halve-page b, halve-page (bit_and a b))

-- The second and the third digit.
pub bit_or-writable : (a b : ℕ) → bit_or a b / 2 % 2 ≡ max (a / 2 % 2) (b / 2 % 2)
bit_or-writable a b = omega (arith, bit_or-half a b, bit_or-low (a / 2) (b / 2))

pub bit_or-user : (a b : ℕ) → bit_or a b / 4 % 2 ≡ max (a / 4 % 2) (b / 4 % 2)
bit_or-user a b =
    omega (arith, bit_or-half a b, bit_or-half (a / 2) (b / 2), bit_or-low (a / 2 / 2) (b / 2 / 2))

bit_and-zero : (a : ℕ) → bit_and a 0 ≡ 0
bit_and-zero a = go a a (omega arith)
  where
    go : (n a : ℕ) → a ≤ n → bit_and a 0 ≡ 0
    go n zero h = refl
    go zero (suc a) h = absurd (omega arith)
    go (suc n) (suc a) h = omega (arith, bit_and_step (suc a) 0, go n (suc a / 2) (omega arith))

-- The flag masks 1, 2 and 4 select one digit.
pub bit_and-one : (a : ℕ) → bit_and a 1 ≡ a % 2
bit_and-one a = omega (arith, bit_and_step a 1, bit_and-zero (a / 2))

pub bit_and-two : (a : ℕ) → bit_and a 2 ≡ a / 2 % 2 * 2
bit_and-two a = omega (arith, bit_and_step a 2, bit_and-one (a / 2))

pub bit_and-four : (a : ℕ) → bit_and a 4 ≡ a / 4 % 2 * 4
bit_and-four a = omega (arith, bit_and_step a 4, bit_and-two (a / 2))

halve-bit11 : (a : ℕ) → halve 11 a ≡ a / 2048
unfolding halve
halve-bit11 a = omega arith

-- The twelfth digit.
pub bit_and-bit11 : (a : ℕ) → bit_and a 2048 / 2048 ≡ a / 2048 % 2
bit_and-bit11 a =
    sym (halve-bit11 (bit_and a 2048))
    ∙ halve-bit_and 11 a 2048
    ∙ ap₂ bit_and (halve-bit11 a) (halve-bit11 2048)
    ∙ bit_and-one (a / 2048)

half-pow : (k a : ℕ) → (a * 2 ^ suc k / 2 ≡ a * 2 ^ k) × (a * 2 ^ suc k % 2 ≡ 0)
half-pow k a = rw (pow-suc 2 k) (omega arith)

-- A number above k zero digits, and one of k digits: the digits do not meet.
pub bit_or-disjoint : (k a b : ℕ) → b < 2 ^ k → bit_or (a * 2 ^ k) b ≡ a * 2 ^ k + b
bit_or-disjoint zero a b h =
    let none_left : b ≡ 0 = omega arith in rw none_left (bit_or-zero (a * 1) ∙ omega arith)
bit_or-disjoint (suc k) a b h =
    let halves = half-pow k a in
    bit_or_step (a * 2 ^ suc k) b
    ∙ rw halves.0 (
        omega (
          arith,
          halves.1,
          halves.0,
          pow-suc 2 k,
          bit_or-disjoint k a (b / 2) (omega (arith, pow-suc 2 k)),
        ))
