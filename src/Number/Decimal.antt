-- ===== src/Number/Decimal.antt =====
-- strtol reads what printnum prints.
use pmake_os.Base.{
  ◌-◌, ℕ, zero, suc, ◌+◌, ◌*◌, ◌/◌, ◌%◌, ◌^◌, ◌≤◌, ◌<◌, ◌≡◌, refl, ap, ◌∙◌, inl, inr, false, some,
  List, [], ◌∷◌, ◌++◌, arith, leb, Bool-cases,
}
use native.Mathlib.Nat.{mod-lt, mod-eq_of_lt}
use native.Mathlib.Omega.{div_any}
use pmake_os.Number.{digit_char, pad, printnum, digit_value, strtol_digits}

digit_value-digit_char : (d : ℕ) → d < 16 → digit_value (digit_char d) ≡ some d
unfolding digit_value digit_char
digit_value-digit_char d h = ground arith

append_assoc : (xs ys zs : List ℕ) → (xs ++ ys) ++ zs ≡ xs ++ (ys ++ zs)
append_assoc [] ys zs = refl
append_assoc (x ∷ xs) ys zs = ap (λ (r : List ℕ). x ∷ r) (append_assoc xs ys zs)

quotient : (num base : ℕ) → num / base * base + num % base ≡ num
quotient num base = omega (arith, div_any num base)

smaller : (q r base num : ℕ) → q * base + r ≡ num → 2 ≤ base → base ≤ num → q < num
smaller zero r base num e two ge = omega arith
smaller (suc q) r base num e two ge = grind arith

step_char :
    (base val c dig : ℕ) (rest : List ℕ)
    → digit_value c ≡ some dig
    → dig < base
    → val * base + dig < 2 ^ 32
    → strtol_digits base val (c ∷ rest) ≡ strtol_digits base (val * base + dig) rest
unfolding strtol_digits
step_char base val c dig rest e lt fits =
    let same : (val * base + dig) % 2 ^ 32 ≡ val * base + dig = omega arith in
    let under : leb base dig ≡ false = ground arith in ground (arith, e, under, same)

step_digit :
    (base val dig : ℕ) (rest : List ℕ)
    → dig < base
    → base ≤ 16
    → val * base + dig < 2 ^ 32
    → strtol_digits base val (digit_char dig ∷ rest) ≡ strtol_digits base (val * base + dig) rest
step_digit base val dig rest lt small fits =
    step_char base val (digit_char dig) dig rest (digit_value-digit_char dig (omega arith)) lt fits

-- printnum ends, for every number, width and base of at least 2.
pub printnum-ends :
    (fuel num base width padc : ℕ)
    → num < fuel
    → 2 ≤ base
    → (cs : List ℕ) × (printnum fuel num base width padc ≡ some cs)
unfolding printnum
printnum-ends zero num base width padc enough two = absurd (omega arith)
printnum-ends (suc fuel) num base width padc enough two = elim (Bool-cases (leb base num)) [
  | inl more ↦
      let back = quotient num base in
      let less : num / base < num =
        smaller (num / base) (num % base) base num back two (ground arith) in
      let (cs, ran) = printnum-ends fuel (num / base) base (width - 1) padc (omega arith) two in
      (cs ++ digit_char (num % base) ∷ [], rw (more, ran) refl)
  | inr last ↦ (pad padc (width - 1) ++ digit_char (num % base) ∷ [], rw last refl)
]

-- printnum of a number below 2^32, in a base from 2 to 16 and without padding, ends within as many calls
-- as the number and one more, and the loop of strtol reads the number back, whatever follows.
pub strtol_digits-printnum :
    (fuel num base padc : ℕ)
    → num < fuel
    → 2 ≤ base
    → base ≤ 16
    → num < 2 ^ 32
    → (cs : List ℕ) × (printnum fuel num base 0 padc ≡ some cs)
      × ((rest : List ℕ) → strtol_digits base 0 (cs ++ rest) ≡ strtol_digits base num rest)
unfolding printnum pad
strtol_digits-printnum zero num base padc enough two small fits = absurd (omega arith)
strtol_digits-printnum (suc fuel) num base padc enough two small fits =
    let digit : num % base < base = mod-lt num (omega arith) in
    let back = quotient num base in
    elim (Bool-cases (leb base num)) [
      | inl more ↦
          let le : base ≤ num = ground arith in
          let less : num / base < num = smaller (num / base) (num % base) base num back two le in
          let (cs, ran, read) =
            strtol_digits-printnum fuel (num / base) base padc (omega arith) two small
              (omega arith) in
          (
            cs ++ digit_char (num % base) ∷ [],
            rw (more, ran) refl,
            λ rest. rw (append_assoc cs (digit_char (num % base) ∷ []) rest) (
                read (digit_char (num % base) ∷ rest)
                ∙ step_digit base (num / base) (num % base) rest digit small (omega arith)
                ∙ ap (λ (v : ℕ). strtol_digits base v rest) back),
          )
      | inr last ↦
          let lt : num < base = ground arith in
          let same : num % base ≡ num = mod-eq_of_lt lt in
          (
            digit_char (num % base) ∷ [],
            rw last refl,
            λ rest.
                let none_before : 0 * base + num ≡ num = omega arith in
                rw same (
                  step_digit base 0 num rest lt small (omega arith)
                  ∙ ap (λ (v : ℕ). strtol_digits base v rest) none_before),
          )
    ]
