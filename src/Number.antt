-- ===== src/Number.antt =====
-- strtol of lib/string.c and printnum of lib/printfmt.c. A string is the list of its bytes before the
-- byte 0; a read behind its end finds the byte 0.
pub mod Decimal
use pmake_os.Base.{
  ℕ, zero, suc, ◌+◌, ◌-◌, ◌*◌, ◌/◌, ◌%◌, ◌^◌, Bool, true, false, ◌&&◌, ◌||◌, not, Option, none,
  some, List, [], ◌∷◌, ◌++◌, ltb, leb, ◌==◌, if◌then◌else◌,
}
use pmake_os.Mmu.{u32}

-- "0123456789abcdef"[d], for d below 16.
unfoldable pub digit_char : ℕ → ℕ
digit_char d = if ltb d 10 then 48 + d else 87 + d

-- n times the character.
unfoldable pub pad : ℕ → ℕ → List ℕ
pad padc zero = []
pad padc (suc n) = padc ∷ pad padc n

-- The characters that printnum puts, on fuel for its recursion; none where the fuel is too little. A
-- width below 1 pads nothing, so that the width may stop at 0.
unfoldable pub printnum : ℕ → ℕ → ℕ → ℕ → ℕ → Option (List ℕ)
printnum zero num base width padc = none
printnum (suc fuel) num base width padc =
    let rest = printnum fuel (num / base) base (width - 1) padc in
    let last = digit_char (num % base) in
    if leb base num
    then elim rest [ none ↦ none | some cs ↦ some (cs ++ last ∷ []) ]
    else some (pad padc (width - 1) ++ last ∷ [])

-- The value of a digit or letter, and none for another byte.
unfoldable pub digit_value : ℕ → Option ℕ
digit_value c =
    if leb 48 c && leb c 57
    then some (c - 48)
    else if leb 97 c && leb c 122
    then some (c - 97 + 10)
    else if leb 65 c && leb c 90
    then some (c - 65 + 10)
    else none

-- The loop over the digits: the value, as a 32-bit pattern, and the rest of the string.
unfoldable pub strtol_digits : ℕ → ℕ → List ℕ → ℕ × List ℕ
strtol_digits base val [] = (val, [])
strtol_digits base val (c ∷ cs) = elim (digit_value c) [
  | none ↦ (val, c ∷ cs)
  | some dig ↦
      if leb base dig then (val, c ∷ cs) else strtol_digits base (u32 (val * base + dig)) cs
]

unfoldable pub skip_blanks : List ℕ → List ℕ
skip_blanks [] = []
skip_blanks (c ∷ cs) = if c == 32 || c == 9 then skip_blanks cs else c ∷ cs

-- A sign: is it a minus, and the string behind it.
unfoldable pub take_sign : List ℕ → Bool × List ℕ
take_sign [] = (false, [])
take_sign (c ∷ cs) =
    if c == 43 then (false, cs) else if c == 45 then (true, cs) else (false, c ∷ cs)

abbrev pub starts_hex : List ℕ → Bool
starts_hex (c ∷ d ∷ cs) = c == 48 && d == 120
starts_hex _ = false

abbrev pub starts_zero : List ℕ → Bool
starts_zero (c ∷ cs) = c == 48
starts_zero [] = false

abbrev pub tail : List ℕ → List ℕ
tail [] = []
tail (c ∷ cs) = cs

-- The base, and the string behind its prefix. Base 0 leaves the choice to the prefix.
unfoldable pub take_base : ℕ → List ℕ → ℕ × List ℕ
take_base base s =
    if (base == 0 || base == 16) && starts_hex s
    then (16, tail (tail s))
    else if base == 0 && starts_zero s
    then (8, tail s)
    else if base == 0
    then (10, s)
    else (base, s)

-- The value, as a 32-bit pattern, and the string that `*endptr` points to.
unfoldable pub strtol : List ℕ → ℕ → ℕ × List ℕ
strtol s base =
    let (neg, s1) = take_sign (skip_blanks s) in
    let (b, s2) = take_base base s1 in
    let (val, s3) = strtol_digits b 0 s2 in (if neg then u32 (2 ^ 32 - val) else val, s3)
