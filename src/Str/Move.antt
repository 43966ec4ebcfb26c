-- ===== src/Str/Move.antt =====
-- memset and memmove of lib/string.c, for every alignment and every overlap.
use pmake_os.Base.{
  ℕ, zero, suc, ◌+◌, ◌-◌, ◌*◌, ◌/◌, ◌%◌, ◌^◌, ◌≤◌, ◌<◌, ◌≡◌, refl, ap, ◌∙◌, ◌⊎◌, inl, inr, ◌&&◌,
  arith, bit_or, ltb, ◌==◌, Bool-cases, update,
}
use native.Mathlib.Decide.{dec_lt}
use pmake_os.Base.Bits.{bit_or-disjoint}
use pmake_os.Str.{
  Memory, rep_stosb, store_word, rep_stosl, repeat_byte, memset, rep_movsb, move_word, rep_movsl,
  rep_movsb_down, rep_movsl_down, memmove,
}

-- The memory m' is m with the n bytes from `d` on replaced by `new`, a function of their addresses.
abbrev pub Replaced : ℕ → ℕ → (ℕ → ℕ) → Memory → Memory → Type 0
Replaced d n new m m' =
    ((a : ℕ) → d ≤ a → a < d + n → m' a ≡ new a) × ((a : ℕ) → (a < d) ⊎ (d + n ≤ a) → m' a ≡ m a)

-- A block of `w` bytes is moved, and then the `n` bytes above it.
Replaced-up :
    (d s w n : ℕ) (m m1 m' : Memory)
    → (d ≤ s) ⊎ (s + (w + n) ≤ d)
    → Replaced d w (λ a. m (a + s - d)) m m1
    → Replaced (d + w) n (λ a. m1 (a + (s + w) - (d + w))) m1 m'
    → Replaced d (w + n) (λ a. m (a + s - d)) m m'
Replaced-up d s w n m m1 m' apart first r = (
  λ a lo hi. elim (dec_lt a (d + w)) [
    | yes lt ↦ r.1 a (inl lt) ∙ first.0 a lo lt
    | no ge ↦
        let same : a + (s + w) - (d + w) ≡ a + s - d = omega arith in
        r.0 a (omega arith) (omega arith)
        ∙ ap m1 same
        ∙ first.1 (a + s - d)
            (elim apart [ inl le ↦ inr (omega arith) | inr le ↦ inl (omega arith) ])
  ],
  λ a out. elim out [
    | inl lt ↦ r.1 a (inl (omega arith)) ∙ first.1 a (inl lt)
    | inr ge ↦ r.1 a (inr (omega arith)) ∙ first.1 a (inr (omega arith))
  ],
)

-- A block of `w` bytes is moved, and then the `n` bytes below it.
Replaced-down :
    (d s w n : ℕ) (m m1 m' : Memory)
    → s ≤ d
    → Replaced (d + n) w (λ a. m (a + s - d)) m m1
    → Replaced d n (λ a. m1 (a + s - d)) m1 m'
    → Replaced d (n + w) (λ a. m (a + s - d)) m m'
Replaced-down d s w n m m1 m' le first r = (
  λ a lo hi. elim (dec_lt a (d + n)) [
    | yes lt ↦ r.0 a lo lt ∙ first.1 (a + s - d) (inl (omega arith))
    | no ge ↦ r.1 a (inr (omega arith)) ∙ first.0 a (omega arith) (omega arith)
  ],
  λ a out. elim out [
    | inl lt ↦ r.1 a (inl lt) ∙ first.1 a (inl (omega arith))
    | inr ge ↦ r.1 a (inr (omega arith)) ∙ first.1 a (inr (omega arith))
  ],
)

one_byte : (d s : ℕ) (m : Memory) → Replaced d 1 (λ a. m (a + s - d)) m (update m d (m s))
one_byte d s m = (
  λ a lo hi. let e : a ≡ d = omega arith in let f : a + s - d ≡ s = omega arith in ground arith,
  λ a out. ground arith,
)

quarter : (a d : ℕ) → d ≤ a → a < d + 4 → (a ≡ d) ⊎ ((a ≡ d + 1) ⊎ ((a ≡ d + 2) ⊎ (a ≡ d + 3)))
quarter a d lo hi = ground arith

one_word : (d s : ℕ) (m : Memory) → Replaced d 4 (λ a. m (a + s - d)) m (move_word d s m)
unfolding move_word
one_word d s m = (
  λ a lo hi. elim (quarter a d lo hi) [
    | inl e ↦ let f : a + s - d ≡ s = omega arith in ground arith
    | inr (inl e) ↦ let f : a + s - d ≡ s + 1 = omega arith in ground arith
    | inr (inr (inl e)) ↦ let f : a + s - d ≡ s + 2 = omega arith in ground arith
    | inr (inr (inr e)) ↦ let f : a + s - d ≡ s + 3 = omega arith in ground arith
  ],
  λ a out. ground arith,
)

-- The bytes come from the same place when both pointers moved by the same distance.
Replaced-shift :
    (d1 s1 d s w : ℕ) (m m1 : Memory)
    → d1 + s ≡ d + s1
    → s ≤ d
    → Replaced d1 w (λ a. m (a + s1 - d1)) m m1
    → d ≤ d1
    → Replaced d1 w (λ a. m (a + s - d)) m m1
Replaced-shift d1 s1 d s w m m1 same le r above = (λ a lo hi. r.0 a lo hi ∙ ap m (omega arith), r.1)

nothing : (d : ℕ) (new : ℕ → ℕ) (m : Memory) → Replaced d 0 new m m
nothing d new m = (λ a lo hi. absurd (omega arith), λ a out. refl)

rep_movsb_lem :
    (n d s : ℕ) (m : Memory)
    → (d ≤ s) ⊎ (s + n ≤ d)
    → Replaced d n (λ a. m (a + s - d)) m (rep_movsb n d s m)
unfolding rep_movsb
rep_movsb_lem zero d s m apart = nothing d (λ a. m (a + s - d)) m
rep_movsb_lem (suc n) d s m apart =
    let m1 = update m d (m s) in
    let size : suc n ≡ 1 + n = omega arith in
    rw size (
      Replaced-up d s 1 n m m1 (rep_movsb n (d + 1) (s + 1) m1) (ground arith) (one_byte d s m)
        (rep_movsb_lem n (d + 1) (s + 1) m1 (ground arith)))

rep_movsl_lem :
    (n d s : ℕ) (m : Memory)
    → (d ≤ s) ⊎ (s + 4 * n ≤ d)
    → Replaced d (4 * n) (λ a. m (a + s - d)) m (rep_movsl n d s m)
unfolding rep_movsl
rep_movsl_lem zero d s m apart = nothing d (λ a. m (a + s - d)) m
rep_movsl_lem (suc n) d s m apart =
    let m1 = move_word d s m in
    let size : 4 * suc n ≡ 4 + 4 * n = omega arith in
    rw size (
      Replaced-up d s 4 (4 * n) m m1 (rep_movsl n (d + 4) (s + 4) m1) (ground arith)
        (one_word d s m) (rep_movsl_lem n (d + 4) (s + 4) m1 (ground arith)))

rep_movsb_down_lem :
    (n d s : ℕ) (m : Memory)
    → s ≤ d
    → Replaced d n (λ a. m (a + s - d)) m (rep_movsb_down n (d + n) (s + n) m)
unfolding rep_movsb_down
rep_movsb_down_lem zero d s m le = nothing d (λ a. m (a + s - d)) m
rep_movsb_down_lem (suc n) d s m le =
    let m1 = update m (d + n) (m (s + n)) in
    let size : suc n ≡ n + 1 = omega arith in
    let to_d : d + (n + 1) - 1 ≡ d + n = omega arith in
    let to_s : s + (n + 1) - 1 ≡ s + n = omega arith in
    rw (size, to_d, to_s)
      (Replaced-down d s 1 n m m1 (rep_movsb_down n (d + n) (s + n) m1) le
        (Replaced-shift (d + n) (s + n) d s 1 m m1 (omega arith) le (one_byte (d + n) (s + n) m)
          (omega arith))
        (rep_movsb_down_lem n d s m1 le))

rep_movsl_down_lem :
    (n d s : ℕ) (m : Memory)
    → s ≤ d
    → Replaced d (4 * n) (λ a. m (a + s - d)) m (rep_movsl_down n (d + 4 * n) (s + 4 * n) m)
unfolding rep_movsl_down
rep_movsl_down_lem zero d s m le = nothing d (λ a. m (a + s - d)) m
rep_movsl_down_lem (suc n) d s m le =
    let m1 = move_word (d + 4 * n) (s + 4 * n) m in
    let size : 4 * suc n ≡ 4 * n + 4 = omega arith in
    let to_d : d + (4 * n + 4) - 4 ≡ d + 4 * n = omega arith in
    let to_s : s + (4 * n + 4) - 4 ≡ s + 4 * n = omega arith in
    rw (size, to_d, to_s)
      (Replaced-down d s 4 (4 * n) m m1 (rep_movsl_down n (d + 4 * n) (s + 4 * n) m1) le
        (Replaced-shift (d + 4 * n) (s + 4 * n) d s 4 m m1 (omega arith) le
          (one_word (d + 4 * n) (s + 4 * n) m) (omega arith))
        (rep_movsl_down_lem n d s m1 le))

-- memmove copies the n bytes at `s` to `d` and changes no other byte, however the two ranges overlap
-- and whether or not it moves by words.
pub memmove_lem : (d s n : ℕ) (m : Memory) → Replaced d n (λ a. m (a + s - d)) m (memmove d s n m)
unfolding memmove
memmove_lem d s n m =
    let whole : n % 4 ≡ 0 → 4 * (n / 4) ≡ n = λ e. omega arith in
    elim (Bool-cases (ltb s d && ltb d (s + n))) [
      | inl over ↦
          let le : s ≤ d = ground arith in
          elim (Bool-cases ((s + n) % 4 == 0 && ((d + n) % 4 == 0 && n % 4 == 0))) [
            | inl words ↦
                let size : 4 * (n / 4) ≡ n = whole (ground arith) in
                rw (over, words) (rw size at (rep_movsl_down_lem (n / 4) d s m le))
            | inr bytes ↦ rw (over, bytes) (rep_movsb_down_lem n d s m le)
          ]
      | inr under ↦
          let apart : (d ≤ s) ⊎ (s + n ≤ d) = ground arith in
          elim (Bool-cases (s % 4 == 0 && (d % 4 == 0 && n % 4 == 0))) [
            | inl words ↦
                let size : 4 * (n / 4) ≡ n = whole (ground arith) in
                rw (under, words) (rw size at (rep_movsl_lem (n / 4) d s m (rw size apart)))
            | inr bytes ↦ rw (under, bytes) (rep_movsb_lem n d s m apart)
          ]
    ]

Replaced-const :
    (d c w n : ℕ) (m m1 m' : Memory)
    → Replaced d w (λ _. c) m m1
    → Replaced (d + w) n (λ _. c) m1 m'
    → Replaced d (w + n) (λ _. c) m m'
Replaced-const d c w n m m1 m' first r = (
  λ a lo hi. elim (dec_lt a (d + w)) [
    | yes lt ↦ r.1 a (inl lt) ∙ first.0 a lo lt
    | no ge ↦ r.0 a (omega arith) (omega arith)
  ],
  λ a out. elim out [
    | inl lt ↦ r.1 a (inl (omega arith)) ∙ first.1 a (inl lt)
    | inr ge ↦ r.1 a (inr (omega arith)) ∙ first.1 a (inr (omega arith))
  ],
)

rep_stosb_lem : (n d eax : ℕ) (m : Memory) → Replaced d n (λ _. eax % 256) m (rep_stosb n d eax m)
unfolding rep_stosb
rep_stosb_lem zero d eax m = nothing d (λ _. eax % 256) m
rep_stosb_lem (suc n) d eax m =
    let m1 = update m d (eax % 256) in
    let size : suc n ≡ 1 + n = omega arith in
    rw size (
      Replaced-const d (eax % 256) 1 n m m1 (rep_stosb n (d + 1) eax m1)
        (λ a lo hi. ground arith, λ a out. ground arith) (rep_stosb_lem n (d + 1) eax m1))

repeat_byte_lem : (c : ℕ) → repeat_byte c ≡ c % 256 * 16843009
unfolding repeat_byte
repeat_byte_lem c =
    let b = c % 256 in
    let one = bit_or-disjoint 24 b (b * 2 ^ 16) (omega arith) in
    let two = bit_or-disjoint 16 (b * 257) (b * 2 ^ 8) (omega arith) in
    let three = bit_or-disjoint 8 (b * 65793) b (omega arith) in
    let e1 : b * 2 ^ 24 + b * 2 ^ 16 ≡ b * 257 * 2 ^ 16 = omega arith in
    let e2 : b * 257 * 2 ^ 16 + b * 2 ^ 8 ≡ b * 65793 * 2 ^ 8 = omega arith in
    let f1 = ap (λ (t : ℕ). bit_or (bit_or t (b * 2 ^ 8)) b) (one ∙ e1) in
    let f2 = ap (λ (t : ℕ). bit_or t b) (two ∙ e2) in f1 ∙ f2 ∙ three ∙ omega arith

store_word_lem :
    (d b : ℕ) (m : Memory) → b < 256 → Replaced d 4 (λ _. b) m (store_word d (b * 16843009) m)
unfolding store_word
store_word_lem d b m small =
    let b0 : b * 16843009 % 256 ≡ b = omega arith in
    let b1 : b * 16843009 / 256 % 256 ≡ b = omega arith in
    let b2 : b * 16843009 / 65536 % 256 ≡ b = omega arith in
    let b3 : b * 16843009 / 16777216 % 256 ≡ b = omega arith in
    rw (b0, b1, b2, b3) (λ a lo hi. ground arith, λ a out. ground arith)

rep_stosl_lem :
    (n d b : ℕ) (m : Memory)
    → b < 256
    → Replaced d (4 * n) (λ _. b) m (rep_stosl n d (b * 16843009) m)
unfolding rep_stosl
rep_stosl_lem zero d b m small = nothing d (λ _. b) m
rep_stosl_lem (suc n) d b m small =
    let m1 = store_word d (b * 16843009) m in
    let size : 4 * suc n ≡ 4 + 4 * n = omega arith in
    rw size (
      Replaced-const d b 4 (4 * n) m m1 (rep_stosl n (d + 4) (b * 16843009) m1)
        (store_word_lem d b m small) (rep_stosl_lem n (d + 4) b m1 small))

-- memset writes the lowest byte of `c` to the n bytes at `v`, by words or by bytes, and changes no
-- other byte.
pub memset_lem : (v c n : ℕ) (m : Memory) → Replaced v n (λ _. c % 256) m (memset v c n m)
unfolding memset
memset_lem v c n m = elim (Bool-cases (n == 0)) [
  | inl none_left ↦ let e : n ≡ 0 = ground arith in rw (none_left, e) (nothing v (λ _. c % 256) m)
  | inr some_left ↦ elim (Bool-cases (v % 4 == 0 && n % 4 == 0)) [
    | inl words ↦
        let size : 4 * (n / 4) ≡ n = ground arith in
        rw (some_left, words, repeat_byte_lem c)
          (rw size at (rep_stosl_lem (n / 4) v (c % 256) m (omega arith)))
    | inr bytes ↦ rw (some_left, bytes) (rep_stosb_lem n v c m)
  ]
]
