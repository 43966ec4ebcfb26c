-- ===== src/Str/Strings.antt =====
-- The string functions of lib/string.c on strings that end with the byte 0.
use pmake_os.Base.{
  ℕ, zero, suc, ◌+◌, ◌-◌, ◌≤◌, ◌<◌, ◌≡◌, sym, ◌∙◌, ◌≢◌, ◌⊎◌, inl, inr, false, some, arith, ltb,
  ◌==◌, if◌then◌else◌, Bool-cases, ne→==, update,
}
use native.Mathlib.Decide.{ℕ_discrete}
use pmake_os.Str.{Memory, byte_diff, strlen, strnlen, strcmp, strlcpy_loop, strlcpy}

-- At `s` there is a string of n bytes.
abbrev pub IsString : Memory → ℕ → ℕ → Type 0
IsString m s zero = m s ≡ 0
IsString m s (suc n) = (m s ≢ 0) × IsString m (s + 1) n

-- strlen of a string is its length, with fuel for every byte and the byte 0.
pub strlen_lem : (fuel n s : ℕ) (m : Memory) → IsString m s n → n < fuel → strlen fuel m s ≡ some n
unfolding strlen
strlen_lem zero n s m is enough = absurd (omega arith)
strlen_lem (suc fuel) zero s m is enough = ground arith
strlen_lem (suc fuel) (suc n) s m is enough =
    ground (arith, is.0, strlen_lem fuel n (s + 1) m is.1 (omega arith))

abbrev pub shorter : ℕ → ℕ → ℕ
shorter n size = if ltb n size then n else size

-- strnlen of a string is its length, or the bound if that is less.
pub strnlen_lem : (size n s : ℕ) (m : Memory) → IsString m s n → strnlen m s size ≡ shorter n size
unfolding strnlen
strnlen_lem zero n s m is = ground arith
strnlen_lem (suc size) zero s m is = ground arith
strnlen_lem (suc size) (suc n) s m is = ground (arith, is.0, strnlen_lem size n (s + 1) m is.1)

-- The two strings have the same bytes.
abbrev pub Same : Memory → ℕ → ℕ → ℕ → Type 0
Same m p q zero = m p ≡ m q
Same m p q (suc n) = (m p ≡ m q) × Same m (p + 1) (q + 1) n

-- strcmp of two strings of bytes: there is a result with fuel for the first one, and it is 0 just
-- when the strings have the same bytes, up to the byte 0 of the first one.
pub strcmp_lem :
    (fuel n p q : ℕ) (m : Memory)
    → ((a : ℕ) → m a < 256)
    → IsString m p n
    → n < fuel
    → (r : ℕ) × (strcmp fuel m p q ≡ some r) × (Same m p q n → r ≡ 0) × (r ≡ 0 → Same m p q n)
unfolding strcmp
strcmp_lem zero n p q m bytes is enough = absurd (omega arith)
strcmp_lem (suc fuel) zero p q m bytes is enough =
    let small = bytes q in (byte_diff (m p) (m q), ground arith, λ e. omega arith, λ e. omega arith)
strcmp_lem (suc fuel) (suc n) p q m bytes is enough =
    let (r, ran, to, from) = strcmp_lem fuel n (p + 1) (q + 1) m bytes is.1 (omega arith) in
    let small_p = bytes p in
    let small_q = bytes q in
    elim (Bool-cases (m p == m q)) [
      | inl e ↦ (r, ground (arith, is.0, ran), λ s. to s.1, λ z. (ground arith, from z))
      | inr e ↦ (
        byte_diff (m p) (m q),
        ground (arith, is.0),
        λ s. absurd (ground (arith, s.0)),
        λ z. absurd (ground arith),
      )
    ]

IsString-kept :
    (n s : ℕ) (m m' : Memory)
    → ((a : ℕ) → s ≤ a → a ≤ s + n → m' a ≡ m a)
    → IsString m s n
    → IsString m' s n
IsString-kept zero s m m' same is = same s (omega arith) (omega arith) ∙ is
IsString-kept (suc n) s m m' same is = (
  λ e. is.0 (sym (same s (omega arith) (omega arith)) ∙ e),
  IsString-kept n (s + 1) m m' (λ a lo hi. same a (omega arith) (omega arith)) is.1,
)

-- The memory m' is m with the k bytes at `src` and the byte 0 behind them at `dst`.
pub record IsCopy (dst src k : ℕ) (m m' : Memory) : Type 0 where
  pub bytes : (a : ℕ) → dst ≤ a → a < dst + k → m' a ≡ m (a + src - dst)
  pub ends : m' (dst + k) ≡ 0
  pub others : (a : ℕ) → (a < dst) ⊎ (dst + k < a) → m' a ≡ m a

no_bytes : (dst src : ℕ) (m : Memory) → IsCopy dst src 0 m (update m dst 0)
no_bytes dst src m = record {
  bytes = λ a lo hi. absurd (omega arith);
  ends = let e : dst + 0 ≡ dst = omega arith in ground arith;
  others = λ a out. ground arith;
}

one_more :
    (dst src k : ℕ) (m m' : Memory)
    → (src + suc k < dst) ⊎ (dst + suc k < src)
    → IsCopy (dst + 1) (src + 1) k (update m dst (m src)) m'
    → IsCopy dst src (suc k) m m'
one_more dst src k m m' apart c = record {
  bytes = λ a lo hi. elim (ℕ_discrete a dst) [
    | yes e ↦
        let f : a + src - dst ≡ src = omega arith in ground (arith, c.others a (inl (omega arith)))
    | no ne ↦
        let f : a + (src + 1) - (dst + 1) ≡ a + src - dst = omega arith in
        let g : (a + src - dst == dst) ≡ false = ground arith in
        ground (arith, c.bytes a (omega arith) (omega arith))
  ];
  ends = let e : dst + 1 + k ≡ dst + suc k = omega arith in rw e at c.ends;
  others = λ a out. ground (arith, c.others a (ground arith));
}

strlcpy_loop_lem :
    (size n dst src : ℕ) (m : Memory)
    → IsString m src n
    → (src + n < dst) ⊎ (dst + size < src)
    → let r = strlcpy_loop m dst src size in
      (r.1 ≡ dst + shorter n size) × IsCopy dst src (shorter n size) m r.0
unfolding strlcpy_loop
strlcpy_loop_lem zero n dst src m is apart =
    let e : shorter n 0 ≡ 0 = ground arith in rw e (omega arith, no_bytes dst src m)
strlcpy_loop_lem (suc size) zero dst src m is apart =
    let e : shorter 0 (suc size) ≡ 0 = ground arith in rw (is, e) (omega arith, no_bytes dst src m)
strlcpy_loop_lem (suc size) (suc n) dst src m is apart =
    let m1 = update m dst (m src) in
    let here : (m src == 0) ≡ false = ne→== (m src) 0 is.0 in
    let less : shorter (suc n) (suc size) ≡ suc (shorter n size) = ground arith in
    let tail = IsString-kept n (src + 1) m m1 (λ a lo hi. ground arith) is.1 in
    let (ends, copy) = strlcpy_loop_lem size n (dst + 1) (src + 1) m1 tail (ground arith) in
    rw (here, less)
      (
        omega (arith, ends),
        one_more dst src (shorter n size) m (strlcpy_loop m1 (dst + 1) (src + 1) size).0
            (ground arith) copy,
      )

-- strlcpy into `size + 1` bytes from a string of n bytes outside of them: the copy is the string's
-- first bytes, at most `size` of them, with the byte 0 behind it, their number is returned, and no
-- other byte changes.
pub strlcpy_lem :
    (size n dst src : ℕ) (m : Memory)
    → IsString m src n
    → (src + n < dst) ⊎ (dst + size < src)
    → let r = strlcpy m dst src (suc size) in
      (r.1 ≡ shorter n size) × IsCopy dst src (shorter n size) m r.0
unfolding strlcpy
strlcpy_lem size n dst src m is apart =
    let (ends, copy) = strlcpy_loop_lem size n dst src m is apart in (omega (arith, ends), copy)
