-- ===== src/Monitor/Words/Split.antt =====
-- The words of a line of the monitor, and a string in memory.
use pmake_os.Base.{
  ℕ, suc, ◌+◌, ◌<◌, ◌≡◌, refl, ◌≢◌, ◌⊎◌, inl, inr, Bool, true, false, not, List, [], ◌∷◌, arith,
  length, if◌then◌else◌, update, Bool-cases,
}
use pmake_os.Str.{Memory}
use pmake_os.Monitor.{is_space}

-- The string lies at p, with the byte 0 behind it and none in it.
abbrev pub Text : Memory → ℕ → List ℕ → Type 0
Text m p [] = m p ≡ 0
Text m p (c ∷ cs) = (m p ≡ c) × (c ≢ 0) × Text m (p + 1) cs

abbrev pub starts_word : List ℕ → Bool
starts_word [] = false
starts_word (c ∷ cs) = not (is_space c)

-- A character before the words of a string that goes on, or does not go on, with the same word.
abbrev pub grow : ℕ → Bool → List (List ℕ) → List (List ℕ)
grow c true (w ∷ ws) = (c ∷ w) ∷ ws
grow c true [] = (c ∷ []) ∷ []
grow c false ws = (c ∷ []) ∷ ws

-- The words of a string.
abbrev pub words : List ℕ → List (List ℕ)
words [] = []
words (c ∷ cs) = if is_space c then words cs else grow c (starts_word cs) (words cs)

-- The pointers point to the words.
abbrev pub PointTo : Memory → List ℕ → List (List ℕ) → Type 0
PointTo m [] [] = Unit {0}
PointTo m [] (w ∷ ws) = ⊥
PointTo m (p ∷ ps) [] = ⊥
PointTo m (p ∷ ps) (w ∷ ws) = Text m p w × PointTo m ps ws

-- The spaces at the front, and what is behind them.
abbrev pub spaces : List ℕ → ℕ
spaces [] = 0
spaces (c ∷ cs) = if is_space c then suc (spaces cs) else 0

abbrev pub unspaced : List ℕ → List ℕ
unspaced [] = []
unspaced (c ∷ cs) = if is_space c then unspaced cs else c ∷ cs

abbrev pub first_word : List ℕ → List ℕ
first_word [] = []
first_word (c ∷ cs) = if is_space c then [] else c ∷ first_word cs

abbrev pub behind_word : List ℕ → List ℕ
behind_word [] = []
behind_word (c ∷ cs) = if is_space c then c ∷ cs else behind_word cs

pub words-unspaced : (s : List ℕ) → words (unspaced s) ≡ words s
words-unspaced [] = refl
words-unspaced (c ∷ cs) = elim (Bool-cases (is_space c)) [
  | inl space ↦ rw space (words-unspaced cs)
  | inr char ↦ rw (char, char) refl
]

pub words-first :
    (s : List ℕ) → starts_word s ≡ true → words s ≡ first_word s ∷ words (behind_word s)
words-first [] h = cc
words-first (c ∷ []) h = ground arith
words-first (c ∷ d ∷ cs) h = elim (Bool-cases (is_space d)) [
  | inl space ↦ ground arith
  | inr char ↦ ground (arith, words-first (d ∷ cs) (ground arith))
]

pub length-unspaced : (s : List ℕ) → length s ≡ spaces s + length (unspaced s)
length-unspaced [] = omega arith
length-unspaced (c ∷ cs) = ground (arith, length-unspaced cs)

pub length-behind_word : (s : List ℕ) → length s ≡ length (first_word s) + length (behind_word s)
length-behind_word [] = omega arith
length-behind_word (c ∷ cs) = ground (arith, length-behind_word cs)

pub starts-unspaced : (s : List ℕ) → (unspaced s ≡ []) ⊎ (starts_word (unspaced s) ≡ true)
starts-unspaced [] = inl refl
starts-unspaced (c ∷ cs) = elim (Bool-cases (is_space c)) [
  | inl space ↦ rw space (starts-unspaced cs)
  | inr char ↦ rw char (inr (ground arith))
]

pub starts-behind_word : (s : List ℕ) → starts_word (behind_word s) ≡ false
starts-behind_word [] = refl
starts-behind_word (c ∷ cs) = elim (Bool-cases (is_space c)) [
  | inl space ↦ rw space (ground arith)
  | inr char ↦ rw char (starts-behind_word cs)
]

pub Text-update :
    (m : Memory) (p v q : ℕ) (s : List ℕ) → q < p → Text m p s → Text (update m q v) p s
Text-update m p v q [] before h = ground arith
Text-update m p v q (c ∷ cs) before h =
    (ground (arith, h.0), h.1, Text-update m (p + 1) v q cs (omega arith) h.2)
