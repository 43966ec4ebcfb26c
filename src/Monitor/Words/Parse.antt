-- ===== src/Monitor/Words/Parse.antt =====
-- The loop of runcmd over its line, round by round.
use pmake_os.Base.{
  ℕ, zero, suc, ◌+◌, ◌≤◌, ◌<◌, ◌≡◌, refl, sym, ap, ◌∙◌, ◌≢◌, inl, inr, true, false, ◌&&◌, not, some,
  List, [], ◌∷◌, ◌++◌, arith, length, length-append, ◌==◌, update, Bool-cases,
}
use mathlib.Core.List.{append-nil, append_assoc}
use pmake_os.Str.{Memory}
use pmake_os.Monitor.{is_space, gobble, scan_past, args, parse}
use pmake_os.Monitor.Words.Split.{
  Text, starts_word, words, PointTo, spaces, unspaced, first_word, behind_word, words-unspaced,
  words-first, length-unspaced, length-behind_word, starts-unspaced, starts-behind_word,
  Text-update,
}

record IsGobbled (m : Memory) (p : ℕ) (s : List ℕ) (m1 : Memory) : Type 0 where
  text : Text m1 (p + spaces s) (unspaced s)
  pub before : (a : ℕ) → a < p → m1 a ≡ m a
  ends : starts_word s ≡ false → m1 p ≡ 0

gobble_lem :
    (fuel : ℕ) (m : Memory) (p : ℕ) (s : List ℕ)
    → length s < fuel
    → Text m p s
    → (m1 : Memory) × (gobble fuel m p ≡ some (m1, p + spaces s)) × IsGobbled m p s m1
unfolding gobble
gobble_lem zero m p s enough h = absurd (omega arith)
gobble_lem (suc fuel) m p [] enough h =
    let at : p + 0 ≡ p = omega arith in
    (m, rw at (ground (arith, h)), record { text = rw at h; before = λ a lt. refl; ends = λ e. h })
gobble_lem (suc fuel) m p (c ∷ cs) enough h = elim (Bool-cases (is_space c)) [
  | inl space ↦
      let m' : Memory = update m p 0 in
      let tail = Text-update m (p + 1) 0 p cs (omega arith) h.2 in
      let (m1, ran, r) = gobble_lem fuel m' (p + 1) cs (omega arith) tail in
      let goes_on : (not (m p == 0) && is_space (m p)) ≡ true = rw h.0 (ground (arith, h.1)) in
      let at : p + 1 + spaces cs ≡ p + suc (spaces cs) = omega arith in
      (
        m1,
        rw (goes_on, space) (ran ∙ ap (λ (q : ℕ). some (m1, q)) at),
        record {
          text = rw space (rw (← at) r.text);
          before = λ a lt. r.before a (omega arith) ∙ ground arith;
          ends = λ e. r.before p (omega arith) ∙ ground arith;
        },
      )
  | inr char ↦
      let stops : (not (m p == 0) && is_space (m p)) ≡ false = rw h.0 (ground (arith, char)) in
      let at : p + 0 ≡ p = omega arith in
      (
        m,
        rw (stops, char, at) refl,
        record {
          text = rw (char, at) h;
          before = λ a lt. refl;
          ends = λ e. absurd (ground (arith, char, e));
        },
      )
]

scan_past_lem :
    (fuel : ℕ) (m : Memory) (p : ℕ) (s : List ℕ)
    → length s < fuel
    → Text m p s
    → (scan_past fuel m p ≡ some (p + length (first_word s)))
      × Text m (p + length (first_word s)) (behind_word s)
unfolding scan_past
scan_past_lem zero m p s enough h = absurd (omega arith)
scan_past_lem (suc fuel) m p [] enough h =
    let at : p + 0 ≡ p = omega arith in (rw at (ground (arith, h)), rw at h)
scan_past_lem (suc fuel) m p (c ∷ cs) enough h = elim (Bool-cases (is_space c)) [
  | inl space ↦
      let stops : (not (m p == 0) && not (is_space (m p))) ≡ false =
        rw h.0 (ground (arith, space)) in
      let at : p + 0 ≡ p = omega arith in (rw (stops, space, at) refl, rw (space, at) h)
  | inr char ↦
      let (ran, left) = scan_past_lem fuel m (p + 1) cs (omega arith) h.2 in
      let goes_on : (not (m p == 0) && not (is_space (m p))) ≡ true =
        rw h.0 (ground (arith, char, h.1)) in
      let at : p + 1 + length (first_word cs) ≡ p + suc (length (first_word cs)) = omega arith in
      (rw (goes_on, char) (ran ∙ ap (λ (q : ℕ). some q) at), rw char (rw at at left))
]

-- The word in front of the place where the memory is 0 from then on.
first_word-Text :
    (m m' : Memory) (p : ℕ) (s : List ℕ)
    → Text m p s
    → ((a : ℕ) → a < p + length (first_word s) → m' a ≡ m a)
    → m' (p + length (first_word s)) ≡ 0
    → Text m' p (first_word s)
first_word-Text m m' p [] h same ended = let at : p + 0 ≡ p = omega arith in rw at at ended
first_word-Text m m' p (c ∷ cs) h same ended = elim (Bool-cases (is_space c)) [
  | inl space ↦
      let at : p + 0 ≡ p = omega arith in
      rw space (let e : m' (p + 0) ≡ 0 = rw space at ended in rw at at e)
  | inr char ↦
      let longer : length (first_word (c ∷ cs)) ≡ suc (length (first_word cs)) = rw char refl in
      let at : p + length (first_word (c ∷ cs)) ≡ p + 1 + length (first_word cs) =
        omega (arith, longer) in
      rw char (
        same p (omega (arith, longer)) ∙ h.0,
        h.1,
        first_word-Text m m' (p + 1) cs h.2 (λ a lt. same a (omega (arith, at))) (rw at at ended),
      )
]

pub record IsParsed (m : Memory) (p : ℕ) (s : List ℕ) (ptrs : List ℕ) (m' : Memory) : Type 0 where
  pub pointing : PointTo m' ptrs (words s)
  pub before : (a : ℕ) → a < p → m' a ≡ m a
  ends : starts_word s ≡ false → m' p ≡ 0

Text-char : (m : Memory) (p : ℕ) (s : List ℕ) → Text m p s → starts_word s ≡ true → m p ≢ 0
Text-char m p [] h starts = λ e. cc
Text-char m p (c ∷ cs) h starts = λ e. h.1 (sym h.0 ∙ e)

first_word-pos : (s : List ℕ) → starts_word s ≡ true → 1 ≤ length (first_word s)
first_word-pos [] h = cc
first_word-pos (c ∷ cs) h = ground arith

-- One round of the loop of runcmd, at a word.
parse-round :
    (fuel : ℕ) (m m1 : Memory) (p q q2 : ℕ) (argv : List ℕ)
    → gobble (suc fuel) m p ≡ some (m1, q)
    → m1 q ≢ 0
    → length argv < 15
    → scan_past (suc fuel) m1 q ≡ some q2
    → parse (suc fuel) m p argv ≡ parse fuel m1 q2 (argv ++ q ∷ [])
unfolding parse
parse-round fuel m m1 p q q2 argv gobbled char room scanned =
    let going : (m1 q == 0) ≡ false = ground (arith, char) in
    let space_left : (length argv == 15) ≡ false = ground arith in
    rw (gobbled, parse, going, space_left, scanned, parse) refl

parse-end :
    (fuel : ℕ) (m m1 : Memory) (p q : ℕ) (argv : List ℕ)
    → gobble (suc fuel) m p ≡ some (m1, q)
    → m1 q ≡ 0
    → parse (suc fuel) m p argv ≡ some (args argv m1)
unfolding parse
parse-end fuel m m1 p q argv gobbled ended = rw (gobbled, parse, ended) refl

pub parse_lem :
    (fuel : ℕ) (m : Memory) (p : ℕ) (s argv : List ℕ)
    → length s < fuel
    → length argv + length (words s) ≤ 15
    → Text m p s
    → (ptrs : List ℕ) × (m' : Memory) × (parse fuel m p argv ≡ some (args (argv ++ ptrs) m'))
      × IsParsed m p s ptrs m'
parse_lem zero m p s argv enough few h = absurd (omega arith)
parse_lem (suc fuel) m p s argv enough few h =
    let (m1, gobbled, g) = gobble_lem (suc fuel) m p s enough h in
    let t = unspaced s in
    let q = p + spaces s in
    let short = length-unspaced s in
    elim (starts-unspaced s) [
      | inl nothing ↦
          let ended : m1 q ≡ 0 = rw nothing at g.text in
          let no_words : words s ≡ [] = sym (words-unspaced s) ∙ ap words nothing in
          (
            [],
            m1,
            parse-end fuel m m1 p q argv gobbled ended
                ∙ ap (λ (l : List ℕ). some (args l m1)) (sym (append-nil argv)),
            record { pointing = rw no_words tt; before = g.before; ends = g.ends },
          )
      | inr word ↦
          let split : words s ≡ first_word t ∷ words (behind_word t) =
            sym (words-unspaced s) ∙ words-first t word in
          let count : length (words s) ≡ suc (length (words (behind_word t))) = ap length split in
          let one = first_word-pos t word in
          let long = length-behind_word t in
          let (scanned, left) = scan_past_lem (suc fuel) m1 q t (omega (arith, short)) g.text in
          let q2 = q + length (first_word t) in
          let (ptrs, m', ran, r) =
            parse_lem fuel m1 q2 (behind_word t) (argv ++ q ∷ []) (omega (arith, short, one, long))
              (omega (arith, length-append {0} argv (q ∷ []), count)) left in
          (
            q ∷ ptrs,
            m',
            parse-round fuel m m1 p q q2 argv gobbled (Text-char m1 q t g.text word)
                  (omega (arith, count)) scanned
                ∙ ran
                ∙ ap (λ (l : List ℕ). some (args l m')) (append_assoc argv (q ∷ []) ptrs),
            record {
              pointing = rw split (
                first_word-Text m1 m' q t g.text r.before (r.ends (starts-behind_word t)),
                r.pointing,
              );
              before = λ a lt. r.before a (omega (arith, one)) ∙ g.before a lt;
              ends = λ e. r.before p (omega (arith, one)) ∙ g.ends e;
            },
          )
    ]
