-- ===== src/Monitor/Words.antt =====
-- runcmd splits its line into words.
pub mod Split
pub mod Parse
use pmake_os.Base.{
  ℕ, zero, suc, ◌+◌, ◌≤◌, ◌<◌, ◌≡◌, refl, sym, ap, ◌∙◌, ◌≢◌, ◌⊎◌, inl, inr, Bool, true, false, ◌&&◌,
  not, some, List, [], ◌∷◌, ◌++◌, arith, All, length, length-append, ◌==◌, if◌then◌else◌, update,
  Bool-cases,
}
use mathlib.Core.List.{append-nil, append_assoc}
use pmake_os.Str.{Memory}
use pmake_os.Monitor.{
  is_space, gobble, scan_past, args, parse, is_string, help_name, kerninfo_name, Done, idle,
  unknown, ran_help, ran_kerninfo, invoke, runcmd,
}
use pmake_os.Monitor.Words.Split.{
  Text, starts_word, words, PointTo, spaces, unspaced, first_word, behind_word, words-unspaced,
  words-first, length-unspaced, length-behind_word, starts-unspaced, starts-behind_word,
  Text-update,
}
use pmake_os.Monitor.Words.Parse.{parse_lem}

abbrev pub same : List ℕ → List ℕ → Bool
same [] [] = true
same [] (d ∷ ds) = false
same (c ∷ cs) [] = false
same (c ∷ cs) (d ∷ ds) = (c == d) && same cs ds

-- What a command line asks for.
abbrev pub asked : List (List ℕ) → Done
asked [] = idle
asked (w ∷ ws) =
    if same w help_name then ran_help else if same w kerninfo_name then ran_kerninfo else unknown

is_string-same :
    (m : Memory) (p : ℕ) (w name : List ℕ)
    → Text m p w
    → All (λ d. d ≢ 0) name
    → is_string m p name ≡ same w name
unfolding is_string
is_string-same m p [] [] h no_zero = ground arith
is_string-same m p [] (d ∷ ds) h no_zero = ground (arith, no_zero.0)
is_string-same m p (c ∷ cs) [] h no_zero = ground (arith, h.1)
is_string-same m p (c ∷ cs) (d ∷ ds) h no_zero =
    rw (h.0, is_string-same m (p + 1) cs ds h.2 no_zero.1) refl

invoke-asked :
    (m : Memory) (ptrs : List ℕ) (ws : List (List ℕ)) → PointTo m ptrs ws → invoke m ptrs ≡ asked ws
unfolding invoke
invoke-asked m [] [] h = refl
invoke-asked m [] (w ∷ ws) h = absurd h
invoke-asked m (p ∷ ps) [] h = absurd h
invoke-asked m (p ∷ ps) (w ∷ ws) h =
    rw
      (
        is_string-same m p w help_name h.0 (omega arith),
        is_string-same m p w kerninfo_name h.0 (omega arith),
      )
      refl

-- runcmd of a line of at most 15 words: argv points to the words of the line, each one ended by a 0 in
-- the buffer, no byte before the line changes, and the command that the first word names is run.
pub runcmd-words :
    (fuel : ℕ) (m : Memory) (buf : ℕ) (s : List ℕ)
    → Text m buf s
    → length s < fuel
    → length (words s) ≤ 15
    → (argv : List ℕ) × (m' : Memory) × (runcmd fuel m buf ≡ some (asked (words s), argv, m'))
      × PointTo m' argv (words s)
      × ((a : ℕ) → a < buf → m' a ≡ m a)
unfolding runcmd
runcmd-words fuel m buf s h enough few =
    let (ptrs, m', parsed, r) = parse_lem fuel m buf s [] enough (omega (arith, few)) h in
    (
      ptrs,
      m',
      rw (parsed, runcmd, invoke-asked m' ptrs (words s) r.pointing) refl,
      r.pointing,
      r.before,
    )
