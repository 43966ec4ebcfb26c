-- ===== src/Console/Queue.antt =====
-- The input buffer is a queue of at most 511 characters.
use pmake_os.Base.{
  ℕ, ◌+◌, ◌-◌, ◌%◌, ◌<◌, ◌≡◌, refl, ap, ◌≢◌, inl, inr, List, [], ◌∷◌, ◌++◌, arith, length, ◌==◌,
  if◌then◌else◌, update, Bool-cases,
}
use pmake_os.Console.{consbufsize, Cons, cons_put, cons_take}

abbrev pub next : ℕ → ℕ
next p = if p + 1 == consbufsize then 0 else p + 1

-- From `rpos` on the buffer holds the characters of the list, and `wpos` is behind the last one.
abbrev pub Holds : (ℕ → ℕ) → ℕ → ℕ → List ℕ → Type 0
Holds buf r w [] = r ≡ w
Holds buf r w (c ∷ cs) = (r ≢ w) × (buf r ≡ c) × Holds buf (next r) w cs

-- The buffer holds the queue `q`.
pub record IsQueue (s : Cons) (q : List ℕ) : Type 0 where
  pub held : Holds s.buf s.rpos s.wpos q
  pub reading : s.rpos < consbufsize
  pub writing : s.wpos < consbufsize

-- What is read or typed at the console.
pub data Input : Type 0 where
  put : ℕ → Input
  get : Input

-- The inputs in order, with the results of the reads.
unfoldable pub run : List Input → Cons → List ℕ × Cons
run [] s = ([], s)
run (put c ∷ is) s = run is (cons_put c s)
run (get ∷ is) s = let (c, s1) = cons_take s in let (cs, s2) = run is s1 in (c ∷ cs, s2)

-- The same inputs on a queue without a bound: a 0 is no character, and a read of the empty queue
-- gives 0.
unfoldable pub replay : List Input → List ℕ → List ℕ × List ℕ
replay [] q = ([], q)
replay (put c ∷ is) q = replay is (if c == 0 then q else q ++ (c % 256) ∷ [])
replay (get ∷ is) [] = let (cs, q) = replay is [] in (0 ∷ cs, q)
replay (get ∷ is) (c ∷ cs) = let (ds, q) = replay is cs in (c ∷ ds, q)

-- At no time does the queue have to hold more than 511 characters.
abbrev pub Bounded : List Input → List ℕ → Type 0
Bounded [] q = Unit {0}
Bounded (put c ∷ is) q = (length q < 511) × Bounded is (if c == 0 then q else q ++ (c % 256) ∷ [])
Bounded (get ∷ is) [] = Bounded is []
Bounded (get ∷ is) (c ∷ cs) = Bounded is cs

-- How many places lie from r to w, going round.
abbrev pub gap : ℕ → ℕ → ℕ
gap r w = (w + 512 - r) % 512

Holds-gap :
    (buf : ℕ → ℕ) (r w : ℕ) (q : List ℕ) → r < 512 → w < 512 → Holds buf r w q → gap r w ≡ length q
Holds-gap buf r w [] hr hw h = ground arith
Holds-gap buf r w (c ∷ cs) hr hw h =
    let ih = Holds-gap buf (next r) w cs (ground arith) hw h.2 in ground (arith, ih, h.0)

Holds-put :
    (buf : ℕ → ℕ) (r w v : ℕ) (q : List ℕ)
    → r < 512
    → w < 512
    → length q < 511
    → Holds buf r w q
    → Holds (update buf w v) r (next w) (q ++ v ∷ [])
Holds-put buf r w v [] hr hw few h = (ground arith, ground arith, ground arith)
Holds-put buf r w v (c ∷ cs) hr hw few h =
    let far = Holds-gap buf r w (c ∷ cs) hr hw h in
    (
      ground (arith, far),
      ground (arith, h.0, h.1),
      Holds-put buf (next r) w v cs (ground arith) hw (omega arith) h.2,
    )

cons_put-IsQueue :
    (c : ℕ) (s : Cons) (q : List ℕ)
    → IsQueue s q
    → length q < 511
    → IsQueue (cons_put c s) (if c == 0 then q else q ++ (c % 256) ∷ [])
unfolding cons_put
cons_put-IsQueue c s q h few = elim (Bool-cases (c == 0)) [
  | inl nul ↦ rw nul h
  | inr char ↦ rw char (record {
    held = Holds-put s.buf s.rpos s.wpos (c % 256) q h.reading h.writing few h.held;
    reading = h.reading;
    writing = ground (arith, h.writing);
  })
]

cons_take-first :
    (c : ℕ) (s : Cons) (q : List ℕ)
    → IsQueue s (c ∷ q)
    → (s' : Cons) × (cons_take s ≡ (c, s')) × IsQueue s' q
unfolding cons_take
cons_take-first c s q h = (
  record s { rpos = next s.rpos },
  ground (arith, h.held.0, h.held.1),
  record { held = h.held.2; reading = ground (arith, h.reading); writing = h.writing },
)

cons_take-empty : (s : Cons) → IsQueue s [] → cons_take s ≡ (0, s)
unfolding cons_take
cons_take-empty s h = ground (arith, h.held)

-- The input buffer behaves as a queue: from a state that holds the queue `q`, each sequence of
-- characters and reads gives the results that it has on the queue, and ends in a state that holds
-- what is left. The queue may hold at most 511 characters at a time.
pub run_refines :
    (is : List Input) (s : Cons) (q : List ℕ)
    → IsQueue s q
    → Bounded is q
    → ((run is s).0 ≡ (replay is q).0) × IsQueue (run is s).1 (replay is q).1
unfolding run replay
run_refines [] s q h b = (refl, h)
run_refines (put c ∷ is) s q h b =
    run_refines is (cons_put c s) _ (cons_put-IsQueue c s q h b.0) b.1
run_refines (get ∷ is) s [] h b =
    let (ran, left) = run_refines is s [] h b in
    rw (cons_take-empty s h) (ap (λ (r : List ℕ). 0 ∷ r) ran, left)
run_refines (get ∷ is) s (c ∷ cs) h b =
    let (s', took, h') = cons_take-first c s cs h in
    let (ran, left) = run_refines is s' cs h' b in rw took (ap (λ (r : List ℕ). c ∷ r) ran, left)

-- A character that comes in while 511 characters wait makes the buffer read as empty: all 512 are lost.
pub cons_put-overruns :
    (c : ℕ) (s : Cons) (q : List ℕ)
    → IsQueue s q
    → length q ≡ 511
    → c ≢ 0
    → cons_take (cons_put c s) ≡ (0, cons_put c s)
unfolding cons_put cons_take
cons_put-overruns c s q h full char =
    let far = Holds-gap s.buf s.rpos s.wpos q h.reading h.writing h.held in
    ground (arith, far, h.reading, h.writing)
