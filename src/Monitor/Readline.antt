-- ===== src/Monitor/Readline.antt =====
-- readline edits a line in place.
use pmake_os.Base.{
  ℕ, zero, suc, ◌+◌, ◌-◌, ◌%◌, ◌^◌, ◌≤◌, ◌<◌, ◌≡◌, refl, sym, ap, ◌∙◌, inl, inr, Bool, true, false,
  ◌&&◌, ◌||◌, some, List, [], ◌∷◌, ◌++◌, arith, length, bytes, bytes-snoc, bytes-update,
  length-bytes, leb, ltb, ◌==◌, All, if◌then◌else◌, update, Bool-cases,
}
use pmake_os.Str.{Memory}
use pmake_os.Monitor.{Line, more, complete, is_erase, echo, press, readline_loop, readline}

-- A line without its last character.
abbrev pub shortened : List ℕ → List ℕ
shortened [] = []
shortened (c ∷ []) = []
shortened (c ∷ d ∷ cs) = c ∷ shortened (d ∷ cs)

-- The line behind a character: the last character goes, or one is added, or nothing happens.
abbrev pub edited : List ℕ → ℕ → List ℕ
edited line c =
    if is_erase c && ltb 0 (length line)
    then shortened line
    else if leb b' ' c && ltb (length line) 1023
    then line ++ (c % 256) ∷ []
    else line

abbrev pub typed : List ℕ → List ℕ → List ℕ
typed line [] = line
typed line (c ∷ cs) = typed (edited line c) cs

-- A character that neither ends the line nor reports an error.
abbrev pub IsKey : ℕ → Type 0
IsKey c = (c < 2 ^ 31) × ((c == 10 || c == 13) ≡ false)

-- The first i bytes of the buffer are the line.
record HoldsLine (line : List ℕ) (s : Line) : Type 0 where
  held : bytes s.buf 0 s.i ≡ line
  room : s.i ≤ 1023

HoldsLine-length : (line : List ℕ) (s : Line) → HoldsLine line s → length line ≡ s.i
HoldsLine-length line s h = ap length (sym h.held) ∙ length-bytes s.buf 0 s.i

bytes-shortened : (m : Memory) (i n : ℕ) → bytes m i n ≡ shortened (bytes m i (suc n))
bytes-shortened m i zero = refl
bytes-shortened m i (suc n) = ap (λ (r : List ℕ). m i ∷ r) (bytes-shortened m (i + 1) n)

press-edits :
    (echoing : Bool) (c : ℕ) (line : List ℕ) (s : Line)
    → IsKey c
    → HoldsLine line s
    → (s' : Line) × (press echoing c s ≡ more s') × HoldsLine (edited line c) s'
unfolding press
press-edits echoing c line s key h =
    let len = HoldsLine-length line s h in
    let error : leb (2 ^ 31) c ≡ false = ground (arith, key.0) in
    elim (Bool-cases (is_erase c && ltb 0 (length line))) [
      | inl erase ↦
          let erase' : (is_erase c && ltb 0 s.i) ≡ true = rw len at erase in
          let one : s.i ≡ suc (s.i - 1) = ground (arith, erase') in
          (
            record s { i = s.i - 1; echoed = echo echoing 8 s.echoed },
            rw (error, erase') refl,
            rw erase (record {
              held =
                  bytes-shortened s.buf 0 (s.i - 1)
                  ∙ ap (λ (n : ℕ). shortened (bytes s.buf 0 n)) (sym one)
                  ∙ ap shortened h.held;
              room = omega (arith, h.room);
            }),
          )
      | inr keep ↦
          let keep' : (is_erase c && ltb 0 s.i) ≡ false = rw len at keep in
          elim (Bool-cases (leb b' ' c && ltb (length line) 1023)) [
            | inl room ↦
                let room' : (leb b' ' c && ltb s.i 1023) ≡ true = rw len at room in
                (
                  record s {
                    buf = update s.buf s.i (c % 256);
                    i = s.i + 1;
                    echoed = echo echoing c s.echoed;
                  },
                  rw (error, keep', room') refl,
                  rw (keep, room)
                      (record {
                        held =
                            ap (bytes (update s.buf s.i (c % 256)) 0) {y = suc s.i} (omega arith)
                            ∙ bytes-snoc s.buf 0 s.i s.i (c % 256) (omega arith)
                            ∙ ap (λ (l : List ℕ). l ++ (c % 256) ∷ []) h.held;
                        room = ground (arith, room');
                      }),
                )
            | inr full ↦
                let full' : (leb b' ' c && ltb s.i 1023) ≡ false = rw len at full in
                (s, rw (error, keep', full', key.1) refl, rw (keep, full) h)
          ]
    ]

press-completes :
    (echoing : Bool) (end : ℕ) (s : Line)
    → (end == 10 || end == 13) ≡ true
    → press echoing end s
      ≡ complete (record s { buf = update s.buf s.i 0; echoed = echo echoing 10 s.echoed })
unfolding press
press-completes echoing end s enter = ground arith

readline_loop-typed :
    (echoing : Bool) (ks : List ℕ) (end : ℕ) (rest : List ℕ) (line : List ℕ) (s : Line)
    → All IsKey ks
    → (end == 10 || end == 13) ≡ true
    → HoldsLine line s
    → (s' : Line) × (readline_loop echoing (ks ++ end ∷ rest) s ≡ some (some s', rest))
      × (bytes s'.buf 0 (length (typed line ks)) ≡ typed line ks)
      × (s'.buf (length (typed line ks)) ≡ 0)
      × (length (typed line ks) ≤ 1023)
unfolding readline_loop
readline_loop-typed echoing [] end rest line s keys enter h =
    let len = HoldsLine-length line s h in
    (
      record s { buf = update s.buf s.i 0; echoed = echo echoing 10 s.echoed },
      rw (press-completes echoing end s enter, readline_loop) refl,
      rw len (bytes-update s.buf 0 s.i s.i 0 (omega arith) ∙ h.held),
      ground (arith, len),
      omega (arith, len, h.room),
    )
readline_loop-typed echoing (c ∷ ks) end rest line s keys enter h =
    let (s1, pressed, h1) = press-edits echoing c line s keys.0 h in
    rw (pressed, readline_loop)
      (readline_loop-typed echoing ks end rest (edited line c) s1 keys.1 enter h1)

-- readline on characters that it does not take for an error and that end no line, and then a newline
-- or a carriage return: it returns the buffer with the edited line and a 0 behind it, at most 1023
-- characters, and reads nothing after the newline. An erase character takes the last character of a
-- line away; DEL on an empty line is put into it.
pub readline-typed :
    (echoing : Bool) (buf : Memory) (ks : List ℕ) (end : ℕ) (rest : List ℕ)
    → All IsKey ks
    → (end == 10 || end == 13) ≡ true
    → (s : Line) × (readline echoing buf (ks ++ end ∷ rest) ≡ some (some s, rest))
      × (bytes s.buf 0 (length (typed [] ks)) ≡ typed [] ks)
      × (s.buf (length (typed [] ks)) ≡ 0)
      × (length (typed [] ks) ≤ 1023)
unfolding readline
readline-typed echoing buf ks end rest keys enter =
    readline_loop-typed echoing ks end rest [] _ keys enter
      (record { held = refl; room = omega arith })
