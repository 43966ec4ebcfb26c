-- ===== src/Printf/Buffer.antt =====
-- vsnprintf writes a string that fits the buffer.
use pmake_os.Base.{
  ℕ, zero, suc, ◌+◌, ◌-◌, ◌%◌, ◌^◌, ◌≤◌, ◌<◌, ◌≡◌, refl, sym, ap, subst, ◌∙◌, ◌⊎◌, inl, inr, false,
  ◌||◌, some, List, [], ◌∷◌, arith, length, ltb, leb, ◌==◌, update, Bool-cases,
}
use pmake_os.Kernel.Ret.{val}
use pmake_os.Printf.{Arg, prefix, vprintfmt, Sprintbuf, sprintputch, sprint_all, vsnprintf}

-- The bytes from the address on are the string, and a 0 behind it.
abbrev pub Spells : (ℕ → ℕ) → ℕ → List ℕ → Type 0
Spells m a [] = m a ≡ 0
Spells m a (c ∷ cs) = (m a ≡ c % 256) × Spells m (a + 1) cs

abbrev ended : Sprintbuf → ℕ → ℕ
ended b = update b.memory b.buf 0

prefix-nil : (n : ℕ) → prefix n [] ≡ []
prefix-nil zero = refl
prefix-nil (suc n) = refl

sprintputch-room :
    (c : ℕ) (b : Sprintbuf)
    → b.buf < b.ebuf
    → sprintputch c b
      ≡ record b { cnt = b.cnt + 1; memory = update b.memory b.buf (c % 256); buf = b.buf + 1 }
unfolding sprintputch
sprintputch-room c b h = ground arith

sprintputch-full :
    (c : ℕ) (b : Sprintbuf) → b.ebuf ≤ b.buf → sprintputch c b ≡ record b { cnt = b.cnt + 1 }
unfolding sprintputch
sprintputch-full c b h = ground arith

-- Behind the last place nothing is stored.
sprint_all-full :
    (cs : List ℕ) (b : Sprintbuf)
    → b.ebuf ≤ b.buf
    → sprint_all cs b ≡ record b { cnt = b.cnt + length cs }
unfolding sprint_all
sprint_all-full [] b full = let same : b.cnt + 0 ≡ b.cnt = omega arith in rw same refl
sprint_all-full (c ∷ cs) b full =
    let next : b.cnt + 1 + length cs ≡ b.cnt + suc (length cs) = omega arith in
    rw (sprintputch-full c b full, sprint_all-full cs (record b { cnt = b.cnt + 1 }) full, next)
      refl

record IsSprinted (cs : List ℕ) (b b' : Sprintbuf) : Type 0 where
  count : b'.cnt ≡ b.cnt + length cs
  string : Spells (ended b') b.buf (prefix (b.ebuf - b.buf) cs)
  before : (a : ℕ) → a < b.buf → ended b' a ≡ b.memory a
  behind : (a : ℕ) → b.ebuf < a → ended b' a ≡ b.memory a

-- Nothing more is stored at the end of the buffer or of the characters.
stop-IsSprinted :
    (cs : List ℕ) (b : Sprintbuf)
    → b.buf ≤ b.ebuf
    → prefix (b.ebuf - b.buf) cs ≡ []
    → IsSprinted cs b (record b { cnt = b.cnt + length cs })
stop-IsSprinted cs b room done = record {
  count = refl;
  string = rw done (ground arith);
  before = λ a h. ground arith;
  behind = λ a h. ground arith;
}

sprint_all-IsSprinted :
    (cs : List ℕ) (b : Sprintbuf) → b.buf ≤ b.ebuf → IsSprinted cs b (sprint_all cs b)
unfolding sprint_all
sprint_all-IsSprinted [] b room =
    subst (IsSprinted [] b)
      (sym (
        let same : b.cnt + 0 ≡ b.cnt = omega arith in
        ap (λ (n : ℕ). record b { cnt = n }) (sym same)))
      (stop-IsSprinted [] b room (prefix-nil (b.ebuf - b.buf)))
sprint_all-IsSprinted (c ∷ cs) b room = elim (Bool-cases (ltb b.buf b.ebuf)) [
  | inl more ↦
      let b1 : Sprintbuf = record b {
        cnt = b.cnt + 1;
        memory = update b.memory b.buf (c % 256);
        buf = b.buf + 1;
      } in
      let ih = sprint_all-IsSprinted cs b1 (ground arith) in
      let left : b.ebuf - b.buf ≡ suc (b.ebuf - (b.buf + 1)) = ground arith in
      rw (sprintputch-room c b (ground arith)) record {
        count = omega (arith, ih.count);
        string = rw left (ih.before b.buf (omega arith) ∙ ground arith, ih.string);
        before = λ a h. ih.before a (omega arith) ∙ ground arith;
        behind = λ a h. ih.behind a h ∙ ground arith;
      }
  | inr full ↦
      let none_left : b.ebuf - b.buf ≡ 0 = ground arith in
      subst (IsSprinted (c ∷ cs) b) (sym (sprint_all-full (c ∷ cs) b (ground arith)))
        (stop-IsSprinted (c ∷ cs) b room (rw none_left refl))
]

-- vsnprintf into n bytes, where the arguments fit the format, so that vprintfmt puts characters: it returns the number of all characters, the
-- buffer holds as many of them as fit, with a 0 behind them, and no byte outside the buffer is written.
pub vsnprintf-bounded :
    (m : ℕ → ℕ) (buf n : ℕ) (fmt : List ℕ) (args : List Arg) (out : List ℕ)
    → vprintfmt (suc (length fmt)) fmt args ≡ some out
    → 0 < buf
    → 0 < n
    → n < 2 ^ 31
    → (m' : ℕ → ℕ) × (vsnprintf m buf n fmt args ≡ some (val (length out), m'))
      × Spells m' buf (prefix (n - 1) out)
      × ((a : ℕ) → (a < buf) ⊎ (buf + n ≤ a) → m' a ≡ m a)
unfolding vsnprintf
vsnprintf-bounded m buf n fmt args out printed pos some_room small =
    let start : Sprintbuf = record { memory = m; buf = buf; ebuf = buf + n - 1; cnt = 0 } in
    let r = sprint_all-IsSprinted out start (omega arith) in
    let good : (buf == 0 || (n == 0 || leb (2 ^ 31) n)) ≡ false = ground arith in
    let count : (sprint_all out start).cnt ≡ length out = r.count ∙ omega arith in
    let places : buf + n - 1 - buf ≡ n - 1 = omega arith in
    (
      ended (sprint_all out start),
      rw (good, printed, count) refl,
      rw places at r.string,
      λ a h. elim h [ inl low ↦ r.before a low | inr high ↦ r.behind a (omega arith) ],
    )
