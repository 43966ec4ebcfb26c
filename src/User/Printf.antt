-- ===== src/User/Printf.antt =====
-- lib/printf.c: vcprintf of user programs, which collects the characters in a buffer and passes the
-- buffer to sys_cputs when it is full.
use pmake_os.Base.{
  ℕ, suc, ◌+◌, ◌%◌, ◌≤◌, ◌<◌, ◌≡◌, refl, sym, ap, ◌∙◌, inl, inr, some, none, Option, List, [], ◌∷◌,
  ◌++◌, map, All, bytes, bytes-snoc, length-bytes, arith, length, ◌==◌, if◌then◌else◌, update,
  Bool-cases,
}
use mathlib.Core.List.{append-nil, append_assoc}
use pmake_os.Printf.{Arg, vprintfmt}

-- struct printbuf, with the strings that sys_cputs got so far.
pub record Printbuf : Type 0 where
  pub idx : ℕ
  pub cnt : ℕ
  pub buf : ℕ → ℕ
  pub sent : List (List ℕ)

unfoldable pub flush : Printbuf → Printbuf
flush b = record b { sent = b.sent ++ bytes b.buf 0 b.idx ∷ [] }

unfoldable pub putch : ℕ → Printbuf → Printbuf
unfolding flush
putch ch b =
    let b1 = record b { buf = update b.buf b.idx (ch % 256); idx = b.idx + 1 } in
    let b2 = if b1.idx == 255 then record (flush b1) { idx = 0 } else b1 in
    record b2 { cnt = b2.cnt + 1 }

unfoldable pub put_all : List ℕ → Printbuf → Printbuf
unfolding putch
put_all [] b = b
put_all (c ∷ cs) b = put_all cs (putch c b)

-- The strings given to sys_cputs, and the number that is returned.
unfoldable pub vcprintf : List ℕ → List Arg → Option (List (List ℕ) × ℕ)
unfolding put_all flush
vcprintf fmt args = elim (vprintfmt (suc (length fmt)) fmt args) [
  | none ↦ none
  | some out ↦
      let b = put_all out (record { idx = 0; cnt = 0; buf = λ i. 0; sent = [] }) in
      some ((flush b).sent, b.cnt)
]

-- The characters that sys_cputs got, in their order.
abbrev pub joined : List (List ℕ) → List ℕ
joined [] = []
joined (s ∷ ss) = s ++ joined ss

joined-append : (xs ys : List (List ℕ)) → joined (xs ++ ys) ≡ joined xs ++ joined ys
joined-append [] ys = refl
joined-append (x ∷ xs) ys = rw (joined-append xs ys, append_assoc x (joined xs) (joined ys)) refl

-- What the buffer state has printed so far, the buffer included.
abbrev text : Printbuf → List ℕ
text b = joined b.sent ++ bytes b.buf 0 b.idx

record IsCollected (cs : List ℕ) (b b' : Printbuf) : Type 0 where
  room : b'.idx < 255
  count : b'.cnt ≡ b.cnt + length cs
  printed : text b' ≡ text b ++ map (λ c. c % 256) cs
  short : All (λ s. length s ≤ 255) b'.sent

All-snoc {ℓ κ} :
    {A : Type ℓ} (P : A → Type κ) (xs : List A) (x : A) → All P xs → P x → All P (xs ++ x ∷ [])
All-snoc P [] x h p = (p, tt)
All-snoc P (y ∷ xs) x h p = (h.0, All-snoc P xs x h.1 p)

flush-text : (b : Printbuf) → joined (flush b).sent ≡ text b
unfolding flush
flush-text b =
    rw (joined-append b.sent (bytes b.buf 0 b.idx ∷ []), append-nil (bytes b.buf 0 b.idx)) refl

flush-short :
    (b : Printbuf)
    → b.idx ≤ 255
    → All (λ s. length s ≤ 255) b.sent
    → All (λ s. length s ≤ 255) (flush b).sent
unfolding flush
flush-short b room short =
    All-snoc (λ s. length s ≤ 255) b.sent _ short (omega (arith, length-bytes b.buf 0 b.idx))

putch-IsCollected :
    (c : ℕ) (b : Printbuf)
    → b.idx < 255
    → All (λ s. length s ≤ 255) b.sent
    → IsCollected (c ∷ []) b (putch c b)
unfolding putch
putch-IsCollected c b room short =
    let b1 : Printbuf = record b { buf = update b.buf b.idx (c % 256); idx = b.idx + 1 } in
    let more_text : bytes b1.buf 0 (b.idx + 1) ≡ bytes b1.buf 0 (suc b.idx) =
      ap (bytes b1.buf 0) {y = suc b.idx} (omega arith) in
    let longer : text b1 ≡ text b ++ (c % 256) ∷ [] =
      ap (λ (s : List ℕ). joined b.sent ++ s)
        (more_text ∙ bytes-snoc b.buf 0 b.idx b.idx (c % 256) (omega arith))
      ∙ sym (append_assoc (joined b.sent) (bytes b.buf 0 b.idx) ((c % 256) ∷ [])) in
    elim (Bool-cases (b.idx + 1 == 255)) [
      | inl full ↦ rw full (record {
        room = omega arith;
        count = omega arith;
        printed = append-nil _ ∙ flush-text b1 ∙ longer;
        short = flush-short b1 (omega arith) short;
      })
      | inr more ↦
          rw more
            (record { room = ground arith; count = omega arith; printed = longer; short = short })
    ]

put_all-IsCollected :
    (cs : List ℕ) (b : Printbuf)
    → b.idx < 255
    → All (λ s. length s ≤ 255) b.sent
    → IsCollected cs b (put_all cs b)
unfolding put_all
put_all-IsCollected [] b room short = record {
  room = room;
  count = omega arith;
  printed = sym (append-nil (text b));
  short = short;
}
put_all-IsCollected (c ∷ cs) b room short =
    let one = putch-IsCollected c b room short in
    let ih = put_all-IsCollected cs (putch c b) one.room one.short in
    record {
      room = ih.room;
      count = omega (arith, one.count, ih.count);
      printed =
          ih.printed
          ∙ ap (λ (t : List ℕ). t ++ map (λ d. d % 256) cs) one.printed
          ∙ append_assoc (text b) ((c % 256) ∷ []) (map (λ d. d % 256) cs);
      short = ih.short;
    }

-- vcprintf of user programs, where the arguments fit the format, so that vprintfmt puts characters:
-- it returns the number of characters, the
-- strings given to sys_cputs make up just the characters, as bytes and in their order, and none of
-- these strings is longer than 255 bytes.
pub vcprintf-sends :
    (fmt : List ℕ) (args : List Arg) (out : List ℕ)
    → vprintfmt (suc (length fmt)) fmt args ≡ some out
    → (sent : List (List ℕ)) × (vcprintf fmt args ≡ some (sent, length out))
      × (joined sent ≡ map (λ c. c % 256) out)
      × All (λ s. length s ≤ 255) sent
unfolding vcprintf
vcprintf-sends fmt args out printed =
    let start : Printbuf = record { idx = 0; cnt = 0; buf = λ i. 0; sent = [] } in
    let r = put_all-IsCollected out start (omega arith) tt in
    let count : (put_all out start).cnt ≡ length out = r.count ∙ omega arith in
    (
      (flush (put_all out start)).sent,
      rw (printed, vcprintf, count) refl,
      flush-text (put_all out start) ∙ r.printed,
      flush-short (put_all out start) (omega (arith, r.room)) r.short,
    )
