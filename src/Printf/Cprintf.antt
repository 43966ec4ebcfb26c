-- ===== src/Printf/Cprintf.antt =====
-- kern/printf.c: vcprintf of the kernel. Its characters are the ones given to cputchar.
use pmake_os.Base.{suc, length, ℕ, ◌≡◌, refl, some, none, Option, List, [], ◌∷◌, ◌++◌}
use mathlib.Core.List.{append-nil, append_assoc}
use pmake_os.Printf.{Arg, vprintfmt}

-- The characters so far, and the counter of vcprintf.
pub record Printed : Type 0 where
  pub chars : List ℕ
  pub cnt : ℕ

-- `*cnt++` steps putch's own copy of the counter's address, and leaves the counter.
unfoldable pub putch : ℕ → Printed → Printed
putch ch p = record p { chars = p.chars ++ ch ∷ [] }

unfoldable pub put_all : List ℕ → Printed → Printed
unfolding putch
put_all [] p = p
put_all (c ∷ cs) p = put_all cs (putch c p)

-- The characters, and the number that is returned.
unfoldable pub vcprintf : List ℕ → List Arg → Option (List ℕ × ℕ)
unfolding put_all
vcprintf fmt args = elim (vprintfmt (suc (length fmt)) fmt args) [
  | none ↦ none
  | some out ↦ let p = put_all out (record { chars = []; cnt = 0 }) in some (p.chars, p.cnt)
]

put_all-chars : (cs : List ℕ) (p : Printed) → put_all cs p ≡ record p { chars = p.chars ++ cs }
unfolding put_all putch
put_all-chars [] p = rw (append-nil p.chars) refl
put_all-chars (c ∷ cs) p =
    rw (put_all-chars cs (record p { chars = p.chars ++ c ∷ [] }), append_assoc p.chars (c ∷ []) cs)
      refl

-- vcprintf of the kernel gives cputchar the characters of the format in their order, and returns 0
-- whatever it printed, since `*cnt++` counts nothing.
pub vcprintf-zero :
    (fmt : List ℕ) (args : List Arg) (out : List ℕ)
    → vprintfmt (suc (length fmt)) fmt args ≡ some out
    → vcprintf fmt args ≡ some (out, 0)
unfolding vcprintf
vcprintf-zero fmt args out printed =
    rw (printed, vcprintf, put_all-chars out (record { chars = []; cnt = 0 })) refl
