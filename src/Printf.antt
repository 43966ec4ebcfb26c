-- ===== src/Printf.antt =====
-- vprintfmt and vsnprintf of lib/printfmt.c. A format and a string are lists of their bytes before the
-- byte 0. The characters that are put come as a list; it is none where an argument has not the type
-- that the format asks for, or the fuel is not above the length of the format.
pub mod Buffer
pub mod Text
pub mod Cprintf
pub mod Fuel
use pmake_os.Base.{
  ℕ, zero, suc, ◌+◌, ◌-◌, ◌*◌, ◌%◌, ◌^◌, Bool, true, false, ◌&&◌, ◌||◌, not, Option, none, some,
  List, [], ◌∷◌, ◌++◌, map, ltb, leb, ◌==◌, if◌then◌else◌, is_some, length, update,
}
use pmake_os.Kernel.Ret.{Ret, val, err, e_inval}
use pmake_os.Number.{printnum, pad}

-- An argument: a value of 32 bits or of 64, or a string, which may be NULL.
pub data Arg : Type 0 where
  int : ℕ → Arg
  wide : ℕ → Arg
  str : Option (List ℕ) → Arg

-- The variables of an escape sequence; a negative width or precision is none.
pub record Spec : Type 0 where
  pub padc : ℕ
  pub width : Option ℕ
  pub precision : Option ℕ
  pub lflag : ℕ
  pub altflag : Bool

abbrev pub plain : Spec
plain = record { padc = 32; width = none; precision = none; lflag = 0; altflag = false }

-- A number of at most 2^31 - 1 as a signed one.
abbrev pub signed : ℕ → Option ℕ
signed a = if ltb a (2 ^ 31) then some a else none

-- process_precision
abbrev pub process_precision : Option ℕ → Spec → Spec
process_precision p s = elim s.width [
  | none ↦ record s { width = p; precision = none }
  | some w ↦ record s { precision = p }
]

abbrev is_digit : ℕ → Bool
is_digit c = leb 48 c && leb c 57

-- A digit of a width that is being read ends it or goes on with it.
abbrev settle : Option ℕ → Spec → Spec
settle none s = s
settle (some w) s = process_precision (some w) s

-- The state after one character of the flags: the number that is being read, the variables and the
-- arguments; none for any other character.
unfoldable pub flag_first : Spec → ℕ → List Arg → Option (Option ℕ × Spec × List Arg)
flag_first s c args =
    if c == 45
    then some (none, record s { padc = 45 }, args)
    else if c == 48
    then some (none, record s { padc = 48 }, args)
    else if is_digit c
    then some (some (c - 48), s, args)
    else if c == 46
    then some (none, (if is_some s.width then s else record s { width = some 0 }), args)
    else if c == 35
    then some (none, record s { altflag = true }, args)
    else if c == 108
    then some (none, record s { lflag = s.lflag + 1 }, args)
    else if c == 42
    then elim args [
      | [] ↦ none
      | a ∷ rest ↦ elim a [
        | int v ↦ some (none, process_precision (signed v) s, rest)
        | wide v ↦ none
        | str p ↦ none
      ]
    ]
    else none

unfoldable pub flag_step : Option ℕ → Spec → ℕ → List Arg → Option (Option ℕ × Spec × List Arg)
unfolding flag_first
flag_step none s c args = flag_first s c args
flag_step (some w) s c args =
    if is_digit c
    then some (some (w * 10 + (c - 48)), s, args)
    else flag_first (process_precision (some w) s) c args

-- The flags at the head of the format, with what follows them.
unfoldable pub flags : Option ℕ → Spec → List ℕ → List Arg → Spec × List ℕ × List Arg
unfolding flag_step
flags w s [] args = (settle w s, [], args)
flags w s (c ∷ cs) args = elim (flag_step w s c args) [
  | none ↦ (settle w s, c ∷ cs, args)
  | some (w', s', args') ↦ flags w' s' cs args'
]

abbrev pub maxerror : ℕ
maxerror = 9

-- The strings of error_string from the error 1 on; there is none for 0.
abbrev error_strings : List (List ℕ)
error_strings =
    (117 ∷ 110 ∷ 115 ∷ 112 ∷ 101 ∷ 99 ∷ 105 ∷ 102 ∷ 105 ∷ 101 ∷ 100 ∷ 32 ∷ 101 ∷ 114 ∷ 114 ∷ 111
      ∷ 114 ∷ [])
    ∷ (98 ∷ 97 ∷ 100 ∷ 32 ∷ 101 ∷ 110 ∷ 118 ∷ 105 ∷ 114 ∷ 111 ∷ 110 ∷ 109 ∷ 101 ∷ 110 ∷ 116 ∷ [])
    ∷ (105 ∷ 110 ∷ 118 ∷ 97 ∷ 108 ∷ 105 ∷ 100 ∷ 32 ∷ 112 ∷ 97 ∷ 114 ∷ 97 ∷ 109 ∷ 101 ∷ 116 ∷ 101
        ∷ 114 ∷ [])
    ∷ (111 ∷ 117 ∷ 116 ∷ 32 ∷ 111 ∷ 102 ∷ 32 ∷ 109 ∷ 101 ∷ 109 ∷ 111 ∷ 114 ∷ 121 ∷ [])
    ∷ (111 ∷ 117 ∷ 116 ∷ 32 ∷ 111 ∷ 102 ∷ 32 ∷ 101 ∷ 110 ∷ 118 ∷ 105 ∷ 114 ∷ 111 ∷ 110 ∷ 109 ∷ 101
        ∷ 110 ∷ 116 ∷ 115 ∷ [])
    ∷ (115 ∷ 101 ∷ 103 ∷ 109 ∷ 101 ∷ 110 ∷ 116 ∷ 97 ∷ 116 ∷ 105 ∷ 111 ∷ 110 ∷ 32 ∷ 102 ∷ 97 ∷ 117
        ∷ 108 ∷ 116 ∷ [])
    ∷ (101 ∷ 110 ∷ 118 ∷ 32 ∷ 105 ∷ 115 ∷ 32 ∷ 110 ∷ 111 ∷ 116 ∷ 32 ∷ 114 ∷ 101 ∷ 99 ∷ 118 ∷ 105
        ∷ 110 ∷ 103 ∷ [])
    ∷ (117 ∷ 110 ∷ 101 ∷ 120 ∷ 112 ∷ 101 ∷ 99 ∷ 116 ∷ 101 ∷ 100 ∷ 32 ∷ 101 ∷ 110 ∷ 100 ∷ 32 ∷ 111
        ∷ 102 ∷ 32 ∷ 102 ∷ 105 ∷ 108 ∷ 101 ∷ [])
    ∷ []

abbrev nth : List (List ℕ) → ℕ → Option (List ℕ)
nth [] i = none
nth (x ∷ xs) zero = some x
nth (x ∷ xs) (suc i) = nth xs i

unfoldable pub error_string : ℕ → Option (List ℕ)
error_string zero = none
error_string (suc e) = nth error_strings e

-- The first characters of a string, all of them where there is no precision.
abbrev pub prefix : ℕ → List ℕ → List ℕ
prefix zero cs = []
prefix (suc n) [] = []
prefix (suc n) (c ∷ cs) = c ∷ prefix n cs

abbrev shown : Spec → ℕ → ℕ
shown s c = if s.altflag && not (leb 32 c && leb c 126) then 63 else c

-- The characters of a string: with the padding in front, or behind it where the flag is '-'.
unfoldable pub put_string : Spec → List ℕ → List ℕ
put_string s p =
    let cs : List ℕ = elim s.precision [ none ↦ p | some n ↦ prefix n p ] in
    let room : ℕ = elim s.width [ none ↦ 0 | some w ↦ w - length cs ] in
    if s.padc == 45 then map (shown s) cs ++ pad 32 room else pad s.padc room ++ map (shown s) cs

-- printnum, on fuel that suffices.
unfoldable pub put_number : Spec → ℕ → ℕ → Option (List ℕ)
put_number s num base = printnum (num + 1) num base (elim s.width [ none ↦ 0 | some w ↦ w ]) s.padc

-- getuint and getint: the number, and whether it is negative.
unfoldable pub getuint : Spec → Arg → Option ℕ
getuint s (int v) = if leb 2 s.lflag then none else some v
getuint s (wide v) = if leb 2 s.lflag then some v else none
getuint s (str p) = none

unfoldable pub getint : Spec → Arg → Option (Bool × ℕ)
getint s (int v) =
    if leb 2 s.lflag
    then none
    else if ltb v (2 ^ 31)
    then some (false, v)
    else some (true, 2 ^ 32 - v)
getint s (wide v) =
    if leb 2 s.lflag
    then (if ltb v (2 ^ 63) then some (false, v) else some (true, 2 ^ 64 - v))
    else none
getint s (str p) = none

abbrev pub prepend : List ℕ → Option (List ℕ) → Option (List ℕ)
prepend cs none = none
prepend cs (some ds) = some (cs ++ ds)

abbrev put_signed : Spec → Option (Bool × ℕ) → Option (List ℕ)
unfolding put_number
put_signed s none = none
put_signed s (some (neg, num)) = prepend (if neg then 45 ∷ [] else []) (put_number s num 10)

abbrev put_unsigned : Spec → ℕ → Option ℕ → Option (List ℕ)
unfolding put_number
put_unsigned s base none = none
put_unsigned s base (some num) = put_number s num base

-- `%e`: the string of the error, or "error " and its number.
unfoldable pub put_error : Arg → Option (List ℕ)
unfolding error_string put_string put_number
put_error (int v) =
    let err = if ltb v (2 ^ 31) then v else 2 ^ 32 - v in
    elim (if leb maxerror err then none else error_string err) [
      | none ↦ prepend (101 ∷ 114 ∷ 114 ∷ 111 ∷ 114 ∷ 32 ∷ []) (put_number plain err 10)
      | some p ↦ some (put_string plain p)
    ]
put_error (wide v) = none
put_error (str p) = none

abbrev put_pointer : Spec → Arg → Option (List ℕ)
unfolding put_number
put_pointer s (int v) = prepend (48 ∷ 120 ∷ []) (put_number s v 16)
put_pointer s (wide v) = none
put_pointer s (str p) = none

abbrev put_char : Arg → Option (List ℕ)
put_char (int v) = some (v ∷ [])
put_char (wide v) = none
put_char (str p) = none

abbrev put_text : Spec → Arg → Option (List ℕ)
unfolding put_string
put_text s (int v) = none
put_text s (wide v) = none
put_text s (str none) = some (put_string s (40 ∷ 110 ∷ 117 ∷ 108 ∷ 108 ∷ 41 ∷ []))
put_text s (str (some p)) = some (put_string s p)

-- The conversions that take an argument.
abbrev takes_arg : ℕ → Bool
takes_arg c =
    c == 99
    || (c == 101
        || (c == 115
            || (c == 100 || (c == 117 || (c == 111 || (c == 112 || (c == 120 || c == 42)))))))

unfoldable pub convert : Spec → ℕ → Arg → Option (List ℕ)
unfolding getint getuint put_error
convert s c a =
    if c == 99
    then put_char a
    else if c == 101
    then put_error a
    else if c == 115
    then put_text s a
    else if c == 100
    then put_signed s (getint s a)
    else if c == 117
    then put_unsigned s 10 (getuint s a)
    else if c == 111
    then put_unsigned s 8 (getuint s a)
    else if c == 112
    then put_pointer s a
    else if c == 120
    then put_unsigned s 16 (getuint s a)
    else none

-- What follows a '%' before `cs`, for its flags, the rest behind these and the arguments that are left;
-- `go` prints the rest of a format. A sequence that is not known is put as it is.
unfoldable pub put_escape :
    (List ℕ → List Arg → Option (List ℕ)) → List ℕ → Spec → List ℕ → List Arg → Option (List ℕ)
unfolding convert
put_escape go cs s [] args = prepend (37 ∷ []) (go cs args)
put_escape go cs s (d ∷ ds) args =
    if d == 37
    then prepend (37 ∷ []) (go ds args)
    else if takes_arg d
    then elim args [
      | [] ↦ none
      | a ∷ args' ↦ elim (convert s d a) [ none ↦ none | some out ↦ prepend out (go ds args') ]
    ]
    else prepend (37 ∷ []) (go cs args)

-- The main loop: text up to a '%' is put as it is. A format is shorter behind each round.
unfoldable pub vprintfmt : ℕ → List ℕ → List Arg → Option (List ℕ)
unfolding flags put_escape
vprintfmt zero fmt args = none
vprintfmt (suc fuel) [] args = some []
vprintfmt (suc fuel) (c ∷ cs) args =
    if not (c == 37)
    then prepend (c ∷ []) (vprintfmt fuel cs args)
    else (let (s, rest, args') = flags none plain cs args in
        put_escape (vprintfmt fuel) cs s rest args')

-- struct sprintbuf with the memory that it points to.
pub record Sprintbuf : Type 0 where
  pub memory : ℕ → ℕ
  pub buf : ℕ
  pub ebuf : ℕ
  pub cnt : ℕ

unfoldable pub sprintputch : ℕ → Sprintbuf → Sprintbuf
sprintputch ch b =
    if ltb b.buf b.ebuf
    then record b { cnt = b.cnt + 1; memory = update b.memory b.buf (ch % 256); buf = b.buf + 1 }
    else record b { cnt = b.cnt + 1 }

unfoldable pub sprint_all : List ℕ → Sprintbuf → Sprintbuf
unfolding sprintputch
sprint_all [] b = b
sprint_all (c ∷ cs) b = sprint_all cs (sprintputch c b)

-- vsnprintf: what is returned, and the memory; none where an argument does not fit the format. The fuel
-- suffices.
unfoldable pub vsnprintf : (ℕ → ℕ) → ℕ → ℕ → List ℕ → List Arg → Option (Ret × (ℕ → ℕ))
unfolding vprintfmt sprint_all
vsnprintf m buf n fmt args =
    if buf == 0 || (n == 0 || leb (2 ^ 31) n)
    then some (err e_inval, m)
    else elim (vprintfmt (suc (length fmt)) fmt args) [
      | none ↦ none
      | some out ↦
          let start : Sprintbuf = record { memory = m; buf = buf; ebuf = buf + n - 1; cnt = 0 } in
          let b = sprint_all out start in some (val b.cnt, update b.memory b.buf 0)
    ]
