-- ===== src/Monitor.antt =====
-- kern/monitor.c: the commands of the kernel monitor; and lib/readline.c, which reads its lines. A
-- character that getchar returns is the 32-bit pattern of an int. Strings lie in memory as in Str, and the
-- loops that end only at the byte 0 run on fuel.
pub mod Readline
pub mod Words
use pmake_os.Base.{
  ℕ, zero, suc, ◌+◌, ◌-◌, ◌%◌, ◌^◌, Bool, true, false, ◌&&◌, ◌||◌, not, Option, none, some, List,
  [], ◌∷◌, ◌++◌, length, leb, ltb, ◌==◌, if◌then◌else◌, update,
}
use pmake_os.Str.{Memory}

abbrev pub buflen : ℕ
buflen = 1024

-- The variables of readline, and the characters that it echoed.
pub record Line : Type 0 where
  pub i : ℕ
  pub buf : Memory
  pub echoed : List ℕ

-- What one character does: the line goes on, it is complete, or NULL is returned.
pub data Pressed : Type 0 where
  more : Line → Pressed
  complete : Line → Pressed
  failed : Pressed

unfoldable pub echo : Bool → ℕ → List ℕ → List ℕ
echo echoing c echoed = if echoing then echoed ++ c ∷ [] else echoed

-- '\b' and '\x7f'
abbrev pub is_erase : ℕ → Bool
is_erase c = c == 8 || c == 127

-- One round of the loop.
unfoldable pub press : Bool → ℕ → Line → Pressed
press echoing c s =
    if leb (2 ^ 31) c
    then failed
    else if is_erase c && ltb 0 s.i
    then more (record s { i = s.i - 1; echoed = echo echoing 8 s.echoed })
    else if leb b' ' c && ltb s.i (buflen - 1)
    then more (record s {
      buf = update s.buf s.i (c % 256);
      i = s.i + 1;
      echoed = echo echoing c s.echoed;
    })
    else if c == 10 || c == 13
    then complete (record s { buf = update s.buf s.i 0; echoed = echo echoing 10 s.echoed })
    else more s

-- The result, with the characters that wait still, or none while the characters do not suffice.
unfoldable pub readline_loop : Bool → List ℕ → Line → Option (Option Line × List ℕ)
readline_loop echoing [] s = none
readline_loop echoing (c ∷ cs) s = elim (press echoing c s) [
  | more s1 ↦ readline_loop echoing cs s1
  | complete s1 ↦ some (some s1, cs)
  | failed ↦ some (none, cs)
]

unfoldable pub readline : Bool → Memory → List ℕ → Option (Option Line × List ℕ)
readline echoing buf keys = readline_loop echoing keys (record { i = 0; buf = buf; echoed = [] })

abbrev pub maxargs : ℕ
maxargs = 16

-- strchr(WHITESPACE, c) for a character that is not 0.
abbrev pub is_space : ℕ → Bool
is_space c = c == 9 || (c == 13 || (c == 10 || c == 32))

unfoldable pub gobble : ℕ → Memory → ℕ → Option (Memory × ℕ)
gobble zero m p = none
gobble (suc fuel) m p =
    let rest = gobble fuel (update m p 0) (p + 1) in
    if not (m p == 0) && is_space (m p) then rest else some (m, p)

unfoldable pub scan_past : ℕ → Memory → ℕ → Option ℕ
scan_past zero m p = none
scan_past (suc fuel) m p =
    let rest = scan_past fuel m (p + 1) in
    if not (m p == 0) && not (is_space (m p)) then rest else some p

-- argv at the end of the loop, or too many arguments; and the memory.
pub data Parsed : Type 0 where
  args : List ℕ → Memory → Parsed
  too_many : Memory → Parsed

-- The loop of runcmd, with the arguments so far.
unfoldable pub parse : ℕ → Memory → ℕ → List ℕ → Option Parsed
parse zero m p argv = none
parse (suc fuel) m p argv = elim (gobble (suc fuel) m p) [
  | none ↦ none
  | some (m1, p1) ↦
      if m1 p1 == 0
      then some (args argv m1)
      else if length argv == maxargs - 1
      then some (too_many m1)
      else elim (scan_past (suc fuel) m1 p1) [
        | none ↦ none
        | some p2 ↦ parse fuel m1 p2 (argv ++ p1 ∷ [])
      ]
]

-- strcmp finds no difference between the string at p and a constant one.
unfoldable pub is_string : Memory → ℕ → List ℕ → Bool
is_string m p [] = m p == 0
is_string m p (c ∷ cs) = let rest = is_string m (p + 1) cs in (m p == c) && rest

abbrev pub help_name : List ℕ
help_name = b'h' ∷ b'e' ∷ b'l' ∷ b'p' ∷ []

abbrev pub kerninfo_name : List ℕ
kerninfo_name = b'k' ∷ b'e' ∷ b'r' ∷ b'n' ∷ b'i' ∷ b'n' ∷ b'f' ∷ b'o' ∷ []

-- What runcmd does before it returns: nothing, a message, or a call of mon_help or mon_kerninfo.
pub data Done : Type 0 where
  idle : Done
  too_many_args : Done
  unknown : Done
  ran_help : Done
  ran_kerninfo : Done

unfoldable pub invoke : Memory → List ℕ → Done
unfolding is_string
invoke m [] = idle
invoke m (p ∷ ps) =
    if is_string m p help_name
    then ran_help
    else if is_string m p kerninfo_name
    then ran_kerninfo
    else unknown

-- What runcmd does, with the arguments and the memory that it does it with. It returns 0.
unfoldable pub runcmd : ℕ → Memory → ℕ → Option (Done × List ℕ × Memory)
unfolding parse invoke
runcmd fuel m buf = elim (parse fuel m buf []) [
  | none ↦ none
  | some (args argv m1) ↦ some (invoke m1 argv, argv, m1)
  | some (too_many m1) ↦ some (too_many_args, [], m1)
]
