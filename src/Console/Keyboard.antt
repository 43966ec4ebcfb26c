-- ===== src/Console/Keyboard.antt =====
-- kbd_proc_data of kern/console.c. The word `shift` is the record of its seven bits.
use pmake_os.Base.{
  ℕ, ◌+◌, ◌-◌, ◌/◌, ◌%◌, ◌<◌, ◌≡◌, Bool, true, false, ◌&&◌, ◌||◌, not, Option, none, some, List, [],
  ◌∷◌, arith, leb, ◌==◌, if◌then◌else◌,
}
use pmake_os.Console.{Cons, cons_put, serial_intr, cons_take}
use pmake_os.Console.Keymap.{normalmap, shiftmap, ctlmap}

pub record Shift : Type 0 where
  pub shift : Bool
  pub ctl : Bool
  pub alt : Bool
  pub capslock : Bool
  pub numlock : Bool
  pub scrolllock : Bool
  pub e0esc : Bool

-- The bit of shiftcode that a scan code has, and the bit of togglecode.
abbrev pub is_shift : ℕ → Bool
is_shift d = d == 0x2A || d == 0x36

abbrev pub is_ctl : ℕ → Bool
is_ctl d = d == 0x1D || d == 0x9D

abbrev pub is_alt : ℕ → Bool
is_alt d = d == 0x38 || d == 0xB8

abbrev pub toggle : Bool → Bool → Bool
toggle b on = if b then not on else on

-- `shift &= ~(shiftcode[d] | E0ESC)`.
unfoldable pub release : ℕ → Shift → Shift
release d s = record s {
  shift = s.shift && not (is_shift d);
  ctl = s.ctl && not (is_ctl d);
  alt = s.alt && not (is_alt d);
  e0esc = false;
}

-- `shift |= shiftcode[d]` and `shift ^= togglecode[d]`, without E0ESC.
unfoldable pub press : ℕ → Shift → Shift
press d s = record {
  shift = s.shift || is_shift d;
  ctl = s.ctl || is_ctl d;
  alt = s.alt || is_alt d;
  capslock = toggle (d == 0x3A) s.capslock;
  numlock = toggle (d == 0x45) s.numlock;
  scrolllock = toggle (d == 0x46) s.scrolllock;
  e0esc = false;
}

-- The character for a code: the table by SHIFT and CTL, and then CAPSLOCK.
unfoldable pub char_of : Shift → ℕ → ℕ
char_of s d =
    let c = if s.ctl then ctlmap d else if s.shift then shiftmap d else normalmap d in
    if s.capslock && (leb 97 c && leb c 122)
    then c - 32
    else if s.capslock && (leb 65 c && leb c 90)
    then c + 32
    else c

-- A byte of the keyboard: the character, or 0, and the new state. Ctrl-Alt-Del writes the port that
-- resets the machine and returns.
unfoldable pub kbd_byte : ℕ → Shift → ℕ × Shift
unfolding release press char_of
kbd_byte d s =
    if d == 0xE0
    then (0, record s { e0esc = true })
    else if leb 128 d
    then (0, release (if s.e0esc then d else d - 128) s)
    else let d' = if s.e0esc then d + 128 else d in let s' = press d' s in (char_of s' d', s')

-- kbd_proc_data: what a read of the status port gives, with the byte that the data port would give.
-- The result none is -1.
unfoldable pub kbd_proc_data : ℕ × ℕ → Shift → Option ℕ × Shift
kbd_proc_data (stat, d) s =
    if stat % 2 == 0
    then (none, s)
    else if not (stat / 32 % 2 == 0)
    then (none, s)
    else let (c, s') = kbd_byte d s in (some c, s')

-- kbd_intr: the loop of cons_intr over kbd_proc_data, for the reads of the port in their order; it
-- ends at the first -1, where the later reads are left.
unfoldable pub kbd_intr : List (ℕ × ℕ) → Shift → Cons → Shift × Cons
kbd_intr [] s k = (s, k)
kbd_intr (r ∷ rs) s k =
    let (c, s') = kbd_proc_data r s in
    elim c [ none ↦ (s', k) | some c ↦ kbd_intr rs s' (cons_put c k) ]

-- cons_getc with what the devices give.
unfoldable pub cons_getc : Bool → List ℕ → List (ℕ × ℕ) → Shift → Cons → ℕ × Shift × Cons
cons_getc serial_exists waiting reads s k =
    let (s', k') = kbd_intr reads s (serial_intr serial_exists waiting k) in
    let (c, k'') = cons_take k' in (c, s', k'')

-- A key that is pressed and released without an escape code: the locks are toggled by their
-- keys, a modifier of this key is not held any more, and nothing else changes, whatever was held.
pub kbd_byte-press_release :
    (d : ℕ) (s : Shift)
    → d < 96
    → s.e0esc ≡ false
    → (kbd_byte (d + 128) (kbd_byte d s).1 ≡ (
      0,
      record {
        shift = s.shift && not (is_shift d);
        ctl = s.ctl && not (is_ctl d);
        alt = s.alt && not (is_alt d);
        capslock = toggle (d == 0x3A) s.capslock;
        numlock = toggle (d == 0x45) s.numlock;
        scrolllock = toggle (d == 0x46) s.scrolllock;
        e0esc = false;
      },
    ))
unfolding kbd_byte release press
kbd_byte-press_release d s small plain = ground arith
