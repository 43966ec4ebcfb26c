-- ===== src/Console.antt =====
-- kern/console.c: the input buffer, the text display and the keyboard. A device is what the reads of
-- its ports give, one entry for each: the serial line the bytes that have come in, the keyboard the
-- status and the byte. Output ports are not part of the state.
pub mod Keymap
pub mod Keyboard
pub mod Queue
pub mod Display
use pmake_os.Base.{
  ℕ, zero, suc, ◌+◌, ◌-◌, ◌*◌, ◌/◌, ◌%◌, ◌^◌, Bool, true, false, ◌&&◌, ◌||◌, not, Option, none,
  some, List, [], ◌∷◌, ltb, leb, ◌==◌, if◌then◌else◌, update,
}

abbrev pub consbufsize : ℕ
consbufsize = 512

-- The struct `cons`.
pub record Cons : Type 0 where
  pub buf : ℕ → ℕ
  pub rpos : ℕ
  pub wpos : ℕ

-- One round of the loop of cons_intr, for a result other than -1.
unfoldable pub cons_put : ℕ → Cons → Cons
cons_put c s = if c == 0 then s else record s {
  buf = update s.buf s.wpos (c % 256);
  wpos = if s.wpos + 1 == consbufsize then 0 else s.wpos + 1;
}

-- cons_intr, for the results that `proc` gives before its first -1.
unfoldable pub cons_intr : List ℕ → Cons → Cons
cons_intr [] s = s
cons_intr (c ∷ cs) s = cons_intr cs (cons_put c s)

-- serial_intr: `waiting` are the bytes that the line status register announces one after the other.
unfoldable pub serial_intr : Bool → List ℕ → Cons → Cons
serial_intr serial_exists waiting s = if serial_exists then cons_intr waiting s else s

-- The end of cons_getc, behind the polls of the devices: the next character, or 0.
unfoldable pub cons_take : Cons → ℕ × Cons
cons_take s =
    if not (s.rpos == s.wpos)
    then (s.buf s.rpos, record s { rpos = if s.rpos + 1 == consbufsize then 0 else s.rpos + 1 })
    else (0, s)

abbrev pub crt_cols : ℕ
crt_cols = 80

abbrev pub crt_size : ℕ
crt_size = 2000

-- The text display: its cells, and the cursor.
pub record Crt : Type 0 where
  pub crt_buf : ℕ → ℕ
  pub crt_pos : ℕ

-- A scroll at the end of cga_putc, where the cursor has left the display.
unfoldable pub scroll : Crt → Crt
scroll s =
    if leb crt_size s.crt_pos
    then record {
      crt_buf = λ i.
          if ltb i (crt_size - crt_cols)
          then s.crt_buf (i + crt_cols)
          else if ltb i crt_size
          then 0x0720
          else s.crt_buf i;
      crt_pos = s.crt_pos - crt_cols;
    }
    else s

-- Black on white where no attribute is given.
unfoldable pub attributed : ℕ → ℕ
attributed c = if c / 256 == 0 then c + 0x0700 else c

-- What the switch of cga_putc does for a character that is no tab. `c` is the 32-bit pattern of the
-- argument, a cell has 16 bits.
unfoldable pub draw : ℕ → Crt → Crt
draw c s =
    if c % 256 == 8
    then (if ltb 0 s.crt_pos
        then record {
          crt_buf = update s.crt_buf (s.crt_pos - 1) ((c / 256 * 256 + 32) % 2 ^ 16);
          crt_pos = s.crt_pos - 1;
        }
        else s)
    else if c % 256 == 10
    then record s {
      crt_pos = (s.crt_pos + crt_cols) % 2 ^ 16 - (s.crt_pos + crt_cols) % 2 ^ 16 % crt_cols;
    }
    else if c % 256 == 13
    then record s { crt_pos = s.crt_pos - s.crt_pos % crt_cols }
    else record {
      crt_buf = update s.crt_buf s.crt_pos (c % 2 ^ 16);
      crt_pos = (s.crt_pos + 1) % 2 ^ 16;
    }

-- cga_putc of a character that is no tab.
unfoldable pub cga_char : ℕ → Crt → Crt
cga_char c s = scroll (draw (attributed c) s)

-- n times cons_putc of a blank, as far as the display shows it.
unfoldable pub blanks : ℕ → Crt → Crt
blanks zero s = s
blanks (suc n) s = blanks n (cga_char 32 s)

unfoldable pub cga_putc : ℕ → Crt → Crt
unfolding scroll
cga_putc c s = if attributed c % 256 == 9 then scroll (blanks 5 s) else cga_char c s
