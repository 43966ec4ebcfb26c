-- ===== src/Examples/Bytes.antt =====
-- The theorems about memory and strings at concrete bytes, and the first page directory.
use pmake_os.Base.{
  ℕ, ◌+◌, ◌-◌, ◌*◌, ◌/◌, ◌^◌, ◌<◌, ◌≡◌, refl, ◌⊎◌, ◌≤◌, [], ◌∷◌, none, some, arith, ltb, ◌==◌,
  if◌then◌else◌,
}
use mathlib.Core.List.{List, ◌++◌}
use pmake_os.Kernel.Ret.{val}
use pmake_os.Printf.{put_escape, flags, flag_step, flag_first, prefix, vprintfmt, vsnprintf}
use pmake_os.Printf.Buffer.{Spells, vsnprintf-bounded}
use pmake_os.Number.{printnum, strtol_digits}
use pmake_os.Number.Decimal.{strtol_digits-printnum}
use pmake_os.Mmu.{kern_base}
use pmake_os.Boot.{entry_pgtable, entry_pgdir, translate, translate-entry_pgdir}
use pmake_os.Str.{Memory, memmove}
use pmake_os.Str.Move.{Replaced, memmove_lem}
use pmake_os.Str.Strings.{IsString}

-- The string "ab" at 16 and at 32.
abbrev bytes : Memory
bytes a =
    if a == 16
    then 97
    else if a == 17
    then 98
    else if a == 32
    then 97
    else if a == 33
    then 98
    else 0

at_16 : IsString bytes 16 2
at_16 = (omega arith, (omega arith, refl))

memmove_lem_example : Replaced 18 16 (λ a. bytes (a + 16 - 18)) bytes (memmove 18 16 16 bytes)
memmove_lem_example = memmove_lem 18 16 16 bytes

-- The directory at 0x10000 and the table at 0x11000.
abbrev boot_word : ℕ → ℕ
boot_word pa =
    if ltb pa 0x11000
    then entry_pgdir 0x11000 ((pa - 0x10000) / 4)
    else entry_pgtable ((pa - 0x11000) / 4)

boot_directory : (i : ℕ) → i < 1024 → boot_word (0x10000 + 4 * i) ≡ entry_pgdir 0x11000 i
boot_directory i h = let e : (0x10000 + 4 * i - 0x10000) / 4 ≡ i = omega arith in ground arith

boot_table : (i : ℕ) → i < 1024 → boot_word (0x11000 + 4 * i) ≡ entry_pgtable i
boot_table i h = let e : (0x11000 + 4 * i - 0x11000) / 4 ≡ i = omega arith in ground arith

translate-entry_pgdir_example : translate boot_word 0x10000 0xF0100000 ≡ (
    if ltb 0xF0100000 0x400000
    then some 0xF0100000
    else if (0xF0100000 / 2 ^ 22) == (kern_base / 2 ^ 22)
    then some (0xF0100000 - kern_base)
    else none)
translate-entry_pgdir_example =
    translate-entry_pgdir boot_word 0x10000 0x11000 0xF0100000 refl boot_directory boot_table
      (omega arith)

strtol_digits-printnum_example :
    (cs : List ℕ) × (printnum 256 255 16 0 32 ≡ some cs)
    × ((rest : List ℕ) → strtol_digits 16 0 (cs ++ rest) ≡ strtol_digits 16 255 rest)
strtol_digits-printnum_example =
    strtol_digits-printnum 256 255 16 32 (omega arith) (omega arith) (omega arith) (omega arith)

vsnprintf-bounded_example :
    (m' : ℕ → ℕ) × (vsnprintf (λ a. 7) 100 2 (104 ∷ 105 ∷ 37 ∷ []) [] ≡ some (val 3, m'))
    × Spells m' 100 (prefix 1 (104 ∷ 105 ∷ 37 ∷ []))
    × ((a : ℕ) → (a < 100) ⊎ (102 ≤ a) → m' a ≡ 7)
unfolding vprintfmt put_escape flags flag_step flag_first
vsnprintf-bounded_example =
    vsnprintf-bounded (λ a. 7) 100 2 (104 ∷ 105 ∷ 37 ∷ []) [] (104 ∷ 105 ∷ 37 ∷ []) refl
      (omega arith) (omega arith) (omega arith)
