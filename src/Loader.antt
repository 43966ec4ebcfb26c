-- ===== src/Loader.antt =====
-- boot/main.c: the second part of the boot loader, which reads the kernel from the disk. Addresses
-- are physical. `disk p2 p3 p4 p5 p6 i` is byte i of what the controller hands out after the command
-- to read, where the arguments are the bytes in its ports 0x1F2 to 0x1F6; the loops that wait for the
-- controller end.
pub mod Segments
use pmake_os.Base.{
  ℕ, zero, suc, ◌+◌, ◌-◌, ◌*◌, ◌/◌, ◌%◌, ◌^◌, not, Option, none, some, bit_or, ltb, ◌==◌,
  if◌then◌else◌, update,
}
use pmake_os.Mmu.{u32}
use pmake_os.Str.{Memory}
use pmake_os.Env.Load.{elf_magic}

abbrev pub sectsize : ℕ
sectsize = 512

abbrev pub elfhdr : ℕ
elfhdr = 0x10000

abbrev pub Disk : Type 0
Disk = ℕ → ℕ → ℕ → ℕ → ℕ → ℕ → ℕ

-- insl: n bytes from the controller's buffer to d.
unfoldable pub insl : (ℕ → ℕ) → ℕ → ℕ → ℕ → Memory → Memory
insl sector i zero d m = m
insl sector i (suc n) d m = insl sector (i + 1) n (d + 1) (update m d (sector i))

unfoldable pub readsect : Disk → ℕ → ℕ → Memory → Memory
readsect disk dst offset m =
    insl
      (disk 1 (offset % 256) (offset / 2 ^ 8 % 256) (offset / 2 ^ 16 % 256)
        (bit_or (offset / 2 ^ 24) 0xE0 % 256))
      0 sectsize dst m

-- The loop of readseg, on fuel; none where the fuel does not suffice.
unfoldable pub readseg_loop : Disk → ℕ → ℕ → ℕ → ℕ → Memory → Option Memory
readseg_loop disk zero pa end_pa offset m = none
readseg_loop disk (suc fuel) pa end_pa offset m =
    let rest =
      readseg_loop disk fuel (u32 (pa + sectsize)) end_pa (offset + 1)
        (readsect disk pa offset m) in
    if ltb pa end_pa then rest else some m

-- The fuel is for the sectors between the two addresses. It suffices unless `pa` wraps to 0 before it
-- reaches `end_pa`, and then the loop has no end.
unfoldable pub readseg : Disk → ℕ → ℕ → ℕ → Memory → Option Memory
unfolding readseg_loop
readseg disk pa count offset m =
    let end_pa = u32 (pa + count) in
    let start = pa - pa % sectsize in
    readseg_loop disk ((end_pa - start + (sectsize - 1)) / sectsize + 1) start end_pa
      (offset / sectsize + 1) m

unfoldable pub half_in : Memory → ℕ → ℕ
half_in m a = m a + 256 * m (a + 1)

unfoldable pub word_in : Memory → ℕ → ℕ
unfolding half_in
word_in m a = half_in m a + 65536 * half_in m (a + 2)

-- The n bytes from a on become 0.
unfoldable pub clear : ℕ → ℕ → Memory → Memory
clear zero a m = m
clear (suc n) a m = clear n (a + 1) (update m a 0)

-- One round of the loop over the program headers, for the header at ph. What it clears is not that
-- header.
unfoldable pub boot_segment : Disk → ℕ → Memory → Option Memory
unfolding readseg
boot_segment disk ph m =
    elim (readseg disk (word_in m (ph + 12)) (word_in m (ph + 20)) (word_in m (ph + 4)) m) [
      | none ↦ none
      | some m1 ↦
          let filesz = word_in m1 (ph + 16) in
          some (
            clear (u32 (word_in m1 (ph + 20) + 2 ^ 32 - filesz))
              (u32 (word_in m1 (ph + 12) + filesz)) m1)
    ]

unfoldable pub boot_segments : Disk → ℕ → ℕ → Memory → Option Memory
unfolding boot_segment
boot_segments disk zero ph m = some m
boot_segments disk (suc n) ph m = elim (boot_segment disk ph m) [
  | none ↦ none
  | some m1 ↦ boot_segments disk n (ph + 32) m1
]

-- How the boot loader ends: it calls the entry point, it finds no ELF file, or a loop has no end.
pub data Booted : Type 0 where
  enters : ℕ → Memory → Booted
  bad : Booted
  hangs : Booted

unfoldable pub bootmain : Disk → Memory → Booted
unfolding boot_segments
bootmain disk m = elim (readseg disk elfhdr (sectsize * 8) 0 m) [
  | none ↦ hangs
  | some m1 ↦
      if not (word_in m1 elfhdr == elf_magic)
      then bad
      else elim (boot_segments disk (half_in m1 (elfhdr + 44)) (elfhdr + word_in m1 (elfhdr + 28))
          m1) [ none ↦ hangs | some m2 ↦ enters (word_in m2 (elfhdr + 24)) m2 ]
]
