-- ===== src/Loader/Segments.antt =====
-- readseg puts a piece of the kernel's file at its place.
use pmake_os.Base.{
  some, ℕ, zero, suc, ◌+◌, ◌-◌, ◌*◌, ◌/◌, ◌%◌, ◌^◌, ◌≤◌, ◌<◌, ◌≡◌, refl, ap, ap₂, ◌∙◌, ◌⊎◌, inl,
  inr, arith, bit_or, ltb, leb, ◌==◌, ◌&&◌, if◌then◌else◌, update, true, Bool, Bool-cases,
}
use pmake_os.Mmu.{u32}
use pmake_os.Str.{Memory}
use pmake_os.Loader.{Disk, insl, sectsize, readsect, readseg_loop, readseg}

-- What the controller hands out after the command for one sector in LBA mode: the sector of the
-- number in its four registers, of which the last one gives four bits.
abbrev pub IsLba : Disk → (ℕ → ℕ → ℕ) → Type 0
IsLba disk image =
    (p3 p4 p5 p6 i : ℕ)
    → disk 1 p3 p4 p5 p6 i ≡ image (p3 + p4 * 2 ^ 8 + p5 * 2 ^ 16 + p6 % 16 * 2 ^ 24) i

-- Byte j of the kernel's file, which starts behind the boot sector.
abbrev pub file_byte : (ℕ → ℕ → ℕ) → ℕ → ℕ
file_byte image j = image (j / 512 + 1) (j % 512)

abbrev within : ℕ → ℕ → ℕ → Bool
within a lo n = leb lo a && ltb a (lo + n)

insl_lem :
    (sector : ℕ → ℕ) (i n d : ℕ) (m : Memory) (a : ℕ)
    → insl sector i n d m a ≡ (if within a d n then sector (i + (a - d)) else m a)
unfolding insl
insl_lem sector i zero d m a = ground arith
insl_lem sector i (suc n) d m a =
    let rest = insl_lem sector (i + 1) n (d + 1) (update m d (sector i)) a in
    elim (Bool-cases (within a (d + 1) n)) [
      | inl more ↦
          let at : i + 1 + (a - (d + 1)) ≡ i + (a - d) = ground arith in
          ground (arith, rest, ap sector at)
      | inr here ↦ ground (arith, rest)
    ]

-- The four bits of the last register, at each value.
all_tops : ℕ → Bool
all_tops zero = true
all_tops (suc n) = (bit_or n 0xE0 % 256 % 16 == n) && all_tops n

all_tops_sound : (n h : ℕ) → all_tops n ≡ true → h < n → bit_or h 0xE0 % 256 % 16 ≡ h
unfolding all_tops
all_tops_sound zero h e lt = absurd (omega arith)
all_tops_sound (suc n) h e lt = elim (Bool-cases (h == n)) [
  | inl last ↦ let same : h ≡ n = ground arith in rw same (ground (arith, e))
  | inr before ↦ all_tops_sound n h (ground arith) (ground arith)
]

top_bits : (h : ℕ) → h < 16 → bit_or h 0xE0 % 256 % 16 ≡ h
unfolding all_tops
top_bits h lt = all_tops_sound 16 h refl lt

-- n sectors, one behind the other.
unfoldable read_sectors : Disk → ℕ → ℕ → ℕ → Memory → Memory
read_sectors disk zero pa offset m = m
read_sectors disk (suc n) pa offset m =
    read_sectors disk n (pa + sectsize) (offset + 1) (readsect disk pa offset m)

-- The loop ends behind the sector of the last byte.
readseg_loop-ends :
    (disk : Disk) (fuel n pa end_pa offset : ℕ) (m : Memory)
    → n < fuel
    → pa + n * 512 < 2 ^ 32
    → end_pa ≤ pa + n * 512
    → pa + n * 512 < end_pa + 512
    → readseg_loop disk fuel pa end_pa offset m ≡ some (read_sectors disk n pa offset m)
unfolding readseg_loop read_sectors
readseg_loop-ends disk zero n pa end_pa offset m enough small past last = absurd (omega arith)
readseg_loop-ends disk (suc fuel) zero pa end_pa offset m enough small past last = ground arith
readseg_loop-ends disk (suc fuel) (suc n) pa end_pa offset m enough small past last =
    let more : ltb pa end_pa ≡ true = ground arith in
    let next : u32 (pa + sectsize) ≡ pa + sectsize = omega arith in
    rw (more, next)
      (readseg_loop-ends disk fuel n (pa + sectsize) end_pa (offset + 1) (readsect disk pa offset m)
        (omega arith) (omega arith) (omega arith) (omega arith))

module _ (disk : Disk) (image : ℕ → ℕ → ℕ) (lba : IsLba disk image) where
  readsect-reads :
      (dst offset : ℕ) (m : Memory) (a : ℕ)
      → offset < 2 ^ 28
      → readsect disk dst offset m a ≡ (if within a dst 512 then image offset (a - dst) else m a)
  unfolding readsect
  readsect-reads dst offset m a small =
      let number : offset % 256
            + offset / 2 ^ 8 % 256 * 2 ^ 8
            + offset / 2 ^ 16 % 256 * 2 ^ 16
            + bit_or (offset / 2 ^ 24) 0xE0 % 256 % 16 * 2 ^ 24
          ≡ offset =
        omega (arith, top_bits (offset / 2 ^ 24) (omega arith)) in
      let command = λ (i : ℕ).
        lba (offset % 256) (offset / 2 ^ 8 % 256) (offset / 2 ^ 16 % 256)
          (bit_or (offset / 2 ^ 24) 0xE0 % 256) i
        ∙ ap (λ (s : ℕ). image s i) number in
      insl_lem
        (disk 1 (offset % 256) (offset / 2 ^ 8 % 256) (offset / 2 ^ 16 % 256)
          (bit_or (offset / 2 ^ 24) 0xE0 % 256))
        0 512 dst m a
      ∙ ap (λ (v : ℕ). if within a dst 512 then v else m a)
          (command (0 + (a - dst)) ∙ ap (image offset) {y = a - dst} (omega arith))

  read_sectors-reads :
      (n pa offset : ℕ) (m : Memory) (a : ℕ)
      → offset + n ≤ 2 ^ 28
      → read_sectors disk n pa offset m a
        ≡ (if within a pa (n * 512) then image (offset + (a - pa) / 512) ((a - pa) % 512) else m a)
  unfolding read_sectors
  read_sectors-reads zero pa offset m a small = ground arith
  read_sectors-reads (suc n) pa offset m a small =
      let ih =
        read_sectors-reads n (pa + 512) (offset + 1) (readsect disk pa offset m) a (omega arith) in
      let first = readsect-reads pa offset m a (omega arith) in
      elim (Bool-cases (within a (pa + 512) (n * 512))) [
        | inl more ↦
            let sector : offset + 1 + (a - (pa + 512)) / 512 ≡ offset + (a - pa) / 512 =
              ground arith in
            let place : (a - (pa + 512)) % 512 ≡ (a - pa) % 512 = ground arith in
            ground (arith, ih, ap₂ image sector place)
        | inr other ↦ elim (Bool-cases (within a pa 512)) [
          | inl here ↦
              let sector : offset ≡ offset + (a - pa) / 512 = ground arith in
              let place : a - pa ≡ (a - pa) % 512 = ground arith in
              ground (arith, ih, first, ap₂ image sector place)
          | inr outside ↦ ground (arith, ih, first)
        ]
      ]

  -- readseg of a range that ends at 0xFFFFFE00 or before, where the address and the place in the file lie
  -- equally far behind the start of a sector: it returns, each address of the range gets its byte of
  -- the kernel's file, and no byte before the sector of the first address or behind that of the last
  -- one changes.
  pub readseg-reads :
      (pa count offset : ℕ) (m : Memory)
      → pa + count ≤ 0xFFFF_FE00
      → offset < 2 ^ 32
      → pa % 512 ≡ offset % 512
      → (m' : Memory) × (readseg disk pa count offset m ≡ some m')
        × ((j : ℕ) → j < count → m' (pa + j) ≡ file_byte image (offset + j))
        × ((a : ℕ) → (a < pa / 512 * 512) ⊎ ((pa + count + 511) / 512 * 512 ≤ a) → m' a ≡ m a)
  unfolding readseg
  readseg-reads pa count offset m small short aligned =
      let start = pa - pa % 512 in
      let n = (u32 (pa + count) - start + 511) / 512 in
      let reads = λ (a : ℕ). read_sectors-reads n start (offset / 512 + 1) m a (omega arith) in
      (
        read_sectors disk n start (offset / 512 + 1) m,
        readseg_loop-ends disk (n + 1) n start (u32 (pa + count)) (offset / 512 + 1) m (omega arith)
            (omega arith) (omega arith) (omega arith),
        λ j lt.
            let sector : offset / 512 + 1 + (pa + j - start) / 512 ≡ (offset + j) / 512 + 1 =
              omega arith in
            let place : (pa + j - start) % 512 ≡ (offset + j) % 512 = omega arith in
            ground (arith, reads (pa + j), ap₂ image sector place),
        λ a apart. ground (arith, reads a, apart),
      )
