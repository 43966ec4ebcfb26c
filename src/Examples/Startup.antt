-- ===== src/Examples/Startup.antt =====
-- The theorems about start-up, printing and the monitor at small inputs.
use pmake_os.Base.{
  ℕ, zero, suc, ◌+◌, ◌*◌, ◌-◌, ◌/◌, ◌%◌, ◌^◌, ◌≤◌, ◌<◌, ◌≡◌, ◌⊎◌, refl, true, false, some, List, [],
  ◌∷◌, ◌++◌, All, bytes, arith, length, ltb, if◌then◌else◌,
}
use pmake_os.Str.{Memory}
use pmake_os.Loader.{Disk, readseg}
use pmake_os.Loader.Segments.{file_byte, readseg-reads}
use pmake_os.Printf.{put_escape, flags, flag_step, flag_first, vprintfmt}
use pmake_os.User.Printf.{joined, vcprintf, vcprintf-sends}
use pmake_os.Monitor.{Line, readline, runcmd}
use pmake_os.Monitor.Readline.{readline-typed}
use pmake_os.Monitor.Words.Split.{PointTo, words}
use pmake_os.Monitor.Words.{asked, runcmd-words}
use pmake_os.Trap.{gd_kt}
use pmake_os.Trap.Gates.{trap_init, empty_idt, may_call, entry_of, sts_ig32, trap_init-callable}
use pmake_os.Kernel.{Kernel}
use pmake_os.Trap.Percpu.{Entry, gdt}

-- A disk whose bytes tell their sector.
abbrev numbered : ℕ → ℕ → ℕ
numbered n i = (n + i) % 256

abbrev no_memory : Memory
no_memory a = 0

abbrev numbered_disk : Disk
numbered_disk p2 p3 p4 p5 p6 i = numbered (p3 + p4 * 2 ^ 8 + p5 * 2 ^ 16 + p6 % 16 * 2 ^ 24) i

readseg-reads_example :
    (m' : Memory) × (readseg numbered_disk 0x10_0200 1000 0x1200 no_memory ≡ some m')
    × ((j : ℕ) → j < 1000 → m' (0x10_0200 + j) ≡ file_byte numbered (0x1200 + j))
    × ((a : ℕ)
        → (a < 0x10_0200 / 512 * 512) ⊎ ((0x10_0200 + 1000 + 511) / 512 * 512 ≤ a)
        → m' a ≡ no_memory a)
readseg-reads_example =
    readseg-reads numbered_disk numbered (λ p3 p4 p5 p6 i. refl) 0x10_0200 1000 0x1200 no_memory
      (omega arith) (omega arith) refl

-- A string at address 100.
abbrev char_at : List ℕ → ℕ → ℕ
char_at [] i = 0
char_at (c ∷ cs) zero = c
char_at (c ∷ cs) (suc i) = char_at cs i

abbrev help_line : List ℕ
help_line = 32 ∷ b'h' ∷ b'e' ∷ b'l' ∷ b'p' ∷ 32 ∷ b'm' ∷ b'e' ∷ []

abbrev line_memory : Memory
line_memory a = if ltb a 100 then 7 else char_at help_line (a - 100)

runcmd-words_example :
    (argv : List ℕ) × (m' : Memory) × (runcmd 9 line_memory 100
      ≡ some (asked (words help_line), argv, m'))
    × PointTo m' argv (words help_line)
    × ((a : ℕ) → a < 100 → m' a ≡ line_memory a)
runcmd-words_example =
    runcmd-words 9 line_memory 100 help_line (omega arith) (omega arith) (omega arith)

-- "ab", a backspace and "c".
readline-typed_example :
    (s : Line) × (readline true no_memory ((97 ∷ 98 ∷ 8 ∷ 99 ∷ []) ++ 13 ∷ 120 ∷ [])
      ≡ some (some s, 120 ∷ []))
    × (bytes s.buf 0 2 ≡ 97 ∷ 99 ∷ [])
    × (s.buf 2 ≡ 0)
    × (◌≤◌ 2 1023)
readline-typed_example =
    readline-typed true no_memory (97 ∷ 98 ∷ 8 ∷ 99 ∷ []) 13 (120 ∷ [])
      ((omega arith, refl), ((omega arith, refl), ((omega arith, refl), ((omega arith, refl), tt))))
      refl

vcprintf-sends_example :
    (sent : List (List ℕ)) × (vcprintf (104 ∷ 105 ∷ 37 ∷ []) [] ≡ some (sent, 3))
    × (joined sent ≡ 104 ∷ 105 ∷ 37 ∷ [])
    × All (λ s. length s ≤ 255) sent
unfolding vprintfmt put_escape flags flag_step flag_first
vcprintf-sends_example = vcprintf-sends (104 ∷ 105 ∷ 37 ∷ []) [] (104 ∷ 105 ∷ 37 ∷ []) refl

trap_init-callable_example :
    let g = trap_init (λ n. 0xF010_0000 + 16 * n) empty_idt 14 in
    (may_call 3 g ≡ false)
    × (may_call 0 g ≡ true)
    × (may_call 0 g ≡ true
        → (entry_of g ≡ 0xF010_00E0) × (g.gd_sel ≡ gd_kt) × (g.gd_type ≡ sts_ig32))
trap_init-callable_example = trap_init-callable (λ n. 0xF010_0000 + 16 * n) 14

abbrev boot_entry : Entry
boot_entry = record { ts_esp0 = λ i. 0; ts_ss0 = λ i. 0; table = gdt; tr = 0 }
