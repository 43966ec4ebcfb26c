-- ===== src/Examples/Devices.antt =====
-- The theorems about the console at concrete inputs.
use pmake_os.Base.{ℕ, zero, suc, ◌+◌, ◌≤◌, ◌≡◌, refl, false, List, [], ◌∷◌, arith, length, ◌==◌}
use pmake_os.Console.{Cons, Crt, cga_putc}
use pmake_os.Console.Queue.{IsQueue, Holds, put, get, run, replay, run_refines}
use pmake_os.Console.Display.{IsOnDisplay, cga_putc-IsOnDisplay}

abbrev empty_cons : Cons
empty_cons = record { buf = λ i. 0; rpos = 510; wpos = 510 }

empty_cons-IsQueue : IsQueue empty_cons []
empty_cons-IsQueue = record { held = refl; reading = omega arith; writing = omega arith }

run_refines_example :
    let is = put 65 ∷ put 66 ∷ get ∷ put 67 ∷ get ∷ get ∷ get ∷ [] in
    ((run is empty_cons).0 ≡ (replay is []).0) × IsQueue (run is empty_cons).1 (replay is []).1
run_refines_example =
    run_refines (put 65 ∷ put 66 ∷ get ∷ put 67 ∷ get ∷ get ∷ get ∷ []) empty_cons []
      empty_cons-IsQueue (omega arith, (omega arith, (omega arith, tt)))

-- n characters of code 1.
abbrev ones : ℕ → List ℕ
ones zero = []
ones (suc n) = 1 ∷ ones n

length-ones : (n : ℕ) → length (ones n) ≡ n
length-ones zero = refl
length-ones (suc n) = omega (arith, length-ones n)

ones-Holds : (n r : ℕ) → r + n ≤ 511 → Holds (λ i. 1) r (r + n) (ones n)
ones-Holds zero r h = omega arith
ones-Holds (suc n) r h =
    let rest = ones-Holds n (r + 1) (omega arith) in
    let inside : (r + 1 == 512) ≡ false = ground arith in
    let end : r + 1 + n ≡ r + suc n = omega arith in (omega arith, refl, rw inside (rw end at rest))

abbrev full_cons : Cons
full_cons = record { buf = λ i. 1; rpos = 0; wpos = 511 }

full_cons-IsQueue : IsQueue full_cons (ones 511)
full_cons-IsQueue = record {
  held = ones-Holds 511 0 (omega arith);
  reading = omega arith;
  writing = omega arith;
}

-- A display whose cursor is in its last cell.
abbrev display : Crt
display = record { crt_buf = λ i. 0; crt_pos = 1999 }

cga_putc-IsOnDisplay_example : IsOnDisplay display (cga_putc 9 display)
cga_putc-IsOnDisplay_example = cga_putc-IsOnDisplay 9 display (omega arith)
