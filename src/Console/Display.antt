-- ===== src/Console/Display.antt =====
-- The cursor of the text display stays inside, and so does every store.
use pmake_os.Base.{
  ℕ, zero, suc, ◌+◌, ◌%◌, ◌≤◌, ◌<◌, ◌≡◌, refl, ◌∙◌, arith, ◌==◌, Bool-cases, inl, inr,
}
use pmake_os.Console.{crt_cols, crt_size, Crt, scroll, attributed, draw, cga_char, blanks, cga_putc}

-- The state s' has its cursor on the display, and differs from s in cells of the display only.
pub record IsOnDisplay (s s' : Crt) : Type 0 where
  pub cursor : s'.crt_pos < crt_size
  pub outside : (i : ℕ) → crt_size ≤ i → s'.crt_buf i ≡ s.crt_buf i

scroll-IsOnDisplay : (s : Crt) → s.crt_pos < crt_size + crt_cols → IsOnDisplay s (scroll s)
unfolding scroll
scroll-IsOnDisplay s h = record { cursor = ground arith; outside = λ i far. ground arith }

scroll-inside : (s : Crt) → s.crt_pos < crt_size → scroll s ≡ s
unfolding scroll
scroll-inside s h = ground arith

draw-bound : (c : ℕ) (s : Crt) → s.crt_pos < crt_size → (draw c s).crt_pos < crt_size + crt_cols
unfolding draw
draw-bound c s h = ground arith

draw-outside :
    (c i : ℕ) (s : Crt) → s.crt_pos < crt_size → crt_size ≤ i → (draw c s).crt_buf i ≡ s.crt_buf i
unfolding draw
draw-outside c i s h far = ground arith

cga_char-IsOnDisplay : (c : ℕ) (s : Crt) → s.crt_pos < crt_size → IsOnDisplay s (cga_char c s)
unfolding cga_char
cga_char-IsOnDisplay c s h =
    let d = draw (attributed c) s in
    let on = scroll-IsOnDisplay d (draw-bound (attributed c) s h) in
    record {
      cursor = on.cursor;
      outside = λ i far. on.outside i far ∙ draw-outside (attributed c) i s h far;
    }

blanks-IsOnDisplay : (n : ℕ) (s : Crt) → s.crt_pos < crt_size → IsOnDisplay s (blanks n s)
unfolding blanks
blanks-IsOnDisplay zero s h = record { cursor = h; outside = λ i far. refl }
blanks-IsOnDisplay (suc n) s h =
    let one = cga_char-IsOnDisplay 32 s h in
    let more = blanks-IsOnDisplay n (cga_char 32 s) one.cursor in
    record { cursor = more.cursor; outside = λ i far. more.outside i far ∙ one.outside i far }

-- cga_putc of any character: with the cursor on the display before, it is there afterwards, and no cell
-- outside of the display is written.
pub cga_putc-IsOnDisplay : (c : ℕ) (s : Crt) → s.crt_pos < crt_size → IsOnDisplay s (cga_putc c s)
unfolding cga_putc
cga_putc-IsOnDisplay c s h = elim (Bool-cases (attributed c % 256 == 9)) [
  | inl tab ↦ let on = blanks-IsOnDisplay 5 s h in rw (tab, scroll-inside (blanks 5 s) on.cursor) on
  | inr char ↦ rw char (cga_char-IsOnDisplay c s h)
]
