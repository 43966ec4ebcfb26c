-- ===== src/Pmap/Space/Steps.antt =====
-- One page of boot_map_region: its entry, and what the pages of the tables suffice for.
use pmake_os.Base.{
  ℕ, suc, ◌+◌, ◌-◌, ◌*◌, ◌/◌, ◌%◌, ◌^◌, ◌≤◌, ◌<◌, ◌≡◌, ap, ◌≢◌, ◌⊎◌, inl, inr, ◌&&◌, List, arith,
  bit_or, length, leb, ltb, ◌==◌, if◌then◌else◌,
}
use pmake_os.Kernel.{Kernel}
use pmake_os.Mmu.{u32, pte_p, pdx, ptx, uvpt}
use native.Mathlib.Decide.{ℕ_discrete}
use pmake_os.Pmap.Space.{view, IsSpace}
use pmake_os.Pmap.Space.Walk.{has_table}

-- The entry of the page q in a region that maps the page p at `pa`.
abbrev pub region_entry : ℕ → ℕ → ℕ → ℕ → ℕ
region_entry p pa perm q = bit_or (bit_or (u32 (pa + (q - p) * 4096)) pte_p) perm

-- The directory slots of the n pages from page p on.
abbrev pub spans : ℕ → ℕ → ℕ
spans p n = if n == 0 then 0 else (p + n - 1) / 1024 - p / 1024 + 1

-- 1 if the first of them has its table.
abbrev pub credit : Kernel → ℕ → ℕ → ℕ → ℕ
credit k pgdir p n = if n == 0 then 0 else has_table k pgdir (p / 1024)

-- The state k' is k with the n pages from page p on mapped to the n pages from `pa` on.
pub record IsMapped (pgdir p n pa perm : ℕ) (xs : List ℕ) (k k' : Kernel) : Type 0 where
  pub left : List ℕ
  pub space : IsSpace k' pgdir left
  pub enough : length xs + credit k pgdir p n ≤ length left + spans p n
  pub size : k'.npages ≡ k.npages
  pub directory : k'.kern_pgdir ≡ k.kern_pgdir
  pub views :
      (d i : ℕ)
      → d ≢ pdx uvpt
      → i < 1024
      → view k' pgdir d i ≡ (
          let q = d * 1024 + i in
          if leb p q && ltb q (p + n) then region_entry p pa perm q else view k pgdir d i)

-- The n pages from page p on are addresses that do not meet the slot at UVPT.
abbrev pub IsAside : ℕ → ℕ → Type 0
IsAside p n = (p + n ≤ 957 * 1024) ⊎ (958 * 1024 ≤ p)

pub page_of :
    (p : ℕ) → p < 2 ^ 20 → (pdx (u32 (p * 4096)) ≡ p / 1024) × (ptx (u32 (p * 4096)) ≡ p % 1024)
unfolding pdx ptx
page_of p h = omega arith

compare_cases : (a b : ℕ) → (a < b) ⊎ ((a ≡ b) ⊎ (b + 1 ≤ a))
compare_cases a b = ground arith

pub page-IsAside : (p n : ℕ) → p < 2 ^ 20 → IsAside p (suc n) → pdx (u32 (p * 4096)) ≢ pdx uvpt
unfolding pdx
page-IsAside p n h (inl low) = omega arith
page-IsAside p n h (inr high) = omega arith

pub next-IsAside : (p n : ℕ) → IsAside p (suc n) → IsAside (p + 1) n
next-IsAside p n (inl low) = inl (omega arith)
next-IsAside p n (inr high) = inr (omega arith)

next_entry :
    (p pa perm q : ℕ)
    → p + 1 ≤ q
    → region_entry (p + 1) (u32 (pa + 4096)) perm q ≡ region_entry p pa perm q
next_entry p pa perm q h =
    let same : (((pa + 4096) % 2 ^ 32) + (q - (p + 1)) * 4096) % 2 ^ 32
        ≡ (pa + (q - p) * 4096) % 2 ^ 32 =
      omega arith in
    ap (λ (a : ℕ). bit_or (bit_or a pte_p) perm) same

first_entry :
    (p pa perm q : ℕ)
    → q ≡ p
    → pa < 2 ^ 32
    → region_entry p pa perm q ≡ bit_or (bit_or pa pte_p) perm
first_entry p pa perm q e small =
    let same : (pa + (q - p) * 4096) % 2 ^ 32 ≡ pa = omega arith in
    ap (λ (a : ℕ). bit_or (bit_or a pte_p) perm) same

-- The range from p is the page p and the range from p + 1.
pub views_step :
    (d i p n pa perm old : ℕ)
    → i < 1024
    → pa < 2 ^ 32
    → (let q = d * 1024 + i in
        if leb (p + 1) q && ltb q (p + 1 + n)
        then region_entry (p + 1) (u32 (pa + 4096)) perm q
        else if d == p / 1024 && i == p % 1024
        then bit_or (bit_or pa pte_p) perm
        else old)
      ≡ (let q = d * 1024 + i in
          if leb p q && ltb q (p + suc n) then region_entry p pa perm q else old)
views_step d i p n pa perm old hi small = elim (compare_cases (d * 1024 + i) p) [
  | inl lt ↦ ground arith
  | inr (inl e) ↦
      let d_is : d ≡ p / 1024 = omega arith in
      let i_is : i ≡ p % 1024 = omega arith in
      ground (arith, first_entry p pa perm (d * 1024 + i) e small)
  | inr (inr gt) ↦ ground (arith, next_entry p pa perm (d * 1024 + i) gt)
]

pub credit-suc :
    (k : Kernel) (pgdir p n : ℕ) → credit k pgdir p (suc n) ≡ has_table k pgdir (p / 1024)
credit-suc k pgdir p n = ground arith

pub more : (a b c : ℕ) → a ≤ b → a ≤ b + c
more a b c h = omega arith

pub first_spans :
    (p n : ℕ) (k : Kernel) (pgdir len : ℕ)
    → spans p (suc n) ≤ len + credit k pgdir p (suc n)
    → 0 < len + has_table k pgdir (p / 1024)
first_spans p n k pgdir len h = ground arith

-- With a table for the page p, what suffices from p on suffices from p + 1 on, and what is left counts.
pub next_spans :
    (p n len c : ℕ)
    → ((p + 1) / 1024 ≡ p / 1024 → c ≡ 1)
    → spans p (suc n) ≤ len + 1
    → spans (p + 1) n ≤ len + (if n == 0 then 0 else c)
next_spans p n len c same h = elim (ℕ_discrete ((p + 1) / 1024) (p / 1024)) [
  | yes e ↦ let one = same e in ground (arith, one)
  | no ne ↦ ground arith
]

pub next_left :
    (p n len left c : ℕ)
    → ((p + 1) / 1024 ≡ p / 1024 → c ≡ 1)
    → len + (if n == 0 then 0 else c) ≤ left + spans (p + 1) n
    → len + 1 ≤ left + spans p (suc n)
next_left p n len left c same h = elim (ℕ_discrete ((p + 1) / 1024) (p / 1024)) [
  | yes e ↦ let one = same e in ground (arith, one)
  | no ne ↦ ground arith
]
