-- ===== src/Pmap/Check/Pages.antt =====
-- One loop of check_kern_pgdir: what check_va2pa reads in an address space.
use pmake_os.Base.{
  ℕ, zero, suc, ◌+◌, ◌-◌, ◌*◌, ◌/◌, ◌%◌, ◌^◌, ◌<◌, ◌≡◌, ◌≢◌, refl, ◌∙◌, inl, inr, true, false,
  bit_or, arith, List, ==_refl, if◌then◌else◌, Bool-cases,
}
use pmake_os.Base.Bits.{bit_or-page, bit_or-low, bit_or-zero}
use pmake_os.Kernel.{Kernel}
use pmake_os.Kernel.Run.{ok}
use pmake_os.Mmu.{u32, pte_p, pdx, ptx, uvpt, pte_addr, test}
use pmake_os.Mmu.Laws.{present-test}
use pmake_os.Pmap.Paging.{check_va2pa}
use pmake_os.Pmap.Paging.Walk.{kaddr-pte_addr}
use pmake_os.Pmap.Space.{view, IsSpace}
use pmake_os.Pmap.Check.{assert, check_pages}

-- What check_va2pa makes of an entry.
abbrev pub target : ℕ → ℕ
target w = if test w pte_p then pte_addr w else 2 ^ 32 - 1

pub zero_absent : test 0 pte_p ≡ false
unfolding test
zero_absent = refl

pub check_va2pa-view :
    (k : Kernel) (pgdir va : ℕ) (xs : List ℕ)
    → IsSpace k pgdir xs
    → pdx va ≢ pdx uvpt
    → check_va2pa pgdir va k ≡ ok (target (view k pgdir (pdx va) (ptx va))) k
unfolding check_va2pa
check_va2pa-view k pgdir va xs s aside = elim (Bool-cases (test (k.word pgdir (pdx va)) pte_p)) [
  | inl there ↦
      let found =
        kaddr-pte_addr (k.word pgdir (pdx va)) k (s.within (pdx va) aside there)
          (omega (arith, s.fits, s.within (pdx va) aside there)) in
      elim (Bool-cases (test (k.word (k.word pgdir (pdx va) / 4096) (ptx va)) pte_p)) [
        | inl mapped ↦ rw (there, found, mapped) refl
        | inr unmapped ↦ rw (there, found, unmapped) refl
      ]
  | inr absent ↦ rw (absent, zero_absent) refl
]

-- An entry that maps the page at the address x.
pub target-entry :
    (x perm : ℕ) → x % 4096 ≡ 0 → perm < 4096 → target (bit_or (bit_or x pte_p) perm) ≡ x
unfolding pte_addr
target-entry x perm aligned small =
    let there : test (bit_or (bit_or x pte_p) perm) pte_p ≡ true =
      present-test _ (omega (arith, bit_or-low (bit_or x pte_p) perm, bit_or-low x pte_p)) in
    let zero_perm : perm / 4096 ≡ 0 = omega arith in
    let page : bit_or (bit_or x pte_p) perm / 4096 ≡ x / 4096 =
      rw (bit_or-page (bit_or x pte_p) perm, bit_or-page x pte_p, zero_perm)
        (bit_or-zero _ ∙ bit_or-zero (x / 4096)) in
    rw (there, page) (omega arith)

-- A loop whose pages are as expected passes and changes nothing.
pub check_pages-pass :
    (k : Kernel) (pgdir va : ℕ) (expect : ℕ → ℕ) (n i : ℕ)
    → ((j : ℕ)
        → j < n
        → check_va2pa pgdir (u32 (va + (i + j * 4096))) k ≡ ok (expect (i + j * 4096)) k)
    → check_pages pgdir va expect n i k ≡ ok tt k
unfolding check_pages assert
check_pages-pass k pgdir va expect zero i mapped = refl
check_pages-pass k pgdir va expect (suc n) i mapped =
    let start : i + 0 * 4096 ≡ i = omega arith in
    let first : check_va2pa pgdir (u32 (va + i)) k ≡ ok (expect i) k =
      rw start at (mapped 0 (omega arith)) in
    rw (first, ==_refl (expect i))
      (check_pages-pass k pgdir va expect n (i + 4096) λ j lt.
        let next : i + suc j * 4096 ≡ i + 4096 + j * 4096 = omega arith in
        rw next at (mapped (suc j) (omega arith)))

pub page_of_parts : (va : ℕ) → va < 2 ^ 32 → pdx va * 1024 + ptx va ≡ va / 4096
unfolding pdx ptx
page_of_parts va small = omega arith

pub ptx-lt : (va : ℕ) → ptx va < 1024
unfolding ptx
ptx-lt va = omega arith
