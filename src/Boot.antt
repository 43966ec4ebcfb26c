-- ===== src/Boot.antt =====
-- kern/entrypgdir.c: the page directory and the page table that the kernel starts with.
use pmake_os.Base.{
  ℕ, ◌+◌, ◌-◌, ◌*◌, ◌/◌, ◌%◌, ◌^◌, ◌<◌, ◌≡◌, refl, ap, ap₂, ◌∙◌, inl, inr, true, not, Option, none,
  some, arith, bit_or, ltb, ◌==◌, if◌then◌else◌, Bool-cases,
}
use pmake_os.Base.Bits.{bit_or-page, bit_or-low, bit_or-zero, bit_or-disjoint}
use pmake_os.Mmu.{pte_p, pte_w, kern_base, pdx, ptx, pte_addr, test}
use pmake_os.Mmu.Laws.{present-test, absent-test}

-- The 1024 words of entry_pgtable.
unfoldable pub entry_pgtable : ℕ → ℕ
entry_pgtable i = bit_or (bit_or (i * 0x1000) pte_p) pte_w

-- The words of entry_pgdir, with entry_pgtable at the physical address `table`. What the source does
-- not name is 0.
unfoldable pub entry_pgdir : ℕ → ℕ → ℕ
entry_pgdir table i =
    if i == 0 then table + pte_p else if i == kern_base / 2 ^ 22 then table + pte_p + pte_w else 0

-- The two levels as the processor follows them: the physical address behind a linear address, or none
-- where an entry is not present. `word pa` is the word at a physical address.
unfoldable pub translate : (ℕ → ℕ) → ℕ → ℕ → Option ℕ
translate word cr3 la =
    let pde = word (cr3 + 4 * pdx la) in
    let pte = word (pte_addr pde + 4 * ptx la) in
    if not (test pde pte_p)
    then none
    else if not (test pte pte_p)
    then none
    else some (pte_addr pte + la % 4096)

entry_present : (i : ℕ) → test (entry_pgtable i) pte_p ≡ true
unfolding entry_pgtable
entry_present i =
    present-test _ (omega (arith, bit_or-low (bit_or (i * 4096) 1) 2, bit_or-low (i * 4096) 1))

entry_address : (i : ℕ) → pte_addr (entry_pgtable i) ≡ i * 4096
unfolding entry_pgtable pte_addr
entry_address i =
    let e : bit_or (i * 4096) 1 ≡ i * 4096 + 1 = bit_or-disjoint 12 i 1 (omega arith) in
    let f : bit_or (bit_or (i * 4096) 1) 2 / 4096 ≡ i =
      bit_or-page (bit_or (i * 4096) 1) 2 ∙ ap₂ bit_or (omega (arith, e)) refl ∙ bit_or-zero i in
    ap (λ (p : ℕ). p * 4096) f

-- A directory entry that is present and leads to the table maps the address to its last 22 bits.
translate-table :
    (word : ℕ → ℕ) (cr3 table la : ℕ)
    → ((i : ℕ) → i < 1024 → word (table + 4 * i) ≡ entry_pgtable i)
    → pte_addr (word (cr3 + 4 * pdx la)) ≡ table
    → word (cr3 + 4 * pdx la) % 2 ≡ 1
    → translate word cr3 la ≡ some (la % 2 ^ 22)
unfolding translate ptx
translate-table word cr3 table la tab to present =
    let i = la / 4096 % 1024 in
    let last : i * 4096 + la % 4096 ≡ la % 2 ^ 22 = omega arith in
    rw
      (
        present-test (word (cr3 + 4 * pdx la)) present,
        to,
        tab i (omega arith),
        entry_present i,
        entry_address i,
      )
      (ap some last)

-- Under the first page directory each of the first 4 MB is at its own address and at KERNBASE above
-- it, and a linear address outside of these two ranges is not mapped. The directory and the table lie
-- in memory as the source lays them out, at the start of pages.
pub translate-entry_pgdir :
    (word : ℕ → ℕ) (cr3 table la : ℕ)
    → table % 4096 ≡ 0
    → ((i : ℕ) → i < 1024 → word (cr3 + 4 * i) ≡ entry_pgdir table i)
    → ((i : ℕ) → i < 1024 → word (table + 4 * i) ≡ entry_pgtable i)
    → la < 2 ^ 32
    → translate word cr3 la ≡ (
        if ltb la 0x40_0000
        then some la
        else if (la / 2 ^ 22) == (kern_base / 2 ^ 22)
        then some (la - kern_base)
        else none)
unfolding translate entry_pgdir pte_addr pdx
translate-entry_pgdir word cr3 table la aligned dir tab small =
    let row = dir (la / 2 ^ 22 % 1024) (omega arith) in
    elim (Bool-cases (ltb la 0x40_0000)) [
      | inl low ↦
          let first : la / 2 ^ 22 % 1024 ≡ 0 = ground arith in
          let row' : word (cr3 + 4 * (la / 2 ^ 22 % 1024)) ≡ table + 1 =
            ground (arith, row, first) in
          let same : la % 2 ^ 22 ≡ la = ground arith in
          rw low (
            translate-table word cr3 table la tab (omega (arith, row')) (omega (arith, row'))
            ∙ ap some same)
      | inr high ↦ elim (Bool-cases (la / 2 ^ 22 == 960)) [
        | inl kern ↦
            let there : la / 2 ^ 22 % 1024 ≡ 960 = ground arith in
            let row' : word (cr3 + 4 * (la / 2 ^ 22 % 1024)) ≡ table + 3 =
              ground (arith, row, there) in
            let same : la % 2 ^ 22 ≡ la - kern_base = ground arith in
            rw (high, kern)
              (translate-table word cr3 table la tab (omega (arith, row')) (omega (arith, row'))
                ∙ ap some same)
        | inr out ↦
            let row' : word (cr3 + 4 * (la / 2 ^ 22 % 1024)) ≡ 0 = ground (arith, row) in
            rw
              (high, out, absent-test (word (cr3 + 4 * (la / 2 ^ 22 % 1024))) (omega (arith, row')))
              refl
      ]
    ]
