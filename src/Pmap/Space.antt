-- ===== src/Pmap/Space.antt =====
-- An address space as a table of page table entries: what the functions of kern/pmap.c that walk the
-- two levels mean for it. The slot at UVPT, which maps the directory itself, is left aside.
pub mod Walk
pub mod Steps
pub mod Region
pub mod Pages
pub mod Remove
use pmake_os.Base.{
  ℕ, ◌+◌, ◌*◌, ◌/◌, ◌%◌, ◌≤◌, ◌<◌, ◌≡◌, ◌≢◌, Bool, true, false, List, if◌then◌else◌,
}
use pmake_os.Kernel.{Kernel}
use pmake_os.Mmu.{pte_p, pdx, ptx, uvpt, test}
use pmake_os.Pmap.Alloc.FreeList.{has, Fits, IsFreeList}

-- The entry for the directory index d and the table index i; 0 where there is no table.
abbrev pub view : Kernel → ℕ → ℕ → ℕ → ℕ
view k pgdir d i = if test (k.word pgdir d) pte_p then k.word (k.word pgdir d / 4096) i else 0

-- The directory `pgdir` has a table of its own for each present slot, and neither they nor the
-- directory are among the free pages `xs`.
pub record IsSpace (k : Kernel) (pgdir : ℕ) (xs : List ℕ) : Type 0 where
  pub fits : Fits k
  pub list : IsFreeList k xs
  pub apart : has pgdir xs ≡ false
  pub within :
      (d : ℕ) → d ≢ pdx uvpt → test (k.word pgdir d) pte_p ≡ true → k.word pgdir d / 4096 < k.npages
  pub used :
      (d : ℕ)
      → d ≢ pdx uvpt
      → test (k.word pgdir d) pte_p ≡ true
      → has (k.word pgdir d / 4096) xs ≡ false
  pub proper :
      (d : ℕ) → d ≢ pdx uvpt → test (k.word pgdir d) pte_p ≡ true → k.word pgdir d / 4096 ≢ pgdir
  pub distinct :
      (d e : ℕ)
      → d ≢ pdx uvpt
      → e ≢ pdx uvpt
      → d ≢ e
      → test (k.word pgdir d) pte_p ≡ true
      → test (k.word pgdir e) pte_p ≡ true
      → k.word pgdir d / 4096 ≢ k.word pgdir e / 4096
