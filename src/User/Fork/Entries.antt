-- ===== src/User/Fork/Entries.antt =====
-- What fork makes of the page table entries, and the system calls that it makes for that.
use pmake_os.Base.{
  ℕ, ◌+◌, ◌*◌, ◌/◌, ◌<◌, ◌≡◌, refl, ap, ◌∙◌, ◌≢◌, ◌⊎◌, Bool, true, false, ◌&&◌, ◌||◌, not, arith,
  bit_or, ◌==◌, if◌then◌else◌,
}
use pmake_os.Base.Bits.{bit_or_step, bit_or-zero, bit_or-disjoint, bit_and-two, bit_and-bit11}
use pmake_os.Kernel.Ret.{Error, val, err}
use pmake_os.Mmu.{pte_p, pte_w, pte_u, pte_syscall, pte_addr, test, ustacktop}
use pmake_os.User.{Sys}
use pmake_os.User.Fork.{pte_cow, pte_share}

abbrev pub cow : ℕ
cow = bit_or (bit_or pte_cow pte_u) pte_p

-- The entry that page_insert makes of the page of an entry.
abbrev pub remap : ℕ → ℕ → ℕ
remap w perm = bit_or (bit_or (pte_addr w) perm) pte_p

-- What sys_page_map answers, as it shows in the entries `pte s e p` of the page p of the environment e,
-- 0 for the caller: it returns 0 and has mapped the page of the caller, which it does not make writable
-- where it was not, or it returns an error and nothing changes.
abbrev pub Answer : {S : Type 0} → Sys S → (S → ℕ → ℕ → ℕ) → S → ℕ → ℕ → ℕ → Type 0
Answer sys pte s dst p perm =
    let r = sys.sys_page_map 0 (p * 4096) dst (p * 4096) perm s in
    ((r.0 ≡ val 0)
      × (test perm pte_w ≡ true → test (pte s 0 p) pte_w ≡ true)
      × ((e q : ℕ)
          → pte r.1 e q ≡ (if e == dst && q == p then remap (pte s 0 p) perm else pte s e q)))
    ⊎ ((x : Error) × (r.0 ≡ err x) × ((e q : ℕ) → pte r.1 e q ≡ pte s e q))

-- A kernel in which the program sees its entries at UVPT and sys_page_map answers like that for the
-- program's mapped pages, for whatever reason it refuses.
pub record IsKernel {S : Type 0} (sys : Sys S) (pte : S → ℕ → ℕ → ℕ) (child : ℕ) : Type 0 where
  pub other : child ≢ 0
  pub own : (s : S) (p : ℕ) → sys.uvpt s p ≡ pte s 0 p
  pub table :
      (s : S) (p : ℕ) → test (pte s 0 p) pte_p ≡ true → test (sys.uvpd s (p / 1024)) pte_p ≡ true
  pub answers :
      (s : S) (dst p perm : ℕ)
      → (dst ≡ 0) ⊎ (dst ≡ child)
      → p * 4096 < ustacktop
      → test (pte s 0 p) pte_p ≡ true
      → Answer sys pte s dst p perm

-- Is the page copied, and is it to be copied on a write?
abbrev pub is_copied : ℕ → Bool
is_copied w = test w pte_p && test w pte_u

abbrev pub is_private : ℕ → Bool
is_private w = not (test w pte_share) && (test w pte_w || test w pte_cow)

-- The parent's entry after fork, and the child's, for the parent's entry before.
abbrev pub own_after : ℕ → ℕ
own_after w = if is_copied w && is_private w then remap w cow else w

abbrev pub child_after : ℕ → ℕ → ℕ
child_after w old =
    if is_copied w
    then (if test w pte_share
        then (if test w pte_w then remap w pte_syscall else old)
        else if test w pte_w || test w pte_cow
        then remap w cow
        else remap w (bit_or pte_u pte_p))
    else old

pub syscall_writable : Unit {0} → test pte_syscall pte_w ≡ true
unfolding test
syscall_writable _ = refl

-- The entry that marks a page copy-on-write.
pub remap-cow :
    (w : ℕ)
    → (pte_addr (remap w cow) ≡ pte_addr w)
      × (test (remap w cow) pte_w ≡ false)
      × (test (remap w cow) pte_cow ≡ true)
unfolding pte_addr test
remap-cow w =
    let flat : bit_or (bit_or (w / 4096 * 4096) 0x805) 1 ≡ w / 4096 * 4096 + 0x805 =
      ap (λ (x : ℕ). bit_or x 1) (bit_or-disjoint 12 (w / 4096) 0x805 (omega arith))
      ∙ (let x = w / 4096 * 4096 + 0x805 in omega (arith, bit_or_step x 1, bit_or-zero (x / 2))) in
    let x = w / 4096 * 4096 + 0x805 in
    rw flat (omega arith, ground (arith, bit_and-two x), ground (arith, bit_and-bit11 x))
