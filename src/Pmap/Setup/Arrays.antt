-- ===== src/Pmap/Setup/Arrays.antt =====
-- The calls of boot_alloc in mem_init, and how many pages are left.
use pmake_os.Base.{
  ℕ, zero, suc, ◌+◌, ◌-◌, ◌*◌, ◌%◌, ◌^◌, ◌≤◌, ◌<◌, ◌≡◌, refl, subst, false, none, arith, bit_or,
  length, leb, ltb, if◌then◌else◌,
}
use pmake_os.Kernel.{Kernel}
use pmake_os.Kernel.Run.{ok}
use pmake_os.Mmu.{u32, pg_size, pg_num, pte_p, pte_u, pdx, uvpt, kern_base, round_up, round_down}
use pmake_os.Pmap.Alloc.{boot_alloc, paddr, zero_page}
use pmake_os.Pmap.Alloc.Init.{usable, usable_below}
use pmake_os.Pmap.Paging.{slot, store}
use pmake_os.Pmap.Setup.{blank_env, init_pgdir, init_pages, init_envs}

-- All pages below the I/O hole but two are usable.
pub usable_low : (e n : ℕ) → n ≤ 160 → n ≤ length (usable_below e n) + (if leb n 7 then 1 else 2)
unfolding usable_below usable
usable_low e zero h = omega arith
usable_low e (suc n) h = let rest = usable_low e n (omega arith) in ground arith

pub usable_grows : (e m n : ℕ) → length (usable_below e n) ≤ length (usable_below e (m + n))
unfolding usable_below
usable_grows e zero n = let same : 0 + n ≡ n = omega arith in rw same (omega arith)
usable_grows e (suc m) n =
    let rest = usable_grows e m n in
    let next : suc m + n ≡ suc (m + n) = omega arith in rw next (ground arith)

pub usable_many : (e n : ℕ) → 160 ≤ n → 75 ≤ length (usable_below e n)
usable_many e n h =
    let low = usable_low e 160 (omega arith) in
    let all = usable_grows e (n - 160) 160 in
    let split : n - 160 + 160 ≡ n = omega arith in
    let all' =
      subst (λ (x : ℕ). length (usable_below e 160) ≤ length (usable_below e x)) split all in
    omega arith

-- The state behind the calls of boot_alloc, for the free memory at `top` and page arrays that end at
-- `last`.
abbrev pub prepared : ℕ → ℕ → Kernel → Kernel
prepared top last k =
    let pgdir = pg_num (top - kern_base) in
    record (store (slot pgdir (pdx uvpt)) (bit_or (bit_or (top - kern_base) pte_u) pte_p)
      (zero_page pgdir (record k { kern_pgdir = pgdir }))) {
        nextfree = last;
        pages = λ _. record { pp_link = none; pp_ref = 0 };
        envs = λ _. blank_env;
      }

-- The addresses of the page array, of the array of environments, and of what comes behind them.
abbrev pub pages_at : ℕ → ℕ
pages_at bss_end = round_up bss_end pg_size + pg_size

abbrev pub envs_at : ℕ → ℕ → ℕ
envs_at bss_end npages = round_up (pages_at bss_end + 8 * npages) pg_size

abbrev pub arrays_end : ℕ → ℕ → ℕ
arrays_end bss_end npages = envs_at bss_end npages + 0x1_F000

-- boot_alloc of n bytes once the first free byte is known, on a page boundary.
pub boot_alloc-next :
    (bss_end n top : ℕ) (k : Kernel)
    → k.nextfree ≡ top
    → 0 < top
    → boot_alloc bss_end n k ≡ ok top (record k { nextfree = round_up (u32 (top + n)) pg_size })
unfolding boot_alloc
boot_alloc-next bss_end n top k at pos = rw at (ground arith)

pub whole_pages :
    (top n : ℕ)
    → top % 4096 ≡ 0
    → n % 4096 ≡ 0
    → top + n + 4096 ≤ 2 ^ 32
    → round_up (u32 (top + n)) 4096 ≡ top + n
unfolding round_up round_down
whole_pages top n a b h = omega arith

pub init_pgdir-runs :
    (bss_end top : ℕ) (k : Kernel)
    → k.nextfree ≡ 0
    → round_up bss_end pg_size ≡ top
    → top % 4096 ≡ 0
    → kern_base ≤ top
    → top + 2 * 4096 ≤ 2 ^ 32
    → init_pgdir bss_end k
      ≡ ok tt (record (prepared top (top + 4096) k) { pages = k.pages; envs = k.envs })
unfolding init_pgdir boot_alloc paddr zero_page
init_pgdir-runs bss_end top k fresh at aligned low high =
    let above : ltb top kern_base ≡ false = ground arith in
    rw (fresh, at, whole_pages top 4096 aligned (omega arith) (omega arith), above) refl

pub init_arrays-run :
    (bss_end top1 top2 n : ℕ) (k : Kernel)
    → k.nextfree ≡ top1
    → k.npages ≡ n
    → 0 < top1
    → n ≤ 2 ^ 20
    → round_up (u32 (top1 + 8 * n)) pg_size ≡ top2
    → (init_pages bss_end k
        ≡ ok top1
            (record k { nextfree = top2; pages = λ _. record { pp_link = none; pp_ref = 0 } }))
unfolding init_pages
init_arrays-run bss_end top1 top2 n k at size pos fits end_at =
    let bytes : u32 (8 * n) ≡ 8 * n = omega arith in
    rw (boot_alloc-next bss_end (u32 (8 * k.npages)) top1 k at pos, size, bytes, end_at) refl

pub init_envs-runs :
    (bss_end top2 : ℕ) (k : Kernel)
    → k.nextfree ≡ top2
    → 0 < top2
    → top2 % 4096 ≡ 0
    → top2 + 0x2_0000 ≤ 2 ^ 32
    → init_envs bss_end k ≡ ok top2 (record k { nextfree = top2 + 0x1_F000; envs = λ _. blank_env })
unfolding init_envs
init_envs-runs bss_end top2 k at pos aligned high =
    rw
      (
        boot_alloc-next bss_end 0x1_F000 top2 k at pos,
        whole_pages top2 0x1_F000 aligned (omega arith) (omega arith),
      )
      refl

pub page_aligned : (a : ℕ) → round_up a pg_size % 4096 ≡ 0
unfolding round_up round_down
page_aligned a = omega arith

pub round_up_above : (a : ℕ) → a + 4096 ≤ 2 ^ 32 → a ≤ round_up a pg_size
unfolding round_up round_down
round_up_above a h = omega arith

pub round_up_below : (a : ℕ) → round_up a pg_size ≤ a + 4095
unfolding round_up round_down
round_up_below a = omega arith
