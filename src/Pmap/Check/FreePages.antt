-- ===== src/Pmap/Check/FreePages.antt =====
-- check_page_free_list finds no fault in the list that page_init makes.
use pmake_os.Base.{
  ℕ, zero, suc, ◌+◌, ◌*◌, ◌≤◌, ◌<◌, ◌≡◌, sym, ap, ◌∙◌, true, false, ◌&&◌, none, arith, length, ltb,
}
use pmake_os.Kernel.{Kernel}
use pmake_os.Kernel.Run.{ok}
use pmake_os.Mmu.{pg_size, kern_base}
use pmake_os.Pmap.Alloc.{page_init}
use pmake_os.Pmap.Alloc.FreeList.{has, IsFreeList}
use pmake_os.Pmap.Alloc.Init.{
  usable, usable_below, has-usable_below, page_init-frees, boot_alloc-later,
}
use pmake_os.Pmap.Check.{check_page_free_list}
use pmake_os.Pmap.Check.FreeList.{check_page_free_list-passes}

length-usable_below : (e n : ℕ) → length (usable_below e n) ≤ n
unfolding usable_below
length-usable_below e zero = omega arith
length-usable_below e (suc n) = ground (arith, length-usable_below e n)

has-usable : (e n p : ℕ) → has p (usable_below e n) ≡ true → (p < n) × (usable e p ≡ true)
has-usable e n p h =
    let both : (ltb p n && usable e p) ≡ true = sym (has-usable_below e n p) ∙ h in
    (ground (arith, both), ground (arith, both))

usable-has : (e n p : ℕ) → p < n → usable e p ≡ true → has p (usable_below e n) ≡ true
usable-has e n p lt free = has-usable_below e n p ∙ ground (arith, free)

usable_one : (e : ℕ) → 257 ≤ e → usable e 1 ≡ true
unfolding usable
usable_one e h = ground arith

-- The first page behind the kernel.
usable_end : (e : ℕ) → 257 ≤ e → usable e e ≡ true
unfolding usable
usable_end e h = ground arith

-- After page_init on a machine with at most 256 MB, where boot_alloc has handed out the memory before the
-- page `e`, which lies behind the first megabyte and in the memory, check_page_free_list(0) finds
-- no fault; it leaves the list as it is. The page array is zeroed and the list empty before.
pub page_init-check_page_free_list :
    (bss_end e : ℕ) (k : Kernel)
    → k.nextfree ≡ kern_base + e * pg_size
    → 257 ≤ e
    → k.npages ≤ 0x1_0000
    → e < k.npages
    → k.page_free_list ≡ none
    → ((p : ℕ) → (k.pages p).pp_link ≡ none)
    → (k1 : Kernel) × (k2 : Kernel) × (page_init bss_end k ≡ ok tt k1)
      × (check_page_free_list bss_end false k1 ≡ ok tt k2)
      × IsFreeList k2 (usable_below e k.npages)
page_init-check_page_free_list bss_end e k begun high few room empty cleared =
    let top = kern_base + e * pg_size in
    let (k1, ran, l, refs, rest) =
      page_init-frees bss_end top e top k (omega arith)
        (boot_alloc-later bss_end e k begun (omega arith)) (omega arith) empty cleared in
    let size : k1.npages ≡ k.npages = ap (λ (z : Kernel). z.npages) rest in
    let next : k1.nextfree ≡ kern_base + e * 4096 = ap (λ (z : Kernel). z.nextfree) rest in
    let (k2, checked, l2) =
      check_page_free_list-passes bss_end e 1 e (usable_below e k.npages) k1 l
        (omega (arith, length-usable_below e k.npages, size)) (omega (arith, size)) high next
        (λ p h. let (lt, free) = has-usable e k.npages p h in (omega (arith, lt, size), free))
        (usable-has e k.npages 1 (omega arith) (usable_one e high)) (omega arith)
        (usable-has e k.npages e room (usable_end e high)) (omega arith) in
    (k1, k2, ran, checked, l2)
