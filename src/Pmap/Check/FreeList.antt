-- ===== src/Pmap/Check/FreeList.antt =====
-- check_page_free_list on a list of usable pages.
use pmake_os.Base.{
  ℕ, zero, suc, ◌+◌, ◌-◌, ◌*◌, ◌^◌, ◌≤◌, ◌<◌, ◌≡◌, ◌≢◌, ◌⊎◌, refl, ap, ◌∙◌, inl, inr, true, false,
  Option, some, arith, List, [], ◌∷◌, length, leb, ltb, ◌==◌, ne→==, is_some, if◌then◌else◌,
  Bool-cases,
}
use pmake_os.Kernel.{Kernel}
use pmake_os.Kernel.Run.{ok}
use pmake_os.Mmu.{
  u32, pg_size, pdx, kern_base, npdentries, io_phys_mem, ext_phys_mem, mpentry_paddr, round_up,
}
use pmake_os.Pmap.Alloc.{page2pa, boot_alloc}
use pmake_os.Pmap.Alloc.FreeList.{has, Chain, Fits, IsFreeList, page2kva_lem}
use pmake_os.Pmap.Alloc.Init.{usable}
use pmake_os.Pmap.Check.{
  assert, linked, free_pages, scribble, scribble_all, check_free, check_all_free,
  check_page_free_list,
}

linked-Chain :
    (fuel : ℕ) (k : Kernel) (head : Option ℕ) (xs : List ℕ)
    → Chain k.pages head xs
    → length xs ≤ fuel
    → linked fuel k head ≡ some xs
unfolding linked
linked-Chain fuel k head [] c enough = rw c refl
linked-Chain zero k head (x ∷ xs) c enough = absurd (omega arith)
linked-Chain (suc fuel) k head (x ∷ xs) c enough =
    rw (c.0, linked, linked-Chain fuel k (k.pages x).pp_link xs c.1 (omega arith)) refl

-- The pages that are written lie in memory; nothing but memory changes.
scribble_all-runs :
    (limit : ℕ) (xs : List ℕ) (k : Kernel)
    → Fits k
    → ((p : ℕ) → has p xs ≡ true → p < k.npages)
    → (w : ℕ → ℕ → ℕ) × (scribble_all limit xs k ≡ ok tt (record k { word = w }))
unfolding scribble_all scribble
scribble_all-runs limit [] k fits within = (k.word, refl)
scribble_all-runs limit (p ∷ ps) k fits within = elim (Bool-cases (ltb (pdx (page2pa p)) limit)) [
  | inl low ↦
      let (w, ran) =
        scribble_all-runs limit ps (scribble p k) fits (λ q h. within q (ground arith)) in
      (w, rw (low, page2kva_lem p k fits (within p (ground arith))) ran)
  | inr high ↦
      let (w, ran) = scribble_all-runs limit ps k fits (λ q h. within q (ground arith)) in
      (w, rw high ran)
]

-- The pages of the list below the first megabyte, and those above.
abbrev lows : List ℕ → ℕ
lows [] = 0
lows (p ∷ ps) = if ltb p 256 then suc (lows ps) else lows ps

abbrev highs : List ℕ → ℕ
highs [] = 0
highs (p ∷ ps) = if ltb p 256 then highs ps else suc (highs ps)

lows-pos : (p : ℕ) (xs : List ℕ) → has p xs ≡ true → p < 256 → 0 < lows xs
lows-pos p [] h low = cc
lows-pos p (x ∷ xs) h low = elim (Bool-cases (p == x)) [
  | inl at ↦ ground arith
  | inr away ↦ let rest = lows-pos p xs (ground arith) low in ground arith
]

highs-pos : (p : ℕ) (xs : List ℕ) → has p xs ≡ true → 256 ≤ p → 0 < highs xs
highs-pos p [] h high = cc
highs-pos p (x ∷ xs) h high = elim (Bool-cases (p == x)) [
  | inl at ↦ ground arith
  | inr away ↦ let rest = highs-pos p xs (ground arith) high in ground arith
]

page2pa-small : (p : ℕ) → p < 2 ^ 20 → page2pa p ≡ p * 4096
unfolding page2pa
page2pa-small p h = omega arith

usable_lem : (e p : ℕ) → usable e p ≡ true → (p ≢ 0) × ((p < 160) ⊎ (e ≤ p)) × (p ≢ 7)
unfolding usable
usable_lem e p free = (
  ground (arith, free),
  (elim (Bool-cases (ltb p 160)) [
    | inl low ↦ inl (ground arith)
    | inr high ↦ inr (ground (arith, free, high))
  ]),
  ground (arith, free),
)

check_free-passes :
    (e p : ℕ) (k : Kernel)
    → k.npages ≤ 0x1_0000
    → 257 ≤ e
    → p < k.npages
    → usable e p ≡ true
    → check_free (kern_base + e * 4096) p k ≡ ok tt k
unfolding check_free assert
check_free-passes e p k few high lt free =
    let (nonzero, above, startup) = usable_lem e p free in
    let pa = page2pa-small p (omega arith) in
    let inside : ltb p k.npages ≡ true = ground arith in
    let t0 : (page2pa p == 0) ≡ false = ground (arith, pa) in
    let t1 : (page2pa p == io_phys_mem) ≡ false = ground (arith, pa, above) in
    let t2 : (page2pa p == ext_phys_mem - pg_size) ≡ false = ground (arith, pa, above) in
    let t3 : (page2pa p == ext_phys_mem) ≡ false = ground (arith, pa, above) in
    let t5 : (page2pa p == mpentry_paddr) ≡ false = ground (arith, pa, startup) in
    elim (Bool-cases (ltb (page2pa p) ext_phys_mem)) [
      | inl low ↦ rw (inside, t0, t1, t2, t3, low, t5) refl
      | inr far ↦
          let t4 : leb (kern_base + e * 4096) (u32 (page2pa p + kern_base)) ≡ true =
            ground (arith, pa, above, far) in
          rw (inside, t0, t1, t2, t3, far, page2kva_lem p k (omega arith) lt, t4, t5) refl
    ]

check_all_free-passes :
    (e : ℕ) (xs : List ℕ) (b x : ℕ) (k : Kernel)
    → k.npages ≤ 0x1_0000
    → 257 ≤ e
    → ((p : ℕ) → has p xs ≡ true → (p < k.npages) × (usable e p ≡ true))
    → check_all_free (kern_base + e * 4096) xs b x k ≡ ok (b + lows xs, x + highs xs) k
unfolding check_all_free
check_all_free-passes e [] b x k few high all =
    let none_low : b + 0 ≡ b = omega arith in
    let none_high : x + 0 ≡ x = omega arith in rw (none_low, none_high) refl
check_all_free-passes e (p ∷ ps) b x k few high all =
    let here = all p (ground arith) in
    let pa = page2pa-small p (omega (arith, here.0)) in
    let rest =
      λ (b' x' : ℕ). check_all_free-passes e ps b' x' k few high (λ q h. all q (ground arith)) in
    elim (Bool-cases (ltb p 256)) [
      | inl low ↦
          let low' : ltb (page2pa p) ext_phys_mem ≡ true = ground (arith, pa) in
          let sum : b + 1 + lows ps ≡ b + suc (lows ps) = omega arith in
          rw (check_free-passes e p k few high here.0 here.1, low', low)
            (rest (b + 1) x ∙ rw sum refl)
      | inr far ↦
          let far' : ltb (page2pa p) ext_phys_mem ≡ false = ground (arith, pa) in
          let sum : x + 1 + highs ps ≡ x + suc (highs ps) = omega arith in
          rw (check_free-passes e p k few high here.0 here.1, far', far)
            (rest b (x + 1) ∙ rw sum refl)
    ]

free_pages-list :
    (k : Kernel) (xs : List ℕ) → IsFreeList k xs → length xs ≤ k.npages → free_pages k ≡ ok xs k
unfolding free_pages
free_pages-list k xs l enough =
    rw (linked-Chain k.npages k k.page_free_list xs l.chain enough, free_pages) refl

head_there :
    (k : Kernel) (x : ℕ) (xs : List ℕ)
    → IsFreeList k xs
    → has x xs ≡ true
    → is_some k.page_free_list ≡ true
head_there k x [] l h = cc
head_there k x (y ∷ ys) l h = rw l.chain.0 refl

boot_alloc-more :
    (bss_end : ℕ) (k : Kernel)
    → k.nextfree ≢ 0
    → boot_alloc bss_end 0 k
      ≡ ok k.nextfree (record k { nextfree = round_up (u32 (k.nextfree + 0)) pg_size })
unfolding boot_alloc
boot_alloc-more bss_end k more = let later = ne→== k.nextfree 0 more in rw later refl

-- A list of usable pages with one page on each side of the first megabyte passes.
pub check_page_free_list-passes :
    (bss_end e low high : ℕ) (xs : List ℕ) (k : Kernel)
    → IsFreeList k xs
    → length xs ≤ k.npages
    → k.npages ≤ 0x1_0000
    → 257 ≤ e
    → k.nextfree ≡ kern_base + e * 4096
    → ((p : ℕ) → has p xs ≡ true → (p < k.npages) × (usable e p ≡ true))
    → has low xs ≡ true
    → low < 256
    → has high xs ≡ true
    → 256 ≤ high
    → (k' : Kernel) × (check_page_free_list bss_end false k ≡ ok tt k') × IsFreeList k' xs
unfolding check_page_free_list assert
check_page_free_list-passes bss_end e low high xs k l enough few above next all hl ll hh lh =
    let (w, wrote) = scribble_all-runs npdentries xs k (omega arith) (λ p h. (all p h).0) in
    let k1 : Kernel = record k { word = w } in
    let start : boot_alloc bss_end 0 k1
        ≡ ok (kern_base + e * 4096)
            (record k1 { nextfree = round_up (u32 (k.nextfree + 0)) pg_size }) =
      boot_alloc-more bss_end k1 (omega (arith, next))
      ∙ ap (λ (n : ℕ). ok n (record k1 { nextfree = round_up (u32 (k.nextfree + 0)) pg_size }))
          next in
    let k2 : Kernel = record k1 { nextfree = round_up (u32 (k.nextfree + 0)) pg_size } in
    let some_low : ltb 0 (lows xs) ≡ true = ground (arith, lows-pos low xs hl ll) in
    let some_high : ltb 0 (highs xs) ≡ true = ground (arith, highs-pos high xs hh lh) in
    let from_low : 0 + lows xs ≡ lows xs = omega arith in
    let from_high : 0 + highs xs ≡ highs xs = omega arith in
    (
      k2,
      rw
          (
            head_there k low xs l hl,
            free_pages-list k xs l enough,
            wrote,
            start,
            check_all_free-passes e xs 0 0 k2 few above all,
            from_low,
            from_high,
            some_low,
            some_high,
          )
          refl,
      l,
    )
