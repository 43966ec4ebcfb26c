-- ===== src/Pmap/Alloc/Init.antt =====
-- page_init of kern/pmap.c against a description of the pages that are free at boot.
use pmake_os.Base.{
  ℕ, zero, suc, ◌+◌, ◌-◌, ◌*◌, ◌/◌, ◌≤◌, ◌<◌, ◌≡◌, refl, inl, inr, Bool, true, false, ◌&&◌, not,
  Option, none, some, ap, update, List, [], ◌∷◌, arith, ltb, leb, ◌==◌, if◌then◌else◌, ==_refl,
  Bool-cases,
}
use pmake_os.Kernel.{PageInfo, Kernel}
use pmake_os.Kernel.Run.{ok}
use pmake_os.Mmu.{u32, pg_size, kern_base, round_up, round_down}
use pmake_os.Pmap.Alloc.{
  boot_alloc, paddr, reserve, release, page_init_at, page_init_loop, page_init,
}
use pmake_os.Pmap.Alloc.FreeList.{has, Distinct, Chain, Chain-update, IsFreeList}

-- Free at boot: neither page 0, nor from the I/O hole to the end of the kernel, nor the page of the
-- startup code of the other CPUs.
unfoldable pub usable : ℕ → ℕ → Bool
usable kernel_end_page i = not (i == 0) && not (leb 160 i && ltb i kernel_end_page) && not (i == 7)

-- The usable pages below n, the last one first.
unfoldable pub usable_below : ℕ → ℕ → List ℕ
usable_below kernel_end_page zero = []
usable_below kernel_end_page (suc n) =
    if usable kernel_end_page n
    then n ∷ usable_below kernel_end_page n
    else usable_below kernel_end_page n

pub has-usable_below : (e n p : ℕ) → has p (usable_below e n) ≡ (ltb p n && usable e p)
unfolding usable_below
has-usable_below e zero p = ground arith
has-usable_below e (suc n) p = ground (arith, has-usable_below e n p)

page_init_at-usable :
    (e n : ℕ) (k : Kernel) → page_init_at e n k ≡ (if usable e n then release n k else reserve n k)
unfolding page_init_at usable
page_init_at-usable e n k = ground arith

-- The two stores of a round, in another state.
abbrev release_in : (ℕ → PageInfo) → Option ℕ → ℕ → Kernel → Kernel
release_in pages head i k = record k {
  pages = update pages i (record { pp_link = head; pp_ref = 0 });
  page_free_list = some i;
}

abbrev reserve_in : (ℕ → PageInfo) → Option ℕ → ℕ → Kernel → Kernel
reserve_in pages head i k = record k {
  pages = update pages i (record { pp_link = none; pp_ref = 1 });
  page_free_list = head;
}

record IsInit (e n : ℕ) (k₀ k : Kernel) : Type 0 where
  chain : Chain k.pages k.page_free_list (usable_below e n)
  distinct : Distinct (usable_below e n)
  refs : (p : ℕ) → p < n → (k.pages p).pp_ref ≡ (if usable e p then 0 else 1)
  unlinked : (p : ℕ) → (ltb p n && usable e p) ≡ false → (k.pages p).pp_link ≡ none
  size : k.npages ≡ k₀.npages
  rest : k ≡ record k₀ { pages = k.pages; page_free_list = k.page_free_list }

module _ (e : ℕ) (k₀ : Kernel) (empty : k₀.page_free_list ≡ none)
    (cleared : (p : ℕ) → (k₀.pages p).pp_link ≡ none) where
  module _ (n : ℕ) (k : Kernel) (i : IsInit e n k₀ k) where
    new : has n (usable_below e n) ≡ false
    new = ground (arith, has-usable_below e n n)

    release-IsInit : usable e n ≡ true → IsInit e (suc n) k₀ (release n k)
    unfolding usable_below release
    release-IsInit u = record {
      chain = rw u (refl, rw (==_refl n) (Chain-update k.pages n _ k.page_free_list _ new i.chain));
      distinct = rw u (new, i.distinct);
      refs = λ p h. ground (arith, i.refs p);
      unlinked = λ p h. ground (arith, i.unlinked p);
      size = i.size;
      rest = ap (λ (z : Kernel). release_in k.pages k.page_free_list n z) i.rest;
    }

    reserve-IsInit : usable e n ≡ false → IsInit e (suc n) k₀ (reserve n k)
    unfolding usable_below reserve
    reserve-IsInit u = record {
      chain = rw u (Chain-update k.pages n _ k.page_free_list _ new i.chain);
      distinct = rw u i.distinct;
      refs = λ p h. ground (arith, i.refs p);
      unlinked = λ p h. ground (arith, i.unlinked p);
      size = i.size;
      rest = ap (λ (z : Kernel). reserve_in k.pages k.page_free_list n z) i.rest;
    }

    page_init_at-IsInit : IsInit e (suc n) k₀ (page_init_at e n k)
    page_init_at-IsInit = elim (Bool-cases (usable e n)) [
      | inl u ↦ rw (page_init_at-usable e n k, u) (release-IsInit u)
      | inr u ↦ rw (page_init_at-usable e n k, u) (reserve-IsInit u)
    ]

  page_init_loop-IsInit : (n : ℕ) → IsInit e n k₀ (page_init_loop e n k₀)
  unfolding page_init_loop usable_below
  page_init_loop-IsInit zero = record {
    chain = empty;
    distinct = tt;
    refs = λ p h. elim h [ ];
    unlinked = λ p h. cleared p;
    size = refl;
    rest = refl;
  }
  page_init_loop-IsInit (suc n) =
      page_init_at-IsInit n (page_init_loop e n k₀) (page_init_loop-IsInit n)

paddr-ok : (kva : ℕ) (k : Kernel) → kern_base ≤ kva → paddr kva k ≡ ok (kva - kern_base) k
unfolding paddr
paddr-ok kva k low = ground arith

-- page_init where the memory in use ends at `top`: the free list is exactly the usable pages below
-- npages, the last one first, and the rest of the state but for the page array stays.
pub page_init-frees :
    (bss_end top e nextfree : ℕ) (k : Kernel)
    → (top - kern_base) / pg_size ≡ e
    → boot_alloc bss_end 0 k ≡ ok top (record k { nextfree = nextfree })
    → kern_base ≤ top
    → k.page_free_list ≡ none
    → ((p : ℕ) → (k.pages p).pp_link ≡ none)
    → (k' : Kernel) × (page_init bss_end k ≡ ok tt k')
      × IsFreeList k' (usable_below e k.npages)
      × ((p : ℕ) → p < k.npages → (k'.pages p).pp_ref ≡ (if usable e p then 0 else 1))
      × (k'
          ≡ record k { nextfree = nextfree; pages = k'.pages; page_free_list = k'.page_free_list })
unfolding page_init
page_init-frees bss_end top e nextfree k at ran above empty cleared =
    let k1 : Kernel = record k { nextfree = nextfree } in
    let i = page_init_loop-IsInit e k1 empty cleared k.npages in
    (
      page_init_loop e k.npages k1,
      rw (ran, paddr-ok top k1 above, at) refl,
      record {
        chain = i.chain;
        distinct = i.distinct;
        within = λ p h. ground (arith, has-usable_below e k.npages p, i.size);
        unused = λ p h. ground (arith, has-usable_below e k.npages p, i.refs p);
        unlinked = λ p h. ground (arith, has-usable_below e k.npages p, i.unlinked p);
      },
      i.refs,
      i.rest,
    )

-- boot_alloc behind its first call: it hands out the next page.
pub boot_alloc-later :
    (bss_end e : ℕ) (k : Kernel)
    → k.nextfree ≡ kern_base + e * pg_size
    → e < 0x1_0000
    → boot_alloc bss_end 0 k
      ≡ ok (kern_base + e * pg_size) (record k { nextfree = kern_base + e * pg_size })
unfolding boot_alloc round_up round_down
boot_alloc-later bss_end e k next low =
    let later : (k.nextfree == 0) ≡ false = ground arith in
    let same : round_up (u32 (kern_base + e * pg_size + 0)) pg_size ≡ kern_base + e * pg_size =
      omega arith in
    rw (later, next, same) refl
