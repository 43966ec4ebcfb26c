-- ===== src/Pmap/Alloc/FreeList.antt =====
-- The list of free pages of kern/pmap.c as a sequence of distinct pages, and what page_alloc,
-- page_free and page_decref do to it.
use pmake_os.Base.{
  ℕ, ◌+◌, ◌-◌, ◌*◌, ◌/◌, ◌%◌, ◌^◌, ◌≤◌, ◌<◌, ◌≡◌, refl, ap, ap₂, ◌∙◌, fun_ext, ◌≢◌, inl, inr, Bool,
  true, false, ◌||◌, Option, none, some, List, [], ◌∷◌, ◌++◌, arith, ◌==◌, if◌then◌else◌, ==_refl,
  Bool-cases, update,
}
use pmake_os.Kernel.{PageInfo, Kernel}
use pmake_os.Kernel.Run.{ok, panicked}
use pmake_os.Mmu.{pg_num, test}
use pmake_os.Pmap.Alloc.{
  mapped_pages, alloc_zero, page2kva, take_page, page_alloc, page_free, page_decref,
}

-- Membership and distinctness of page numbers.
abbrev pub has : ℕ → List ℕ → Bool
has p [] = false
has p (x ∷ xs) = (p == x) || has p xs

abbrev pub Distinct : List ℕ → Type 0
Distinct [] = Unit
Distinct (x ∷ xs) = (has x xs ≡ false) × Distinct xs

-- From `head` the links lead through the pages of the list to NULL.
abbrev pub Chain : (ℕ → PageInfo) → Option ℕ → List ℕ → Type 0
Chain pg head [] = head ≡ none
Chain pg head (x ∷ xs) = (head ≡ some x) × Chain pg (pg x).pp_link xs

-- Of n pages those of the list `xs` are free, and no other page is linked.
pub record IsFree (n : ℕ) (pg : ℕ → PageInfo) (head : Option ℕ) (xs : List ℕ) : Type 0 where
  pub chain : Chain pg head xs
  pub distinct : Distinct xs
  pub within : (p : ℕ) → has p xs ≡ true → p < n
  pub unused : (p : ℕ) → has p xs ≡ true → (pg p).pp_ref ≡ 0
  pub unlinked : (p : ℕ) → has p xs ≡ false → (pg p).pp_link ≡ none

abbrev pub IsFreeList : Kernel → List ℕ → Type 0
IsFreeList k xs = IsFree k.npages k.pages k.page_free_list xs

-- The machine has at most 256 MB, which the mapping at KERNBASE reaches.
abbrev pub Fits : Kernel → Type 0
Fits k = k.npages ≤ mapped_pages

pub Chain-update :
    (pg : ℕ → PageInfo) (p : ℕ) (v : PageInfo) (head : Option ℕ) (xs : List ℕ)
    → has p xs ≡ false
    → Chain pg head xs
    → Chain (update pg p v) head xs
Chain-update pg p v head [] out c = c
Chain-update pg p v head (x ∷ xs) out c =
    let apart : (x == p) ≡ false = ground arith in
    (c.0, rw apart (Chain-update pg p v (pg x).pp_link xs (ground arith) c.1))

pub page2kva_lem : (pp : ℕ) (k : Kernel) → Fits k → pp < k.npages → page2kva pp k ≡ ok pp k
unfolding page2kva pg_num
page2kva_lem pp k fits h =
    let same : pp * 4096 % 4294967296 / 4096 ≡ pp = omega arith in rw same (ground arith)

pub page_alloc-empty : (flags : ℕ) (k : Kernel) → IsFreeList k [] → page_alloc flags k ≡ ok none k
unfolding page_alloc
page_alloc-empty flags k l = ground (arith, l.chain)

-- The state that page_alloc leaves behind.
abbrev pub taken : ℕ → ℕ → Kernel → Kernel
taken flags x k = record k {
  pages = update k.pages x (record (k.pages x) { pp_link = none });
  page_free_list = (k.pages x).pp_link;
  word = if test flags alloc_zero then update k.word x (λ _. 0) else k.word;
}

take_page-taken :
    (flags x : ℕ) (k : Kernel)
    → Fits k
    → x < k.npages
    → take_page flags x k ≡ ok (some x) (taken flags x k)
unfolding take_page pg_num
take_page-taken flags x k fits lt = ground arith

pub page_alloc-some :
    (flags x : ℕ) (xs : List ℕ) (k : Kernel)
    → Fits k
    → IsFreeList k (x ∷ xs)
    → page_alloc flags k ≡ ok (some x) (taken flags x k)
unfolding page_alloc
page_alloc-some flags x xs k fits l =
    ground (arith, l.chain, take_page-taken flags x k fits (l.within x (ground arith)))

pub taken-IsFreeList :
    (flags x : ℕ) (xs : List ℕ) (k : Kernel)
    → IsFreeList k (x ∷ xs)
    → IsFreeList (taken flags x k) xs
taken-IsFreeList flags x xs k l = record {
  chain =
      Chain-update k.pages x (record (k.pages x) { pp_link = none }) (k.pages x).pp_link xs
        l.distinct.0 l.chain.1;
  distinct = l.distinct.1;
  within = λ q i. ground (arith, l.within q);
  unused = λ q i. ground (arith, l.unused q);
  unlinked = λ q i. ground (arith, l.unlinked q);
}

-- The state that page_free leaves behind.
abbrev pub freed : ℕ → Kernel → Kernel
freed p k = record k {
  pages = update k.pages p (record (k.pages p) { pp_link = k.page_free_list });
  page_free_list = some p;
}

page_free-freed :
    (p : ℕ) (k : Kernel)
    → (k.pages p).pp_ref ≡ 0
    → (k.pages p).pp_link ≡ none
    → page_free p k ≡ ok tt (freed p k)
unfolding page_free
page_free-freed p k free alone = ground arith

freed-IsFreeList :
    (p : ℕ) (xs : List ℕ) (k : Kernel)
    → IsFreeList k xs
    → has p xs ≡ false
    → p < k.npages
    → (k.pages p).pp_ref ≡ 0
    → IsFreeList (freed p k) (p ∷ xs)
freed-IsFreeList p xs k l out lt free = record {
  chain = (refl, rw (==_refl p) (Chain-update k.pages p _ k.page_free_list xs out l.chain));
  distinct = (out, l.distinct);
  within = λ q i. ground (arith, l.within q);
  unused = λ q i. ground (arith, l.unused q);
  unlinked = λ q i. ground (arith, l.unlinked q);
}

-- A page outside the list may change, as long as it is not linked.
pub update-IsFreeList :
    (p : ℕ) (v : PageInfo) (xs : List ℕ) (k : Kernel)
    → IsFreeList k xs
    → has p xs ≡ false
    → v.pp_link ≡ none
    → IsFreeList (record k { pages = update k.pages p v }) xs
update-IsFreeList p v xs k l out alone = record {
  chain = Chain-update k.pages p v k.page_free_list xs out l.chain;
  distinct = l.distinct;
  within = l.within;
  unused = λ q i. ground (arith, l.unused q);
  unlinked = λ q i. ground (arith, l.unlinked q);
}

-- On a list that is not empty page_alloc returns its first page and keeps the others. The page is
-- unlinked, its reference count is 0, its words are 0 if ALLOC_ZERO is set and unchanged if not,
-- and nothing else of the memory or of the page array changes.
pub page_alloc-pops :
    (flags x : ℕ) (xs : List ℕ) (k : Kernel)
    → Fits k
    → IsFreeList k (x ∷ xs)
    → (k' : Kernel) × (page_alloc flags k ≡ ok (some x) k')
      × IsFreeList k' xs
      × (k'.pages x ≡ record { pp_link = none; pp_ref = 0 })
      × ((i : ℕ) → k'.word x i ≡ (if test flags alloc_zero then 0 else k.word x i))
      × ((p : ℕ) → p ≢ x → (k'.pages p ≡ k.pages p) × (k'.word p ≡ k.word p))
page_alloc-pops flags x xs k fits l = (
  taken flags x k,
  page_alloc-some flags x xs k fits l,
  taken-IsFreeList flags x xs k l,
  ground (arith, l.unused x),
  λ i. ground arith,
  λ p ne. ground arith,
)

taken-freed : (p : ℕ) (k : Kernel) → (k.pages p).pp_link ≡ none → taken 0 p (freed p k) ≡ k
unfolding test
taken-freed p k alone =
    ap₂ (λ pg l. record k { pages = pg; page_free_list = l }) (fun_ext λ q. ground arith)
      (ground arith)

-- page_free puts an allocated page whose count is 0 in front of the list, and page_alloc without
-- ALLOC_ZERO then returns it and restores the state.
pub page_alloc-page_free :
    (p : ℕ) (xs : List ℕ) (k : Kernel)
    → Fits k
    → IsFreeList k xs
    → has p xs ≡ false
    → p < k.npages
    → (k.pages p).pp_ref ≡ 0
    → (k' : Kernel) × (page_free p k ≡ ok tt k')
      × IsFreeList k' (p ∷ xs)
      × (page_alloc 0 k' ≡ ok (some p) k)
page_alloc-page_free p xs k fits l out lt free =
    let l' = freed-IsFreeList p xs k l out lt free in
    (
      freed p k,
      page_free-freed p k free (l.unlinked p out),
      l',
      page_alloc-some 0 p xs (freed p k) fits l'
          ∙ ap (ok (some p)) (taken-freed p k (l.unlinked p out)),
    )

has-middle : (p : ℕ) (ys zs : List ℕ) → has p (ys ++ p ∷ zs) ≡ true
has-middle p [] zs = ground arith
has-middle p (y ∷ ys) zs = ground (arith, has-middle p ys zs)

-- In the list a page links to its successor.
successor : List ℕ → Option ℕ
successor [] = none
successor (z ∷ zs) = some z

successor-some : (zs : List ℕ) → zs ≢ [] → (z : ℕ) × (successor zs ≡ some z)
unfolding successor
successor-some [] ne = absurd (ne refl)
successor-some (z ∷ zs) ne = (z, refl)

link_of_member :
    (p : ℕ) (ys zs : List ℕ) (pg : ℕ → PageInfo) (head : Option ℕ)
    → Chain pg head (ys ++ p ∷ zs)
    → (pg p).pp_link ≡ successor zs
unfolding successor
link_of_member p [] [] pg head c = c.1
link_of_member p [] (z ∷ zs) pg head c = c.1.0
link_of_member p (y ∷ ys) zs pg head c = link_of_member p ys zs pg (pg y).pp_link c.1

-- page_free stops a second release of a free page that has a successor in the list. It lets the
-- last page of the list pass, and makes it the head of the list with a link to the old head.
pub page_free-double :
    (p : ℕ) (ys zs : List ℕ) (k : Kernel)
    → IsFreeList k (ys ++ p ∷ zs)
    → (zs ≢ [] → page_free p k ≡ panicked) × (zs ≡ [] → page_free p k ≡ ok tt (freed p k))
unfolding page_free successor
page_free-double p ys zs k l = (
  λ more.
      ground
        (arith, successor-some zs more, link_of_member p ys zs k.pages k.page_free_list l.chain),
  λ last.
      page_free-freed p k (l.unused p (has-middle p ys zs))
        (link_of_member p ys zs k.pages k.page_free_list l.chain ∙ ap successor last),
)

-- The state k' is k with one reference to the page `p` dropped: the page is free when that was the
-- last one, and apart from its entry and the list nothing changed.
pub record IsDropped (p : ℕ) (xs : List ℕ) (k k' : Kernel) : Type 0 where
  pub count : (k'.pages p).pp_ref ≡ (k.pages p).pp_ref - 1
  pub list : IsFreeList k' (if (k.pages p).pp_ref == 1 then p ∷ xs else xs)
  pub others : (q : ℕ) → q ≢ p → k'.pages q ≡ k.pages q
  pub rest : k' ≡ record k { pages = k'.pages; page_free_list = k'.page_free_list }

-- page_decref of an allocated page drops one reference.
pub page_decref_lem :
    (p : ℕ) (xs : List ℕ) (k : Kernel)
    → IsFreeList k xs
    → has p xs ≡ false
    → p < k.npages
    → 0 < (k.pages p).pp_ref
    → (k.pages p).pp_ref < 2 ^ 16
    → (k' : Kernel) × (page_decref p k ≡ ok tt k') × IsDropped p xs k k'
unfolding page_decref
page_decref_lem p xs k l out lt pos small =
    let r = (k.pages p).pp_ref - 1 in
    let v : PageInfo = record (k.pages p) { pp_ref = r } in
    let k1 : Kernel = record k { pages = update k.pages p v } in
    let less : ((k.pages p).pp_ref + 65535) % 65536 ≡ r = omega arith in
    let l1 : IsFreeList k1 xs = update-IsFreeList p v xs k l out (l.unlinked p out) in
    elim (Bool-cases ((k.pages p).pp_ref == 1)) [
      | inl last ↦ (
        freed p k1,
        rw less (ground (arith, l.unlinked p out)),
        record {
          count = ground arith;
          list = rw last (freed-IsFreeList p xs k1 l1 out lt (ground arith));
          others = λ q ne. ground arith;
          rest = refl;
        },
      )
      | inr more ↦ (
        k1,
        rw less (ground arith),
        record {
          count = ground arith;
          list = rw more l1;
          others = λ q ne. ground arith;
          rest = refl;
        },
      )
    ]
