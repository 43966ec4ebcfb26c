-- ===== src/Pmap/UserMem/Range.antt =====
-- What user_mem_check promises, page by page and then address by address.
use pmake_os.Base.{
  ℕ, zero, suc, ◌+◌, ◌-◌, ◌*◌, ◌/◌, ◌%◌, ◌^◌, ◌≤◌, ◌<◌, ◌≡◌, refl, ◌∙◌, ◌⊎◌, inl, inr, Bool, true,
  false, ◌&&◌, not, some, arith, ltb, bit_and, ◌==◌, if◌then◌else◌, Bool-cases, lt→ltb, le→ltb,
}
use native.Mathlib.Numerals.{add-one}
use native.Mathlib.Decide.{dec_lt, ℕ_discrete}
use pmake_os.Kernel.{Kernel}
use pmake_os.Kernel.Run.{Run, ok}
use pmake_os.Kernel.Ret.{Ret, val, err, e_fault}
use pmake_os.Mmu.{u32, pg_size, pte_p, ulim, pdx, ptx, test, round_down, round_up}
use pmake_os.Mmu.Laws.{test-present, test-absent}
use pmake_os.Pmap.Alloc.{mapped_pages}
use pmake_os.Pmap.Paging.Walk.{IsTable, pgdir_walk-present, pgdir_walk-missing}
use pmake_os.Pmap.UserMem.{refused, check_page, user_mem_loop, user_mem_check}

-- The page at `i` lies below ULIM, both of its entries are present, and the lower one has all of
-- the flags `perm`.
unfoldable pub grants : Kernel → ℕ → ℕ → ℕ → Bool
grants k pgdir perm i =
    let pde = k.word pgdir (pdx i) in
    let pte = k.word (pde / 4096) (ptx i) in
    ltb i ulim && (test pde pte_p && (test pte pte_p && (bit_and pte perm == perm)))

-- Every present directory entry leads to a page of the machine that the kernel reaches.
abbrev pub Valid : Kernel → ℕ → Type 0
Valid k pgdir =
    (i : ℕ)
    → test (k.word pgdir i) pte_p ≡ true
    → (k.word pgdir i / 4096 < k.npages) × (k.word pgdir i / 4096 < mapped_pages)

loop-ends_any :
    (k : Kernel) (env perm va end n i : ℕ)
    → end ≤ i
    → user_mem_loop (suc n) env va end perm i k ≡ ok (val 0) k
unfolding user_mem_loop
loop-ends_any k env perm va end n i past = rw (le→ltb i end past)

module _ (k : Kernel) (env pgdir perm : ℕ) (dir : (k.envs env).env_pgdir ≡ some pgdir)
    (valid : Valid k pgdir) where
  check_page-grants : (i : ℕ) → check_page env perm i k ≡ ok (not (grants k pgdir perm i)) k
  unfolding check_page refused grants
  check_page-grants i = elim (Bool-cases (test (k.word pgdir (pdx i)) pte_p)) [
    | inl here ↦
        let t : IsTable k pgdir i (k.word pgdir (pdx i) / 4096) = record {
          present = test-present (k.word pgdir (pdx i)) here;
          target = refl;
          inside = (valid (pdx i) here).0;
          reached = (valid (pdx i) here).1;
        } in
        rw (dir, pgdir_walk-present k pgdir i (k.word pgdir (pdx i) / 4096) false t) (ground arith)
    | inr gone ↦
        rw (dir, pgdir_walk-missing k pgdir i (test-absent (k.word pgdir (pdx i)) gone))
          (ground arith)
  ]

  module _ (va end : ℕ) where
    -- From `i` on every page up to `end` is granted, or the loop stops at the first that is not.
    abbrev Answer : ℕ → ℕ → Type 0
    Answer n i =
        ((user_mem_loop n env va end perm i k ≡ ok (val 0) k)
          × ((j : ℕ) → j % 4096 ≡ 0 → i ≤ j → j < end → grants k pgdir perm j ≡ true))
        ⊎ ((b : ℕ) × (user_mem_loop n env va end perm i k
              ≡ ok (err e_fault) (record k { user_mem_check_addr = if ltb b va then va else b }))
            × (b % 4096 ≡ 0)
            × (i ≤ b)
            × (b < end)
            × (grants k pgdir perm b ≡ false)
            × ((j : ℕ) → j % 4096 ≡ 0 → i ≤ j → j < b → grants k pgdir perm j ≡ true))

    module _ (n i : ℕ) (inside : i < end) where
      loop-refuses :
          grants k pgdir perm i ≡ false
          → user_mem_loop (suc n) env va end perm i k
            ≡ ok (err e_fault) (record k { user_mem_check_addr = if ltb i va then va else i })
      unfolding user_mem_loop
      loop-refuses g = rw (lt→ltb i end inside, check_page-grants i, g)

      loop-grants :
          grants k pgdir perm i ≡ true
          → i + 4096 < 2 ^ 32
          → user_mem_loop (suc n) env va end perm i k ≡ user_mem_loop n env va end perm (i + 4096) k
      unfolding user_mem_loop
      loop-grants g small =
          let same : (i + 4096) % 4294967296 ≡ i + 4096 = omega arith in
          rw (lt→ltb i end inside, check_page-grants i, g, same)

    loop-ends : (n i : ℕ) → end ≤ i → user_mem_loop (suc n) env va end perm i k ≡ ok (val 0) k
    loop-ends = loop-ends_any k env perm va end

    -- The page at `i` is granted, and so are those that an answer from the next page on covers.
    from_next :
        (i b : ℕ)
        → i % 4096 ≡ 0
        → grants k pgdir perm i ≡ true
        → ((j : ℕ) → j % 4096 ≡ 0 → i + 4096 ≤ j → j < b → grants k pgdir perm j ≡ true)
        → (j : ℕ) → j % 4096 ≡ 0
        → i ≤ j
        → j < b
        → grants k pgdir perm j ≡ true
    from_next i b al g later j aj lo hi = elim (ℕ_discrete j i) [
      | yes e ↦ rw e g
      | no ne ↦ later j aj (omega arith) hi
    ]

    further :
        (n i : ℕ)
        → i % 4096 ≡ 0
        → i < end
        → i + 4096 < 2 ^ 32
        → grants k pgdir perm i ≡ true
        → Answer n (i + 4096)
        → Answer (suc n) i
    further n i al inside small g (inl (ran, all)) =
        inl (loop-grants n i inside g small ∙ ran, from_next i end al g all)
    further n i al inside small g (inr (b, ran, ab, lo, hi, bad, all)) =
        inr (
          b,
          loop-grants n i inside g small ∙ ran,
          ab,
          omega arith,
          hi,
          bad,
          from_next i b al g all,
        )

    answer :
        (n i : ℕ)
        → i % 4096 ≡ 0
        → end % 4096 ≡ 0
        → end < 2 ^ 32
        → i ≤ end
        → end + 4096 ≤ i + n * 4096
        → Answer n i
    answer zero i al ae small le fuel = absurd (omega arith)
    answer (suc n) i al ae small le fuel = elim (dec_lt i end) [
      | no past ↦ inl (loop-ends n i (omega arith), λ j aj lo hi. absurd (omega arith))
      | yes inside ↦ elim (Bool-cases (grants k pgdir perm i)) [
        | inl g ↦
            further n i al inside (omega arith) g
              (answer n (i + 4096) (omega arith) ae small (omega arith) (omega arith))
        | inr g ↦ inr (
          i,
          loop-refuses n i inside g,
          al,
          omega arith,
          inside,
          g,
          λ j aj lo hi. absurd (omega arith),
        )
      ]
    ]

round_down-le_of_le : (a b : ℕ) → b % 4096 ≡ 0 → b ≤ a → a < b + 4096 → round_down a pg_size ≡ b
unfolding round_down
round_down-le_of_le a b ab lo hi = omega arith

begin_facts :
    (va : ℕ)
    → (round_down va pg_size % 4096 ≡ 0)
      × (round_down va pg_size ≤ va)
      × (va < round_down va pg_size + 4096)
unfolding round_down
begin_facts va = omega arith

end_facts :
    (a : ℕ)
    → a + pg_size ≤ 2 ^ 32
    → (round_up (u32 a) pg_size % 4096 ≡ 0)
      × (a ≤ round_up (u32 a) pg_size)
      × (round_up (u32 a) pg_size < a + 4096)
unfolding round_up round_down
end_facts a fits = omega arith

-- From pages to addresses.
in_bytes :
    (k : Kernel) (pgdir perm va len begin end : ℕ) (run : Run Ret)
    → begin % 4096 ≡ 0
    → begin ≤ va
    → va < begin + 4096
    → end % 4096 ≡ 0
    → va + len ≤ end
    → end < va + len + 4096
    → 0 < len
    → ((run ≡ ok (val 0) k)
        × ((j : ℕ) → j % 4096 ≡ 0 → begin ≤ j → j < end → grants k pgdir perm j ≡ true))
      ⊎ ((b : ℕ) × (run
            ≡ ok (err e_fault) (record k { user_mem_check_addr = if ltb b va then va else b }))
          × (b % 4096 ≡ 0)
          × (begin ≤ b)
          × (b < end)
          × (grants k pgdir perm b ≡ false)
          × ((j : ℕ) → j % 4096 ≡ 0 → begin ≤ j → j < b → grants k pgdir perm j ≡ true))
    → ((run ≡ ok (val 0) k)
        × ((a : ℕ) → va ≤ a → a < va + len → grants k pgdir perm (round_down a pg_size) ≡ true))
      ⊎ ((a : ℕ) × (run ≡ ok (err e_fault) (record k { user_mem_check_addr = a }))
          × (va ≤ a)
          × (a < va + len)
          × (grants k pgdir perm (round_down a pg_size) ≡ false)
          × ((c : ℕ) → va ≤ c → c < a → grants k pgdir perm (round_down c pg_size) ≡ true))
in_bytes k pgdir perm va len begin end run ab lo hi ae le gt some_bytes (inl (ran, all)) = inl (
  ran,
  λ a la ha.
      let f = begin_facts a in all (round_down a pg_size) f.0 (omega (arith, f)) (omega (arith, f)),
)
in_bytes k pgdir perm va len begin end run ab lo hi ae le gt some_bytes
      (inr (b, ran, bb, lb, hb, bad, all)) =
    let a = if ltb b va then va else b in
    let same : round_down a pg_size ≡ b =
      round_down-le_of_le a b bb (ground arith) (ground arith) in
    inr (
      a,
      ran,
      ground arith,
      ground arith,
      rw same bad,
      λ c lc hc.
          let f = begin_facts c in
          all (round_down c pg_size) f.0 (omega (arith, f)) (ground (arith, f, same)),
    )

-- user_mem_check of a range of one byte or more whose end is at least a page below 2^32, under a
-- valid directory: either it returns 0, changes nothing, and the page of every address of the range
-- is granted; or it returns -E_FAULT with user_mem_check_addr set to the first address of the range
-- whose page is not granted, and changes nothing else.
pub user_mem_check_lem :
    (k : Kernel) (env pgdir va len perm : ℕ)
    → (k.envs env).env_pgdir ≡ some pgdir
    → Valid k pgdir
    → 0 < len
    → va + len + pg_size ≤ 2 ^ 32
    → ((user_mem_check env va len perm k ≡ ok (val 0) k)
        × ((a : ℕ) → va ≤ a → a < va + len → grants k pgdir perm (round_down a pg_size) ≡ true))
      ⊎ ((a : ℕ) × (user_mem_check env va len perm k
            ≡ ok (err e_fault) (record k { user_mem_check_addr = a }))
          × (va ≤ a)
          × (a < va + len)
          × (grants k pgdir perm (round_down a pg_size) ≡ false)
          × ((c : ℕ) → va ≤ c → c < a → grants k pgdir perm (round_down c pg_size) ≡ true))
unfolding user_mem_check
user_mem_check_lem k env pgdir va len perm dir valid some_bytes fits =
    let begin = round_down va pg_size in
    let end = round_up (u32 (va + len)) pg_size in
    let b = begin_facts va in
    let e = end_facts (va + len) fits in
    in_bytes k pgdir perm va len begin end
      (user_mem_loop ((end - begin) / pg_size + 1) env va end perm begin k) b.0 b.1 b.2 e.0 e.1 e.2
      some_bytes
      (answer k env pgdir perm dir valid va end ((end - begin) / pg_size + 1) begin b.0 e.0
        (omega (arith, e)) (omega (arith, e, b)) (omega (arith, e, b)))

-- Where the end of a range of at most 2^32 - 4096 bytes wraps round when it is rounded up to a page,
-- user_mem_check returns 0 for every environment, every directory and every permission, so that the
-- kernel's own addresses pass the test.
pub user_mem_check-wraps :
    (k : Kernel) (env va len perm : ℕ)
    → va < 2 ^ 32
    → len + pg_size ≤ 2 ^ 32
    → 2 ^ 32 < va + len + pg_size
    → user_mem_check env va len perm k ≡ ok (val 0) k
unfolding user_mem_check round_down round_up
user_mem_check-wraps k env va len perm small short wraps =
    let begin = va - va % 4096 in
    let last = ((va + len) % 4294967296 + 4096 - 1) % 4294967296 in
    let end = last - last % 4096 in
    rw (add-one ((end - begin) / 4096))
      (loop-ends_any k env perm va end ((end - begin) / 4096) begin (omega arith))
