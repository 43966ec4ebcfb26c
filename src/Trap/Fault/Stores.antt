-- ===== src/Trap/Fault/Stores.antt =====
-- Stores by the kernel through the loaded directory: what page_fault_handler of kern/trap.c writes.
use pmake_os.Base.{
  ℕ, ◌+◌, ◌*◌, ◌/◌, ◌%◌, ◌^◌, ◌≤◌, ◌<◌, ◌≡◌, ◌≢◌, refl, sym, ap, ◌∙◌, ◌⊎◌, inl, inr, true, false,
  List, [], ◌∷◌, arith, bytes, length, ◌==◌, ne→==,
}
use native.Mathlib.Decide.{ℕ_discrete}
use pmake_os.Kernel.{Kernel}
use pmake_os.Kernel.Run.{ok}
use pmake_os.Mmu.{pte_p, pte_w, pdx, ptx, test}
use pmake_os.Pmap.Paging.{slot, store}
use pmake_os.Trap.{store_va, store_words}

-- The page p is mapped, in the loaded directory, to the page f, and the kernel may write to it; f is
-- neither the directory nor the table.
pub record IsWritable (p f : ℕ) (k : Kernel) : Type 0 where
  pub table : test (k.word k.cr3 (p / 1024 % 1024)) pte_p ≡ true
  pub table_writable : test (k.word k.cr3 (p / 1024 % 1024)) pte_w ≡ true
  pub page : test (k.word (k.word k.cr3 (p / 1024 % 1024) / 4096) (p % 1024)) pte_p ≡ true
  pub page_writable : test (k.word (k.word k.cr3 (p / 1024 % 1024) / 4096) (p % 1024)) pte_w ≡ true
  pub target : k.word (k.word k.cr3 (p / 1024 % 1024) / 4096) (p % 1024) / 4096 ≡ f
  pub no_directory : f ≢ k.cr3
  pub no_table : f ≢ k.word k.cr3 (p / 1024 % 1024) / 4096

-- The words are in the page from the index on, and no other word of memory changed.
pub record IsStored (f index : ℕ) (ws : List ℕ) (k k' : Kernel) : Type 0 where
  pub stored : bytes (k'.word f) index (length ws) ≡ ws
  pub before : (i : ℕ) → i < index → k'.word f i ≡ k.word f i
  pub behind : (i : ℕ) → index + length ws ≤ i → k'.word f i ≡ k.word f i
  pub others : (q : ℕ) → q ≢ f → k'.word q ≡ k.word q
  pub rest : k' ≡ record k { word = k'.word }

-- The word j of the page q lies outside the words from the index on.
abbrev pub Outside : ℕ → ℕ → ℕ → ℕ → ℕ → Type 0
Outside f index n q j = q ≢ f ⊎ (j < index) ⊎ (index + n ≤ j)

pub IsStored-Outside :
    (f index q j : ℕ) (ws : List ℕ) (k k' : Kernel)
    → IsStored f index ws k k'
    → Outside f index (length ws) q j
    → k'.word q j ≡ k.word q j
IsStored-Outside f index q j ws k k' s (inl ne) = ap (λ (m : ℕ → ℕ). m j) (s.others q ne)
IsStored-Outside f index q j ws k k' s (inr out) = elim (ℕ_discrete q f) [
  | no ne ↦ ap (λ (m : ℕ → ℕ). m j) (s.others q ne)
  | yes e ↦ elim out [ inl low ↦ rw e (s.before j low) | inr high ↦ rw e (s.behind j high) ]
]

abbrev written : ℕ → ℕ → ℕ → Kernel → Kernel
written f i w k = store (slot f i) w k

store_va-written :
    (p f i w : ℕ) (k : Kernel)
    → IsWritable p f k
    → i < 1024
    → p < 2 ^ 20
    → store_va (p * 4096 + 4 * i) w k ≡ ok tt (written f i w k)
unfolding store_va pdx ptx
store_va-written p f i w k h inside small =
    let d : (p * 4096 + 4 * i) / 2 ^ 22 % 1024 ≡ p / 1024 % 1024 = omega arith in
    let t : (p * 4096 + 4 * i) / 2 ^ 12 % 1024 ≡ p % 1024 = omega arith in
    let index : (p * 4096 + 4 * i) % 4096 / 4 ≡ i = omega arith in
    rw (d, t, h.table, h.page, h.table_writable, h.page_writable, h.target, index) refl

written-IsWritable :
    (p f i w : ℕ) (k : Kernel) → IsWritable p f k → IsWritable p f (written f i w k)
written-IsWritable p f i w k h =
    let d : (k.cr3 == f) ≡ false = ne→== k.cr3 f (λ e. h.no_directory (sym e)) in
    let t : (k.word k.cr3 (p / 1024 % 1024) / 4096 == f) ≡ false =
      ne→== (k.word k.cr3 (p / 1024 % 1024) / 4096) f (λ e. h.no_table (sym e)) in
    record {
      table = rw d (h.table);
      table_writable = rw d (h.table_writable);
      page = rw (d, t) (h.page);
      page_writable = rw (d, t) (h.page_writable);
      target = rw (d, t) (h.target);
      no_directory = h.no_directory;
      no_table = rw d (h.no_table);
    }

pub store_words-IsStored :
    (p f i : ℕ) (ws : List ℕ) (k : Kernel)
    → IsWritable p f k
    → i + length ws ≤ 1024
    → p < 2 ^ 20
    → (k' : Kernel) × (store_words (p * 4096 + 4 * i) ws k ≡ ok tt k') × IsStored f i ws k k'
unfolding store_words
store_words-IsStored p f i [] k h inside small = (
  k,
  refl,
  record {
    stored = refl;
    before = λ j lt. refl;
    behind = λ j ge. refl;
    others = λ q ne. refl;
    rest = refl;
  },
)
store_words-IsStored p f i (w ∷ ws) k h inside small =
    let k1 = written f i w k in
    let (k', ran, s) =
      store_words-IsStored p f (i + 1) ws k1 (written-IsWritable p f i w k h) (omega arith) small in
    let next : p * 4096 + 4 * i + 4 ≡ p * 4096 + 4 * (i + 1) = omega arith in
    (
      k',
      rw (store_va-written p f i w k h (omega arith) small, next) ran,
      record {
        stored =
            ap (λ (r : List ℕ). k'.word f i ∷ r) (s.stored)
            ∙ ap (λ (x : ℕ). x ∷ ws) (s.before i (omega arith) ∙ ground arith);
        before = λ j lt. s.before j (omega arith) ∙ ground arith;
        behind = λ j ge. s.behind j (omega arith) ∙ ground arith;
        others = λ q ne. s.others q ne ∙ rw (ne→== q f ne) refl;
        rest = s.rest ∙ refl;
      },
    )
