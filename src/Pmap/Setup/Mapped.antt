-- ===== src/Pmap/Setup/Mapped.antt =====
-- The kernel's part of the address space as mem_init leaves it.
use pmake_os.Base.{
  ℕ, zero, suc, ◌+◌, ◌-◌, ◌*◌, ◌/◌, ◌%◌, ◌^◌, ◌≤◌, ◌<◌, ◌≡◌, refl, sym, ap, subst, ◌∙◌, ◌≢◌, inl,
  inr, false, ◌&&◌, List, arith, length, leb, ltb, if◌then◌else◌, Bool-cases,
}
use native.Mathlib.Decide.{ℕ_discrete}
use pmake_os.Kernel.{Kernel}
use pmake_os.Kernel.Run.{ok}
use pmake_os.Mmu.{pte_w, pdx, uvpt, kstacktop, kern_base}
use pmake_os.Pmap.Alloc.{paddr}
use pmake_os.Pmap.Space.{view, IsSpace}
use pmake_os.Pmap.Space.Steps.{region_entry, spans, IsAside, IsMapped}
use pmake_os.Pmap.Space.Region.{pages_of, boot_map_region-IsMapped}
use pmake_os.Pmap.Setup.{kstksize, kstkgap, map_kva, mem_init_mp_loop}

pub map_kva-IsMapped :
    (k : Kernel) (va size kva perm : ℕ) (xs : List ℕ)
    → IsSpace k k.kern_pgdir xs
    → va % 4096 ≡ 0
    → va + size ≤ 2 ^ 32
    → 0 < size
    → IsAside (va / 4096) (pages_of size)
    → spans (va / 4096) (pages_of size) ≤ length xs
    → kern_base ≤ kva
    → kva < 2 ^ 32
    → (k' : Kernel) × (map_kva va size kva perm k ≡ ok tt k')
      × IsMapped k.kern_pgdir (va / 4096) (pages_of size) (kva - kern_base) perm xs k k'
unfolding map_kva paddr
map_kva-IsMapped k va size kva perm xs s aligned range some_bytes aside enough low high =
    let (k', ran, m) =
      boot_map_region-IsMapped k k.kern_pgdir va size (kva - kern_base) perm xs s aligned range
        some_bytes aside enough (omega arith) in
    let above : ltb kva kern_base ≡ false = ground arith in (k', rw above ran, m)

-- The CPU whose stack or guard the page q is in, and the entry of a page of its stack, for the physical
-- address of the stacks.
abbrev pub cpu_at : ℕ → ℕ
cpu_at q = (0xE_FFFF - q) / 16

abbrev pub stack_page : ℕ → ℕ
stack_page c = 0xF_0000 - 8 - 16 * c

abbrev pub stack_entry : ℕ → ℕ → ℕ
stack_entry base q = region_entry (stack_page (cpu_at q)) (base + cpu_at q * 0x8000) pte_w q

-- The entry of the page q after the stacks of the n CPUs from CPU i on are mapped: the upper half of
-- sixteen pages is the stack, the lower half the guard.
abbrev pub stacks : ℕ → ℕ → ℕ → ℕ → ℕ → ℕ
stacks base i n q old =
    if leb (0xF_0000 - 16 * (i + n)) q && (ltb q (0xF_0000 - 16 * i) && leb 8 (q % 16))
    then stack_entry base q
    else old

stacks_none : (base i q old : ℕ) → stacks base i 0 q old ≡ old
stacks_none base i q old = ground arith

stacks_step :
    (base i n q old : ℕ)
    → i + suc n ≤ 8
    → stacks base (i + 1) n q (
        if leb (stack_page i) q && ltb q (stack_page i + 8)
        then region_entry (stack_page i) (base + i * 0x8000) pte_w q
        else old)
      ≡ stacks base i (suc n) q old
stacks_step base i n q old h = elim (ℕ_discrete (cpu_at q) i) [
  | yes e ↦ elim (Bool-cases (leb (stack_page i) q && ltb q (stack_page i + 8))) [
    | inl b ↦ rw (b, e) (ground arith)
    | inr b ↦ rw b (ground arith)
  ]
  | no ne ↦ ground arith
]

stack_spans : (i : ℕ) → i < 8 → spans (stack_page i) 8 ≡ 1
stack_spans i h = ground arith

-- The state k' is k with the address space `f` of k's, by page number; at most n free pages were used.
pub record IsRemapped (f : ℕ → ℕ → ℕ) (n : ℕ) (xs : List ℕ) (k k' : Kernel) : Type 0 where
  pub left : List ℕ
  pub space : IsSpace k' k'.kern_pgdir left
  pub enough : length xs ≤ length left + n
  pub size : k'.npages ≡ k.npages
  pub directory : k'.kern_pgdir ≡ k.kern_pgdir
  pub views :
      (d i : ℕ)
      → d ≢ pdx uvpt
      → i < 1024
      → view k' k'.kern_pgdir d i ≡ f (d * 1024 + i) (view k k.kern_pgdir d i)

-- One region.
pub mapped-IsRemapped :
    (p n pa perm c : ℕ) (xs : List ℕ) (k k' : Kernel)
    → spans p n ≤ c
    → IsMapped k.kern_pgdir p n pa perm xs k k'
    → IsRemapped
        (λ q old. if leb p q && ltb q (p + n) then region_entry p pa perm q else old)
        c
        xs
        k
        k'
mapped-IsRemapped p n pa perm c xs k k' few m = record {
  left = m.left;
  space = subst (λ (g : ℕ). IsSpace k' g m.left) (sym m.directory) m.space;
  enough = omega (arith, m.enough, few);
  size = m.size;
  directory = m.directory;
  views = λ d i ne hi. ap (λ (g : ℕ). view k' g d i) m.directory ∙ m.views d i ne hi;
}

-- One region after another.
pub IsRemapped-then :
    (f g : ℕ → ℕ → ℕ) (a b : ℕ) (xs : List ℕ) (k k1 k' : Kernel)
    → (r : IsRemapped f a xs k k1) → IsRemapped g b r.left k1 k'
    → IsRemapped (λ q old. g q (f q old)) (a + b) xs k k'
IsRemapped-then f g a b xs k k1 k' r s = record {
  left = s.left;
  space = s.space;
  enough = omega (arith, r.enough, s.enough);
  size = s.size ∙ r.size;
  directory = s.directory ∙ r.directory;
  views = λ d i ne hi. s.views d i ne hi ∙ ap (g (d * 1024 + i)) (r.views d i ne hi);
}

-- The same map, described otherwise.
pub IsRemapped-as :
    (f g : ℕ → ℕ → ℕ) (a b : ℕ) (xs : List ℕ) (k k' : Kernel)
    → ((q old : ℕ) → f q old ≡ g q old)
    → a ≡ b
    → IsRemapped f a xs k k'
    → IsRemapped g b xs k k'
IsRemapped-as f g a b xs k k' same e r = record {
  left = r.left;
  space = r.space;
  enough = omega (arith, r.enough, e);
  size = r.size;
  directory = r.directory;
  views = λ d i ne hi. r.views d i ne hi ∙ same _ _;
}

pub mem_init_mp_loop-IsRemapped :
    (percpu n i : ℕ) (k : Kernel) (xs : List ℕ)
    → IsSpace k k.kern_pgdir xs
    → i + n ≤ 8
    → n ≤ length xs
    → kern_base ≤ percpu
    → percpu + 8 * kstksize ≤ 2 ^ 32
    → (k' : Kernel) × (mem_init_mp_loop percpu n i k ≡ ok tt k')
      × IsRemapped (stacks (percpu - kern_base) i n) n xs k k'
unfolding mem_init_mp_loop
mem_init_mp_loop-IsRemapped percpu zero i k xs s within enough low high = (
  k,
  refl,
  record {
    left = xs;
    space = s;
    enough = omega arith;
    size = refl;
    directory = refl;
    views = λ d j ne hj. sym (stacks_none (percpu - kern_base) i (d * 1024 + j) _);
  },
)
mem_init_mp_loop-IsRemapped percpu (suc n) i k xs s within enough low high =
    let va = kstacktop - kstksize - i * (kstksize + kstkgap) in
    let at : va / 4096 ≡ stack_page i = omega arith in
    let few = stack_spans i (omega arith) in
    let (k1, ran, m) =
      map_kva-IsMapped k va kstksize (percpu + i * kstksize) pte_w xs s (omega arith) (omega arith)
        (omega arith) (inr (omega arith)) (rw (at, few) (omega arith)) (omega arith)
        (omega arith) in
    let at_pa : percpu + i * kstksize - kern_base ≡ percpu - kern_base + i * 0x8000 = omega arith in
    let r =
      mapped-IsRemapped (stack_page i) 8 (percpu - kern_base + i * 0x8000) pte_w 1 xs k k1
        (rw few (omega arith))
        (subst
          (λ (p : ℕ). IsMapped k.kern_pgdir p 8 (percpu - kern_base + i * 0x8000) pte_w xs k k1) at
          (subst (λ (pa : ℕ). IsMapped k.kern_pgdir (va / 4096) 8 pa pte_w xs k k1) at_pa m)) in
    let (k', ran', r') =
      mem_init_mp_loop-IsRemapped percpu n (i + 1) k1 r.left r.space (omega arith)
        (omega (arith, r.enough)) low high in
    (
      k',
      rw ran ran',
      IsRemapped-as _ _ _ _ xs k k' (λ q old. stacks_step (percpu - kern_base) i n q old within)
          (omega arith) (IsRemapped-then _ _ 1 n xs k k1 k' r r'),
    )
