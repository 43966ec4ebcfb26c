-- ===== src/Pmap/Setup/Layout.antt =====
-- init_mappings of mem_init against the picture of the memory in inc/memlayout.h.
use pmake_os.Base.{
  ℕ, false, true, ap, ◌+◌, ◌-◌, ◌*◌, ◌%◌, ◌^◌, ◌≤◌, ◌<◌, ◌≡◌, refl, inl, inr, ◌&&◌, List, arith,
  bit_or, length, leb, ltb, if◌then◌else◌, Bool-cases,
}
use pmake_os.Kernel.{Kernel}
use pmake_os.Kernel.Run.{ok}
use pmake_os.Mmu.{u32, pte_p, pte_w, pte_u, upages, uenvs, kstacktop, kern_base, pt_size}
use pmake_os.Pmap.Paging.{boot_map_region}
use pmake_os.Pmap.Space.{IsSpace}
use pmake_os.Pmap.Space.Steps.{region_entry, spans}
use pmake_os.Pmap.Space.Region.{boot_map_region-IsMapped}
use pmake_os.Pmap.Setup.{kstksize, map_kva, init_mappings, mem_init_mp_loop, mem_init_mp}
use pmake_os.Pmap.Setup.Mapped.{
  cpu_at, stack_page, map_kva-IsMapped, stack_entry, stacks, IsRemapped, mapped-IsRemapped,
  IsRemapped-then, IsRemapped-as, mem_init_mp_loop-IsRemapped,
}

-- The entry of the page q above UTOP: the environments, the pages, the stack of a CPU, whose guard
-- stays as it was, or the physical memory. The arguments are physical addresses.
abbrev pub layout : ℕ → ℕ → ℕ → ℕ → ℕ → ℕ
layout pages envs percpu q old =
    if leb 0xF_0000 q && ltb q 0x10_0000
    then region_entry 0xF_0000 0 pte_w q
    else if leb 0xE_FF80 q && (ltb q 0xF_0000 && leb 8 (q % 16))
    then stack_entry percpu q
    else if leb 0xE_F000 q && ltb q 0xE_F400
    then region_entry 0xE_F000 pages (bit_or pte_u pte_p) q
    else if leb 0xE_EC00 q && ltb q 0xE_F000
    then region_entry 0xE_EC00 envs (bit_or pte_u pte_p) q
    else old

-- The pages of a CPU's stack.
pub layout-stack :
    (cid pages envs percpu old j : ℕ)
    → cid < 8
    → j < 8
    → layout pages envs percpu (0xF_0000 - 16 * cid - 8 + j) old
      ≡ bit_or (bit_or (u32 (percpu + cid * kstksize + j * 4096)) pte_p) pte_w
layout-stack cid pages envs percpu old j c lt =
    let q = 0xF_0000 - 16 * cid - 8 + j in
    let low : (leb 0xF_0000 q && ltb q 0x10_0000) ≡ false = ground arith in
    let mine : (leb 0xE_FF80 q && (ltb q 0xF_0000 && leb 8 (q % 16))) ≡ true = ground arith in
    let place : percpu + cpu_at q * 0x8000 + (q - stack_page (cpu_at q)) * 4096
        ≡ percpu + cid * kstksize + j * 4096 =
      omega arith in
    rw (low, mine) (ap (λ (n : ℕ). bit_or (bit_or (u32 n) pte_p) pte_w) place)

-- The pages of the region for the page array, and those of the physical memory.
pub layout-pages :
    (pages envs percpu old j : ℕ)
    → j < 1024
    → layout pages envs percpu (0xE_F000 + j) old
      ≡ bit_or (bit_or (u32 (pages + j * 4096)) pte_p) (bit_or pte_u pte_p)
layout-pages pages envs percpu old j lt =
    let q = 0xE_F000 + j in
    let low : (leb 0xF_0000 q && ltb q 0x10_0000) ≡ false = ground arith in
    let stacks_apart : (leb 0xE_FF80 q && (ltb q 0xF_0000 && leb 8 (q % 16))) ≡ false =
      ground arith in
    let mine : (leb 0xE_F000 q && ltb q 0xE_F400) ≡ true = ground arith in
    let place : 0xE_F000 + j - 0xE_F000 ≡ j = omega arith in
    rw (low, stacks_apart, mine, place) refl

pub layout-envs :
    (pages envs percpu old j : ℕ)
    → j < 1024
    → layout pages envs percpu (0xE_EC00 + j) old
      ≡ bit_or (bit_or (u32 (envs + j * 4096)) pte_p) (bit_or pte_u pte_p)
layout-envs pages envs percpu old j lt =
    let q = 0xE_EC00 + j in
    let low : (leb 0xF_0000 q && ltb q 0x10_0000) ≡ false = ground arith in
    let stacks_apart : (leb 0xE_FF80 q && (ltb q 0xF_0000 && leb 8 (q % 16))) ≡ false =
      ground arith in
    let pages_apart : (leb 0xE_F000 q && ltb q 0xE_F400) ≡ false = ground arith in
    let mine : (leb 0xE_EC00 q && ltb q 0xE_F000) ≡ true = ground arith in
    let place : 0xE_EC00 + j - 0xE_EC00 ≡ j = omega arith in
    rw (low, stacks_apart, pages_apart, mine, place) refl

pub layout-memory :
    (pages envs percpu old j : ℕ)
    → j < 0x1_0000
    → layout pages envs percpu (0xF_0000 + j) old ≡ bit_or (bit_or (u32 (0 + j * 4096)) pte_p) pte_w
layout-memory pages envs percpu old j lt =
    let q = 0xF_0000 + j in
    let mine : (leb 0xF_0000 q && ltb q 0x10_0000) ≡ true = ground arith in
    let place : 0xF_0000 + j - 0xF_0000 ≡ j = omega arith in rw (mine, place) refl

-- The five steps one after another are the layout; the stack of CPU 0 replaces `bootstack`.
layout_steps :
    (pages envs boot percpu q old : ℕ)
    → stacks percpu 0 8 q (
        if leb 0xF_0000 q && ltb q (0xF_0000 + 0x1_0000)
        then region_entry 0xF_0000 0 pte_w q
        else if leb 0xE_FFF8 q && ltb q (0xE_FFF8 + 8)
        then region_entry 0xE_FFF8 boot pte_w q
        else if leb 0xE_EC00 q && ltb q (0xE_EC00 + 1024)
        then region_entry 0xE_EC00 envs (bit_or pte_u pte_p) q
        else if leb 0xE_F000 q && ltb q (0xE_F000 + 1024)
        then region_entry 0xE_F000 pages (bit_or pte_u pte_p) q
        else old)
      ≡ layout pages envs percpu q old
layout_steps pages envs boot percpu q old =
    elim (Bool-cases (leb 0xE_FF80 q && (ltb q 0xF_0000 && leb 8 (q % 16)))) [
      | inl b ↦ rw b (ground arith)
      | inr b ↦ rw b (ground arith)
    ]

spans_few : (p n c len : ℕ) → spans p n ≡ c → c ≤ len → spans p n ≤ len
spans_few p n c len e h = rw e h

le_refl : (n : ℕ) → n ≤ n
le_refl n = omega arith

-- The calls one after another.
init_mappings-runs :
    (pages envs bootstack percpu : ℕ) (k k1 k2 k3 k4 k' : Kernel)
    → map_kva upages pt_size pages (bit_or pte_u pte_p) k ≡ ok tt k1
    → map_kva uenvs pt_size envs (bit_or pte_u pte_p) k1 ≡ ok tt k2
    → map_kva (kstacktop - kstksize) kstksize bootstack pte_w k2 ≡ ok tt k3
    → boot_map_region k3.kern_pgdir kern_base (0xFFFF_FFFF - kern_base) 0 pte_w k3 ≡ ok tt k4
    → mem_init_mp_loop percpu 8 0 k4 ≡ ok tt k'
    → init_mappings pages envs bootstack percpu k ≡ ok tt k'
unfolding init_mappings mem_init_mp
init_mappings-runs pages envs bootstack percpu k k1 k2 k3 k4 k' a b c d e = rw (a, b, c, d) e

-- The mappings of mem_init, with 75 free pages for the tables and kernel addresses of the four arrays:
-- they are made without a panic, and the address space above UTOP is the layout, whatever was mapped
-- there, where every other entry and the guards of the stacks stay.
pub init_mappings-layout :
    (k : Kernel) (pages envs bootstack percpu : ℕ) (xs : List ℕ)
    → IsSpace k k.kern_pgdir xs
    → 75 ≤ length xs
    → kern_base ≤ pages
    → pages < 2 ^ 32
    → kern_base ≤ envs
    → envs < 2 ^ 32
    → kern_base ≤ bootstack
    → bootstack < 2 ^ 32
    → kern_base ≤ percpu
    → percpu + 8 * kstksize ≤ 2 ^ 32
    → (k' : Kernel) × (init_mappings pages envs bootstack percpu k ≡ ok tt k')
      × IsRemapped (layout (pages - kern_base) (envs - kern_base) (percpu - kern_base)) 75 xs k k'
init_mappings-layout k pages envs bootstack percpu xs s enough pl ph el eh bl bh cl ch =
    let u = bit_or pte_u pte_p in
    let (k1, ran1, m1) =
      map_kva-IsMapped k upages pt_size pages u xs s (omega arith) (omega arith) (omega arith)
        (inl (omega arith)) (spans_few 0xE_F000 1024 1 (length xs) refl (omega arith)) pl ph in
    let r1 = mapped-IsRemapped 0xE_F000 1024 (pages - kern_base) u 1 xs k k1 (le_refl 1) m1 in
    let (k2, ran2, m2) =
      map_kva-IsMapped k1 uenvs pt_size envs u r1.left r1.space (omega arith) (omega arith)
        (omega arith) (inl (omega arith))
        (spans_few 0xE_EC00 1024 1 (length r1.left) refl (omega (arith, r1.enough))) el eh in
    let r2 = mapped-IsRemapped 0xE_EC00 1024 (envs - kern_base) u 1 r1.left k1 k2 (le_refl 1) m2 in
    let (k3, ran3, m3) =
      map_kva-IsMapped k2 (kstacktop - kstksize) kstksize bootstack pte_w r2.left r2.space
        (omega arith) (omega arith) (omega arith) (inr (omega arith))
        (spans_few 0xE_FFF8 8 1 (length r2.left) refl (omega (arith, r1.enough, r2.enough))) bl
        bh in
    let r3 =
      mapped-IsRemapped 0xE_FFF8 8 (bootstack - kern_base) pte_w 1 r2.left k2 k3 (le_refl 1) m3 in
    let (k4, ran4, m4) =
      boot_map_region-IsMapped k3 k3.kern_pgdir kern_base (0xFFFF_FFFF - kern_base) 0 pte_w r3.left
        r3.space (omega arith) (omega arith) (omega arith) (inr (omega arith))
        (spans_few 0xF_0000 0x1_0000 64 (length r3.left) refl
          (omega (arith, r1.enough, r2.enough, r3.enough)))
        (omega arith) in
    let r4 = mapped-IsRemapped 0xF_0000 0x1_0000 0 pte_w 64 r3.left k3 k4 (le_refl 64) m4 in
    let (k', ran, r) =
      mem_init_mp_loop-IsRemapped percpu 8 0 k4 r4.left r4.space (omega arith)
        (omega (arith, r1.enough, r2.enough, r3.enough, r4.enough)) cl ch in
    let s4 = IsRemapped-then _ _ 64 8 r3.left k3 k4 k' r4 r in
    let s3 = IsRemapped-then _ _ 1 72 r2.left k2 k3 k' r3 s4 in
    let s2 = IsRemapped-then _ _ 1 73 r1.left k1 k2 k' r2 s3 in
    (
      k',
      init_mappings-runs pages envs bootstack percpu k k1 k2 k3 k4 k' ran1 ran2 ran3 ran4 ran,
      IsRemapped-as _ _ _ _ xs k k'
          (layout_steps (pages - kern_base) (envs - kern_base) (bootstack - kern_base)
            (percpu - kern_base))
          refl (IsRemapped-then _ _ 1 74 xs k k1 k' r1 s2),
    )
