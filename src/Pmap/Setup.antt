-- ===== src/Pmap/Setup.antt =====
-- mem_init of kern/pmap.c: how much memory there is, the arrays that the kernel keeps, and the mappings
-- above UTOP. The self-tests that mem_init calls between these steps are left out. What the linker or
-- the machine gives is an argument: `mc146818_read` reads a byte of the real-time clock's memory,
-- `bss_end` is the symbol `end`, `bootstack` and `percpu_kstacks` are the addresses of the stacks.
pub mod Mapped
pub mod Layout
pub mod Arrays
pub mod Start
use pmake_os.Base.{
  ℕ, zero, suc, ◌+◌, ◌-◌, ◌*◌, ◌/◌, ◌%◌, ◌^◌, false, none, bit_or, ◌==◌, if◌then◌else◌, update, not,
}
use pmake_os.Kernel.{Trapframe, env_free, env_type_user, Env, Kernel}
use pmake_os.Kernel.Run.{M, pure, ◌>>=◌, ◌>>◌, gets, modify}
use pmake_os.Mmu.{
  u32, pg_size, pt_size, pte_p, pte_w, pte_u, pdx, uvpt, upages, uenvs, kstacktop, kern_base,
  pg_num,
}
use pmake_os.Pmap.Alloc.{paddr, boot_alloc, page_init, zero_page}
use pmake_os.Pmap.Paging.{slot, store, boot_map_region}
use pmake_os.Env.{nenv, no_regs}

abbrev pub kstksize : ℕ
kstksize = 8 * pg_size

abbrev pub kstkgap : ℕ
kstkgap = 8 * pg_size

abbrev pub ncpu : ℕ
ncpu = 8

abbrev pub nvram_baselo : ℕ
nvram_baselo = 0xE + 7

abbrev pub nvram_extlo : ℕ
nvram_extlo = 0xE + 9

abbrev pub nvram_ext16lo : ℕ
nvram_ext16lo = 0xE + 38

-- A 16-bit value of the clock's memory, the low byte first.
unfoldable pub nvram_read : (ℕ → ℕ) → ℕ → ℕ
nvram_read mc146818_read r = bit_or (mc146818_read r) (mc146818_read (r + 1) * 2 ^ 8)

-- The amount of memory in kilobytes.
unfoldable pub totalmem : ℕ → ℕ → ℕ → ℕ
totalmem basemem extmem ext16mem =
    if not (ext16mem == 0)
    then u32 (16 * 1024 + ext16mem)
    else if not (extmem == 0)
    then 1 * 1024 + extmem
    else basemem

-- i386_detect_memory without its message and `npages_basemem`, which is 0 or more and is only stored.
unfoldable pub i386_detect_memory : (ℕ → ℕ) → Kernel → Kernel
i386_detect_memory mc146818_read k =
    let basemem = nvram_read mc146818_read nvram_baselo in
    let extmem = nvram_read mc146818_read nvram_extlo in
    let ext16mem = nvram_read mc146818_read nvram_ext16lo * 64 in
    record k { npages = totalmem basemem extmem ext16mem / (pg_size / 1024) }

abbrev no_frame : Trapframe
no_frame = record {
  tf_regs = no_regs;
  tf_es = 0;
  tf_ds = 0;
  tf_trapno = 0;
  tf_err = 0;
  tf_eip = 0;
  tf_cs = 0;
  tf_eflags = 0;
  tf_esp = 0;
  tf_ss = 0;
}

-- A struct Env whose bytes are 0.
abbrev pub blank_env : Env
blank_env = record {
  env_tf = no_frame;
  env_link = none;
  env_id = 0;
  env_parent_id = 0;
  env_type = env_type_user;
  env_status = env_free;
  env_runs = 0;
  env_cpunum = 0;
  env_pgdir = none;
  env_pgfault_upcall = 0;
  env_ipc_recving = false;
  env_ipc_dstva = 0;
  env_ipc_value = 0;
  env_ipc_from = 0;
  env_ipc_perm = 0;
}

abbrev pub sizeof_page_info : ℕ
sizeof_page_info = 8

abbrev pub sizeof_env : ℕ
sizeof_env = 124

-- The directory of the kernel: a page of zeros with the slot at UVPT.
unfoldable pub init_pgdir : ℕ → M (Unit {0})
init_pgdir bss_end = do
  va ← boot_alloc bss_end pg_size
  pa ← paddr va
  modify (λ k. record k { kern_pgdir = pg_num pa })
  modify (zero_page (pg_num pa))
  modify (store (slot (pg_num pa) (pdx uvpt)) (bit_or (bit_or pa pte_u) pte_p))

-- The page array, all zeros, with its address.
unfoldable pub init_pages : ℕ → M ℕ
init_pages bss_end = do
  n ← gets (λ k. k.npages)
  va ← boot_alloc bss_end (u32 (sizeof_page_info * n))
  modify (λ k. record k { pages = λ _. record { pp_link = none; pp_ref = 0 } })
  pure va

-- The array of environments, all zeros, with its address.
unfoldable pub init_envs : ℕ → M ℕ
init_envs bss_end = do
  va ← boot_alloc bss_end (nenv * sizeof_env)
  modify (λ k. record k { envs = λ _. blank_env })
  pure va

-- boot_map_region of the kernel's directory, from a kernel address.
unfoldable pub map_kva : ℕ → ℕ → ℕ → ℕ → M (Unit {0})
map_kva va size kva perm = do
  pgdir ← gets (λ k. k.kern_pgdir)
  pa ← paddr kva
  boot_map_region pgdir va size pa perm

-- The stacks of the CPUs i, i + 1, …, by the number of those left.
unfoldable pub mem_init_mp_loop : ℕ → ℕ → ℕ → M (Unit {0})
unfolding map_kva
mem_init_mp_loop percpu_kstacks zero i = pure tt
mem_init_mp_loop percpu_kstacks (suc n) i = do
  map_kva (kstacktop - kstksize - i * (kstksize + kstkgap)) kstksize (percpu_kstacks + i * kstksize)
      pte_w
  mem_init_mp_loop percpu_kstacks n (i + 1)

unfoldable pub mem_init_mp : ℕ → M (Unit {0})
unfolding mem_init_mp_loop
mem_init_mp percpu_kstacks = mem_init_mp_loop percpu_kstacks ncpu 0

-- The part of mem_init that maps the memory, for the arrays' addresses.
unfoldable pub init_mappings : ℕ → ℕ → ℕ → ℕ → M (Unit {0})
unfolding map_kva mem_init_mp
init_mappings pages envs bootstack percpu_kstacks = do
  map_kva upages pt_size pages (bit_or pte_u pte_p)
  map_kva uenvs pt_size envs (bit_or pte_u pte_p)
  map_kva (kstacktop - kstksize) kstksize bootstack pte_w
  pgdir ← gets (λ k. k.kern_pgdir)
  boot_map_region pgdir kern_base (0xFFFF_FFFF - kern_base) 0 pte_w
  mem_init_mp percpu_kstacks

-- mem_init behind its call of i386_detect_memory, without its self-tests and the flags that it sets in
-- cr0.
unfoldable pub init_memory : ℕ → ℕ → ℕ → M (Unit {0})
unfolding init_pgdir init_pages init_envs init_mappings
init_memory bss_end bootstack percpu_kstacks = do
  init_pgdir bss_end
  pages ← init_pages bss_end
  envs ← init_envs bss_end
  page_init bss_end
  init_mappings pages envs bootstack percpu_kstacks
  pgdir ← gets (λ k. k.kern_pgdir)
  modify (λ k. record k { cr3 = pgdir })

unfoldable pub mem_init_untested : (ℕ → ℕ) → ℕ → ℕ → ℕ → M (Unit {0})
unfolding init_memory
mem_init_untested mc146818_read bss_end bootstack percpu_kstacks = do
  modify (i386_detect_memory mc146818_read)
  init_memory bss_end bootstack percpu_kstacks
