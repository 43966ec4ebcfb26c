-- ===== src/Examples.antt =====
-- A small machine for the examples, with 16 pages. Page 2 is a directory whose table, page 3, maps
-- page 4 at 0x400000 for the user. Pages 5 and 6 are free, page 7 is allocated and not counted.
-- Environment 0 runs, 1 waits for a message, 2 is runnable, and 3 is free.
pub mod Pages
pub mod Envs
pub mod Calls
pub mod Bytes
pub mod Spaces
pub mod Devices
pub mod Programs
pub mod Startup
pub mod Faults
use pmake_os.Base.{
  ℕ, ◌+◌, ◌≤◌, ◌<◌, ◌≡◌, refl, Bool, true, false, ◌&&◌, ◌||◌, not, Option, none, some, List, [],
  ◌∷◌, arith, leb, ◌==◌, if◌then◌else◌,
}
use pmake_os.Kernel.{
  PageInfo, Env, EnvStatus, Kernel, env_free, env_runnable, env_running, env_not_runnable,
  env_type_user, cpu_started,
}
use pmake_os.Env.{user_tf}
use pmake_os.Pmap.Alloc.FreeList.{IsFreeList, Fits}

abbrev pub machine_pages : ℕ → PageInfo
machine_pages p =
    if p == 5
    then record { pp_link = some 6; pp_ref = 0 }
    else record { pp_link = none; pp_ref = if leb 2 p && leb p 4 then 1 else 0 }

abbrev pub machine_word : ℕ → ℕ → ℕ
machine_word f i = if f == 2 && i == 1 then 0x3007 else if f == 3 && i == 0 then 0x4007 else 0

abbrev pub machine_status : ℕ → EnvStatus
machine_status e =
    if e == 0
    then env_running
    else if e == 1
    then env_not_runnable
    else if e == 2
    then env_runnable
    else env_free

abbrev pub machine_env : ℕ → Env
machine_env e = record {
  env_tf = user_tf;
  env_link = none;
  env_id = 4096 + e;
  env_parent_id = 0;
  env_type = env_type_user;
  env_status = machine_status e;
  env_runs = 1;
  env_cpunum = 0;
  env_pgdir = if leb e 2 then some 2 else none;
  env_pgfault_upcall = 0;
  env_ipc_recving = e == 1;
  env_ipc_dstva = 0;
  env_ipc_value = 0;
  env_ipc_from = 0;
  env_ipc_perm = 0;
}

abbrev pub machine : Kernel
machine = record {
  npages = 16;
  pages = machine_pages;
  page_free_list = some 5;
  word = machine_word;
  kern_pgdir = 1;
  envs = machine_env;
  env_free_list = some 3;
  curenv = some 0;
  cpunum = 0;
  cpu_status = cpu_started;
  kernel_locked = true;
  cr3 = 2;
  flushed = [];
  user_mem_check_addr = 0;
  mmio_base = 0xEF800000;
  nextfree = 0;
}

-- The machine with no page free.
abbrev pub full_machine : Kernel
full_machine = record machine {
  pages = λ p. record { pp_link = none; pp_ref = 1 };
  page_free_list = none;
}

pub machine-Fits : Fits machine
machine-Fits = omega arith

pub machine-IsFreeList : IsFreeList machine (5 ∷ 6 ∷ [])
machine-IsFreeList = record {
  chain = (refl, (refl, refl));
  distinct = (refl, (refl, tt));
  within = λ p h. ground arith;
  unused = λ p h. ground arith;
  unlinked = λ p h. ground arith;
}

pub full_machine-IsFreeList : IsFreeList full_machine []
full_machine-IsFreeList = record {
  chain = refl;
  distinct = tt;
  within = λ p h. ground arith;
  unused = λ p h. ground arith;
  unlinked = λ p h. refl;
}
