-- ===== src/Env.antt =====
-- kern/env.c: environments, their identifiers, and the switch between them.
pub mod Init
pub mod Alloc
pub mod Load
use pmake_os.Base.{
  ℕ, zero, suc, ◌+◌, ◌-◌, ◌*◌, ◌/◌, ◌%◌, ◌^◌, Bool, true, false, ◌&&◌, ◌||◌, not, Option, none,
  some, bit_or, leb, ◌==◌, if◌then◌else◌, update,
}
use pmake_os.Kernel.{
  PushRegs, Trapframe, EnvStatus, env_free, env_runnable, env_running, EnvType, env_type_user,
  is_free, is_running, Env, Kernel,
}
use pmake_os.Kernel.Run.{M, ok, left, pure, ◌>>=◌, ◌>>◌, gets, modify, panic, deref}
use pmake_os.Kernel.Ret.{Res, got, fail, e_bad_env, e_no_mem, e_no_free_env}
use pmake_os.Mmu.{u32, pte_p, pte_u, pdx, uvpt, ustacktop}
use pmake_os.Pmap.Alloc.{page2pa, page2kva, page_alloc, page_incref, alloc_zero}
use pmake_os.Pmap.Paging.{slot, store}

abbrev pub nenv : ℕ
nenv = 1024

-- ENVX: the index part of an envid.
unfoldable pub envx : ℕ → ℕ
envx envid = envid % 1024

abbrev pub set_env : ℕ → Env → Kernel → Kernel
set_env e v k = record k { envs = update k.envs e v }

abbrev pub set_status : ℕ → EnvStatus → Kernel → Kernel
set_status e s k = set_env e (record (k.envs e) { env_status = s }) k

-- Do two `struct Env *` point to the same place?
abbrev pub is_env : Option ℕ → ℕ → Bool
is_env none e = false
is_env (some c) e = c == e

-- The test of permission in envid2env; it follows `curenv`.
check_parent : ℕ → M (Res (Option ℕ))
check_parent e = do
  curenv ← gets (λ k. k.curenv)
  c ← deref curenv
  gets (λ k. if (k.envs e).env_parent_id == (k.envs c).env_id then got (some e) else fail e_bad_env)

-- The environment that is stored in `*env_store`, or the error.
unfoldable pub envid2env : ℕ → Bool → M (Res (Option ℕ))
unfolding check_parent
envid2env envid checkperm k =
    let e = envx envid in
    if envid == 0
    then ok (got k.curenv) k
    else if is_free (k.envs e).env_status || not ((k.envs e).env_id == envid)
    then ok (fail e_bad_env) k
    else if checkperm && not (is_env k.curenv e)
    then check_parent e k
    else ok (got (some e)) k

-- One round of env_init, and the rounds for i = n - 1, …, 0.
unfoldable pub env_init_at : ℕ → Kernel → Kernel
env_init_at i k =
    record (set_env i (record (k.envs i) { env_id = 0; env_link = k.env_free_list }) k) {
      env_free_list = some i;
    }

unfoldable pub env_init_loop : ℕ → Kernel → Kernel
env_init_loop zero k = k
env_init_loop (suc n) k = env_init_loop n (env_init_at n k)

-- The part of env_init that concerns the kernel's data; env_init_percpu loads segment registers.
unfoldable pub env_init : Kernel → Kernel
env_init k = env_init_loop nenv (record k { env_free_list = none })

-- env_setup_vm behind its call of page_alloc.
unfoldable pub setup_pgdir : ℕ → ℕ → M (Res (Unit {0}))
setup_pgdir e p = do
  page_incref p
  f ← page2kva p
  modify (λ k. set_env e (record (k.envs e) { env_pgdir = some f }) k)
  modify (λ k. record k { word = update k.word f (k.word k.kern_pgdir) })
  modify (store (slot f (pdx uvpt)) (bit_or (bit_or (page2pa f) pte_p) pte_u))
  pure (got tt)

unfoldable pub env_setup_vm : ℕ → M (Res (Unit {0}))
unfolding setup_pgdir
env_setup_vm e = do
  p ← page_alloc alloc_zero
  elim p [ none ↦ pure (fail e_no_mem) | some p ↦ setup_pgdir e p ]

-- The identifier of the next environment in a slot: its generation, in signed 32-bit arithmetic,
-- and its index.
unfoldable pub next_generation : ℕ → ℕ
next_generation env_id =
    let sum = u32 (env_id + 2 ^ 12) in
    let generation = sum - sum % 1024 in
    if generation == 0 || leb (2 ^ 31) generation then 2 ^ 12 else generation

unfoldable pub next_id : ℕ → ℕ → ℕ
next_id env_id e = bit_or (next_generation env_id) e

abbrev pub no_regs : PushRegs
no_regs = record {
  reg_edi = 0;
  reg_esi = 0;
  reg_ebp = 0;
  reg_oesp = 0;
  reg_ebx = 0;
  reg_edx = 0;
  reg_ecx = 0;
  reg_eax = 0;
}

-- The cleared trap frame with the user segments, the stack and the interrupt flag.
abbrev pub user_tf : Trapframe
user_tf = record {
  tf_regs = no_regs;
  tf_es = 0x23;
  tf_ds = 0x23;
  tf_trapno = 0;
  tf_err = 0;
  tf_eip = 0;
  tf_cs = 0x1B;
  tf_eflags = 0x200;
  tf_esp = ustacktop;
  tf_ss = 0x23;
}

-- env_alloc behind its call of env_setup_vm.
unfoldable pub commit_env : ℕ → ℕ → M (Res ℕ)
commit_env e parent_id = do
  modify (λ k.
      set_env e
        (record (k.envs e) {
          env_tf = user_tf;
          env_id = next_id (k.envs e).env_id e;
          env_parent_id = parent_id;
          env_type = env_type_user;
          env_status = env_runnable;
          env_runs = 0;
          env_pgfault_upcall = 0;
          env_ipc_recving = false;
        })
        k)
  modify (λ k. record k { env_free_list = (k.envs e).env_link })
  pure (got e)

unfoldable pub env_alloc : ℕ → M (Res ℕ)
unfolding commit_env
env_alloc parent_id k = elim k.env_free_list [
  | none ↦ ok (fail e_no_free_env) k
  | some e ↦
      (do r ← env_setup_vm e; elim r [ got _ ↦ commit_env e parent_id | fail x ↦ pure (fail x) ]) k
]

-- The environment that ran so far becomes runnable again.
unfoldable pub demote : Kernel → Kernel
demote k = elim k.curenv [
  | none ↦ k
  | some c ↦ if is_running (k.envs c).env_status then set_status c env_runnable k else k
]

-- The assignments of env_run and env_pop_tf for the environment `e` with the directory `pgdir`.
unfoldable pub entered : ℕ → ℕ → Kernel → Kernel
entered e pgdir k =
    record (set_env e
      (record (k.envs e) {
        env_status = env_running;
        env_runs = u32 ((k.envs e).env_runs + 1);
        env_cpunum = k.cpunum;
      })
      k) { curenv = some e; cr3 = pgdir; kernel_locked = false }

-- env_run with env_pop_tf: the CPU leaves the kernel. PADDR stops at a directory that is NULL, and
-- unlock_kernel at a lock that this CPU does not hold.
unfoldable pub env_run {ℓ} : {A : Type ℓ} → ℕ → M A
unfolding demote entered
env_run e k = elim ((demote k).envs e).env_pgdir [
  | none ↦ panic k
  | some pgdir ↦ if (demote k).kernel_locked then left (entered e pgdir (demote k)) else panic k
]
