-- ===== src/Kernel.antt =====
-- The state of the kernel as the code of one CPU sees it (kern/pmap.c, kern/env.c, kern/cpu.h,
-- inc/env.h, inc/trap.h, inc/memlayout.h). A `struct PageInfo *` is an index into `pages`, a
-- `struct Env *` an index into `envs`, NULL is `none`. A page-aligned kernel pointer to a page
-- table is the number of the physical page behind it. Console output is not part of the state.
pub mod Run
pub mod Ret
use pmake_os.Base.{ℕ, Bool, true, false, Option, List}

-- struct PageInfo
pub record PageInfo : Type 0 where
  pub pp_link : Option ℕ
  pub pp_ref : ℕ  -- uint16_t

-- struct PushRegs
pub record PushRegs : Type 0 where
  pub reg_edi : ℕ
  pub reg_esi : ℕ
  pub reg_ebp : ℕ
  pub reg_oesp : ℕ
  pub reg_ebx : ℕ
  pub reg_edx : ℕ
  pub reg_ecx : ℕ
  pub reg_eax : ℕ

-- struct Trapframe, less its padding
pub record Trapframe : Type 0 where
  pub tf_regs : PushRegs
  pub tf_es : ℕ
  pub tf_ds : ℕ
  pub tf_trapno : ℕ
  pub tf_err : ℕ
  pub tf_eip : ℕ
  pub tf_cs : ℕ
  pub tf_eflags : ℕ
  pub tf_esp : ℕ
  pub tf_ss : ℕ

-- Values of env_status.
pub data EnvStatus : Type 0 where
  env_free : EnvStatus
  env_dying : EnvStatus
  env_runnable : EnvStatus
  env_running : EnvStatus
  env_not_runnable : EnvStatus

-- enum EnvType
pub data EnvType : Type 0 where
  env_type_user : EnvType

abbrev pub is_free : EnvStatus → Bool
is_free EnvStatus.env_free = true
is_free _ = false

abbrev pub is_dying : EnvStatus → Bool
is_dying EnvStatus.env_dying = true
is_dying _ = false

abbrev pub is_runnable : EnvStatus → Bool
is_runnable EnvStatus.env_runnable = true
is_runnable _ = false

abbrev pub is_running : EnvStatus → Bool
is_running EnvStatus.env_running = true
is_running _ = false

-- struct Env. An envid_t is its 32-bit pattern; `env_pgdir` is the page that holds the directory.
pub record Env : Type 0 where
  pub env_tf : Trapframe
  pub env_link : Option ℕ
  pub env_id : ℕ
  pub env_parent_id : ℕ
  pub env_type : EnvType
  pub env_status : EnvStatus
  pub env_runs : ℕ
  pub env_cpunum : ℕ
  pub env_pgdir : Option ℕ
  pub env_pgfault_upcall : ℕ
  pub env_ipc_recving : Bool
  pub env_ipc_dstva : ℕ
  pub env_ipc_value : ℕ
  pub env_ipc_from : ℕ
  pub env_ipc_perm : ℕ

-- Values of cpu_status.
pub data CpuStatus : Type 0 where
  cpu_unused : CpuStatus
  cpu_started : CpuStatus
  cpu_halted : CpuStatus

-- `word f i` is the i-th 32-bit word of physical page f. `curenv`, `cpu_status` and `cpunum` are
-- those of the executing CPU, `cr3` the page whose directory it has loaded, and `flushed` the
-- addresses that it has passed to `invlpg`, the last one first. `kernel_locked` says whether
-- this CPU holds the big kernel lock. `mmio_base` and `nextfree` are the
-- static variables of mmio_map_region and boot_alloc.
pub record Kernel : Type 0 where
  pub npages : ℕ
  pub pages : ℕ → PageInfo
  pub page_free_list : Option ℕ
  pub word : ℕ → ℕ → ℕ
  pub kern_pgdir : ℕ
  pub envs : ℕ → Env
  pub env_free_list : Option ℕ
  pub curenv : Option ℕ
  pub cpunum : ℕ
  pub cpu_status : CpuStatus
  pub kernel_locked : Bool
  pub cr3 : ℕ
  pub flushed : List ℕ
  pub user_mem_check_addr : ℕ
  pub mmio_base : ℕ
  pub nextfree : ℕ
