-- ===== src/Trap.antt =====
-- kern/trap.c: from the entry of a trap to its end. The trap frame on the stack, the register cr2
-- and the interrupt flag are arguments. The other CPUs' writes while this one waits for the lock
-- are part of the state that a trap starts from, and no CPU has called panic. The commands of the
-- monitor never end it.
pub mod Laws
pub mod Fault
pub mod Gates
pub mod Percpu
use pmake_os.Base.{
  ℕ, ◌+◌, ◌-◌, ◌/◌, ◌%◌, Bool, true, false, ◌&&◌, ◌||◌, not, Option, none, some, List, [], ◌∷◌,
  bit_or, ltb, ◌==◌, if◌then◌else◌,
}
use pmake_os.Kernel.{
  Env, EnvStatus, Kernel, PushRegs, Trapframe, CpuStatus, cpu_started, cpu_halted, is_dying,
  is_running,
}
use pmake_os.Kernel.Run.{M, undefined, in_monitor, pure, ◌>>=◌, ◌>>◌, gets, modify, panic, deref}
use pmake_os.Kernel.Ret.{Ret, to_word}
use pmake_os.Mmu.{pg_size, pte_p, pte_w, pte_u, uxstacktop, pdx, ptx, test}
use pmake_os.Pmap.Paging.{slot, load, store}
use pmake_os.Env.{set_env, env_run}
use pmake_os.Sched.{sched_yield}
use pmake_os.Sched.Destroy.{free_env, env_destroy, user_mem_assert}
use pmake_os.Syscall.Dispatch.{syscall}

abbrev pub t_brkpt : ℕ
t_brkpt = 3

abbrev pub t_pgflt : ℕ
t_pgflt = 14

abbrev pub t_syscall : ℕ
t_syscall = 48

abbrev pub irq_offset : ℕ
irq_offset = 32

abbrev pub irq_timer : ℕ
irq_timer = 0

abbrev pub irq_spurious : ℕ
irq_spurious = 7

abbrev pub gd_kt : ℕ
gd_kt = 8

-- sizeof(struct UTrapframe): thirteen words.
abbrev pub utrapframe_size : ℕ
utrapframe_size = 52

-- A CPU that holds the lock already panics; another one has the lock when spin_lock returns.
unfoldable pub lock_kernel : M (Unit {0})
lock_kernel = do
  held ← gets (λ k. k.kernel_locked)
  if held then panic else modify (λ k. record k { kernel_locked = true })

-- A store of a word by the kernel through the loaded directory. The address is a multiple of 4. A
-- store that the entries do not allow is a page fault in the kernel, which panics.
unfoldable pub store_va : ℕ → ℕ → M (Unit {0})
store_va va w = do
  pde ← gets (λ k. k.word k.cr3 (pdx va))
  pte ← gets (λ k. k.word (pde / 4096) (ptx va))
  if test pde pte_p && (test pte pte_p && (test pde pte_w && test pte pte_w))
      then modify (store (slot (pte / 4096) (va % 4096 / 4)) w)
      else panic

-- Stores at consecutive words.
unfoldable pub store_words : ℕ → List ℕ → M (Unit {0})
store_words va [] = pure tt
store_words va (w ∷ ws) = do store_va va w; store_words (va + 4) ws

-- struct PushRegs in memory.
abbrev pub reg_words : PushRegs → List ℕ → List ℕ
reg_words r ws =
    r.reg_edi ∷ r.reg_esi ∷ r.reg_ebp ∷ r.reg_oesp ∷ r.reg_ebx ∷ r.reg_edx ∷ r.reg_ecx ∷ r.reg_eax
    ∷ ws

-- struct UTrapframe in memory.
abbrev pub utrapframe : ℕ → Trapframe → List ℕ
utrapframe fault_va tf =
    fault_va ∷ tf.tf_err ∷ reg_words tf.tf_regs (tf.tf_eip ∷ tf.tf_eflags ∷ tf.tf_esp ∷ [])

-- Below which address the frame of a page fault goes.
unfoldable pub stacktop_of : Trapframe → ℕ
stacktop_of tf =
    if ltb (uxstacktop - pg_size) tf.tf_esp && ltb tf.tf_esp uxstacktop
    then tf.tf_esp
    else uxstacktop

-- The fault is handed to the handler of the environment `c`. A frame whose address is no multiple of 4 is
-- written through a misaligned pointer.
unfoldable pub call_handler : ℕ → ℕ → Trapframe → M (Unit {0})
call_handler c fault_va tf = do
  let size = utrapframe_size + 4
  let utr = stacktop_of tf - size
  user_mem_assert c utr size (bit_or pte_u pte_w)
  if not (utr % 4 == 0) then (λ k. undefined) else do
    store_words utr (utrapframe fault_va tf)
    modify (λ k.
        let old : Trapframe = (k.envs c).env_tf in
        set_env c
          (record (k.envs c) {
            env_tf = record old { tf_eip = (k.envs c).env_pgfault_upcall; tf_esp = utr };
          })
          k)
    env_run c

unfoldable pub page_fault_handler : ℕ → Trapframe → M (Unit {0})
page_fault_handler fault_va tf = if tf.tf_cs % 4 == 0 then panic else do
  curenv ← gets (λ k. k.curenv)
  c ← deref curenv
  upcall ← gets (λ k. (k.envs c).env_pgfault_upcall)
  if not (upcall == 0) then call_handler c fault_va tf else env_destroy c

-- The result of a system call in the frame that `from` holds; the frame on the stack is not read
-- again.
unfoldable pub set_result : Option ℕ → ℕ → Kernel → Kernel
set_result none w k = k
set_result (some c) w k =
    let tf : Trapframe = (k.envs c).env_tf in
    set_env c
      (record (k.envs c) { env_tf = record tf { tf_regs = record (tf.tf_regs) { reg_eax = w } } }) k

-- `from` is the environment whose saved frame `tf` is, or `none` for the frame on the kernel's stack.
unfoldable pub trap_dispatch : Option ℕ → ℕ → Trapframe → M (Unit {0})
unfolding set_result
trap_dispatch from fault_va tf =
    if tf.tf_trapno == t_pgflt
    then page_fault_handler fault_va tf
    else if tf.tf_trapno == t_brkpt
    then (λ k. in_monitor k)
    else if tf.tf_trapno == t_syscall
    then (do
      r ← syscall (tf.tf_regs.reg_eax) (tf.tf_regs.reg_edx) (tf.tf_regs.reg_ecx)
      modify (set_result from (to_word r)))
    else if tf.tf_trapno == irq_offset + irq_spurious
    then pure tt
    else if tf.tf_trapno == irq_offset + irq_timer
    then sched_yield
    else if tf.tf_cs == gd_kt
    then panic
    else do curenv ← gets (λ k. k.curenv); c ← deref curenv; env_destroy c

-- The last lines of trap: back to the environment, or to another one.
unfoldable pub resume : M (Unit {0})
resume k = elim k.curenv [
  | none ↦ sched_yield k
  | some c ↦ if is_running (k.envs c).env_status then env_run c k else sched_yield k
]

abbrev pub is_halted : CpuStatus → Bool
is_halted CpuStatus.cpu_halted = true
is_halted _ = false

-- A zombie is freed here; it does not run on.
unfoldable pub bury : ℕ → M (Unit {0})
bury c = do free_env c; modify (λ k. record k { curenv = none }); sched_yield

-- A trap from user mode: the lock, and the frame in the environment.
unfoldable pub trap_user : ℕ → Trapframe → M (Unit {0})
trap_user fault_va tf = do
  running ← gets (λ k. k.curenv)
  c ← (elim running [ none ↦ panic | some c ↦ pure c ])
  lock_kernel
  zombie ← gets (λ k. is_dying (k.envs c).env_status)
  (if zombie then bury c else pure tt)
  modify (λ k. set_env c (record (k.envs c) { env_tf = tf }) k)
  trap_dispatch (some c) fault_va tf
  resume

unfoldable pub trap : ℕ → Bool → Trapframe → M (Unit {0})
unfolding trap_user
trap fault_va interrupts_on tf = do
  status ← gets (λ k. k.cpu_status)
  modify (λ k. record k { cpu_status = cpu_started })
  (if is_halted status then lock_kernel else pure tt)
  if interrupts_on
      then panic
      else if tf.tf_cs % 4 == 3
      then trap_user fault_va tf
      else (do trap_dispatch none fault_va tf; resume)
