-- ===== src/User/Stubs.antt =====
-- lib/syscall.c, lib/libmain.c and lib/exit.c: what a program's system call does through the trap of
-- the kernel. `tf` is the frame of the program behind the int instruction, less what the stub puts
-- into the registers.
use pmake_os.Base.{
  ℕ, ◌-◌, ◌^◌, ◌≤◌, ◌≢◌, ◌≡◌, refl, ap, Bool, true, false, ◌&&◌, not, Option, none, some, arith,
  ltb, ◌==◌, if◌then◌else◌,
}
use pmake_os.Kernel.{Kernel, Trapframe, PushRegs}
use pmake_os.Kernel.Run.{Run, ok, left}
use pmake_os.Kernel.Ret.{Ret, val, err, e_inval, to_word}
use pmake_os.Env.{envx}
use pmake_os.Trap.{trap, t_syscall}
use pmake_os.Trap.Laws.{IsUserTrap, trapped, trap-syscall}
use pmake_os.Syscall.Dispatch.{syscall, syscall-getenvid, syscall-unserved}

-- What becomes of a program at a system call: it goes on with the result, it panics, or this CPU
-- does not return to it.
pub data Called {ℓ} (A : Type ℓ) : Type ℓ where
  returned : A → Kernel → Called A
  user_panic : Called A
  away : Run (Unit {0}) → Called A

-- The frame at the trap: the number in %eax, the arguments in %edx, %ecx, %ebx, %edi and %esi.
unfoldable pub call_frame : ℕ → ℕ → ℕ → ℕ → ℕ → ℕ → Trapframe → Trapframe
call_frame num a1 a2 a3 a4 a5 tf =
    let r : PushRegs = tf.tf_regs in
    record tf {
      tf_trapno = t_syscall;
      tf_regs = record r {
        reg_eax = num;
        reg_edx = a1;
        reg_ecx = a2;
        reg_ebx = a3;
        reg_edi = a4;
        reg_esi = a5;
      };
    }

abbrev pub is_env : Option ℕ → ℕ → Bool
is_env none c = false
is_env (some e) c = e == c

-- The stub of environment c; a result above 0 is a positive int32_t.
unfoldable pub stub : ℕ → ℕ → Bool → ℕ → ℕ → ℕ → ℕ → ℕ → Trapframe → Kernel → Called ℕ
stub c num check a1 a2 a3 a4 a5 tf k = elim (trap 0 false (call_frame num a1 a2 a3 a4 a5 tf) k) [
  | left k' ↦
      let ret = (k'.envs c).env_tf.tf_regs.reg_eax in
      if not (is_env k'.curenv c)
      then away (left k')
      else if check && (ltb 0 ret && ltb ret (2 ^ 31))
      then user_panic
      else returned ret k'
  | r ↦ away r
]

-- The stubs by their names: the numbers are those of inc/syscall.h.
module _ (c : ℕ) (tf : Trapframe) where
  unfoldable pub sys_cputs : ℕ → ℕ → Kernel → Called ℕ
  sys_cputs s len = stub c 0 false s len 0 0 0 tf

  unfoldable pub sys_cgetc : Kernel → Called ℕ
  sys_cgetc = stub c 1 false 0 0 0 0 0 tf

  unfoldable pub sys_getenvid : Kernel → Called ℕ
  sys_getenvid = stub c 2 false 0 0 0 0 0 tf

  unfoldable pub sys_env_destroy : ℕ → Kernel → Called ℕ
  sys_env_destroy envid = stub c 3 true envid 0 0 0 0 tf

  unfoldable pub sys_page_alloc : ℕ → ℕ → ℕ → Kernel → Called ℕ
  sys_page_alloc envid va perm = stub c 4 true envid va perm 0 0 tf

  unfoldable pub sys_page_map : ℕ → ℕ → ℕ → ℕ → ℕ → Kernel → Called ℕ
  sys_page_map srcenv srcva dstenv dstva perm = stub c 5 true srcenv srcva dstenv dstva perm tf

  unfoldable pub sys_page_unmap : ℕ → ℕ → Kernel → Called ℕ
  sys_page_unmap envid va = stub c 6 true envid va 0 0 0 tf

  -- Inlined, with the other registers as they are.
  unfoldable pub sys_exofork : Kernel → Called ℕ
  sys_exofork =
      let r : PushRegs = tf.tf_regs in
      stub c 7 false r.reg_edx r.reg_ecx r.reg_ebx r.reg_edi r.reg_esi tf

  unfoldable pub sys_env_set_status : ℕ → ℕ → Kernel → Called ℕ
  sys_env_set_status envid status = stub c 8 true envid status 0 0 0 tf

  unfoldable pub sys_env_set_pgfault_upcall : ℕ → ℕ → Kernel → Called ℕ
  sys_env_set_pgfault_upcall envid upcall = stub c 9 true envid upcall 0 0 0 tf

  unfoldable pub sys_yield : Kernel → Called ℕ
  sys_yield = stub c 10 false 0 0 0 0 0 tf

  unfoldable pub sys_ipc_try_send : ℕ → ℕ → ℕ → ℕ → Kernel → Called ℕ
  sys_ipc_try_send envid value srcva perm = stub c 11 false envid value srcva perm 0 tf

  unfoldable pub sys_ipc_recv : ℕ → Kernel → Called ℕ
  sys_ipc_recv dstva = stub c 12 true dstva 0 0 0 0 tf

  unfoldable pub exit : Kernel → Called ℕ
  unfolding sys_env_destroy
  exit = sys_env_destroy 0

-- The rest of libmain once `thisenv` is an index of envs: umain, and exit. `umain` is given thisenv
-- and binaryname, and hands over the frame of its end.
unfoldable pub run_main : ℕ → (ℕ → ℕ → Kernel → Called Trapframe) → ℕ → ℕ → Kernel → Called ℕ
run_main c umain thisenv binaryname k = elim (umain thisenv binaryname k) [
  | returned tf k' ↦ exit c tf k'
  | user_panic ↦ user_panic
  | away r ↦ away r
]

-- `unknown` is the initial binaryname, argv0 the first argument.
unfoldable pub libmain :
    ℕ → Trapframe → (ℕ → ℕ → Kernel → Called Trapframe) → ℕ → ℕ → ℕ → Kernel → Called ℕ
unfolding run_main sys_getenvid
libmain c tf umain unknown argc argv0 k = elim (sys_getenvid c tf k) [
  | returned envid k' ↦ run_main c umain (envx envid) (if ltb 0 argc then argv0 else unknown) k'
  | user_panic ↦ user_panic
  | away r ↦ away r
]

call_frame-IsUserTrap :
    (c num a1 a2 a3 a4 a5 : ℕ) (tf : Trapframe) (k : Kernel)
    → IsUserTrap c tf k
    → IsUserTrap c (call_frame num a1 a2 a3 a4 a5 tf) k
unfolding call_frame
call_frame-IsUserTrap c num a1 a2 a3 a4 a5 tf k u = record {
  current = u.current;
  running = u.running;
  awake = u.awake;
  unlocked = u.unlocked;
  user = u.user;
}

-- A call that syscall() answers at once gives its answer to the program.
stub-answered :
    (c pgdir num a1 a2 a3 a4 a5 : ℕ) (check : Bool) (tf : Trapframe) (r : Ret) (k : Kernel)
    → IsUserTrap c tf k
    → (k.envs c).env_pgdir ≡ some pgdir
    → (check && (ltb 0 (to_word r) && ltb (to_word r) (2 ^ 31))) ≡ false
    → ((k1 : Kernel) → k1.curenv ≡ some c → syscall num a1 a2 k1 ≡ ok r k1)
    → (k' : Kernel) × (stub c num check a1 a2 a3 a4 a5 tf k ≡ returned (to_word r) k')
      × (k'.curenv ≡ some c)
unfolding stub call_frame
stub-answered c pgdir num a1 a2 a3 a4 a5 check tf r k u own quiet answers =
    let frame = call_frame num a1 a2 a3 a4 a5 tf in
    let k1 = trapped c frame k in
    let (k', ran, current, space, result) =
      trap-syscall c pgdir 0 frame r k k1 (call_frame-IsUserTrap c num a1 a2 a3 a4 a5 tf k u) refl
        (answers k1 u.current) u.current (ground (arith, u.running)) refl (ground arith)
        (ground (arith, own)) in
    let value : (k'.envs c).env_tf.tf_regs.reg_eax ≡ to_word r =
      ap (λ (t : Trapframe). t.tf_regs.reg_eax) result in
    let here : not (is_env k'.curenv c) ≡ false = rw current (ground arith) in
    (k', rw (ran, stub, here, value, quiet) refl, current)

-- A program that runs in user mode, with an address space, calls the kernel by a stub for a call that
-- manages memory, creates environments or sends messages (numbers 4 to 12 but SYS_yield, which is 10):
-- whatever the arguments are, it gets -E_INVAL and goes on.
pub stub-unserved :
    (c pgdir num a1 a2 a3 a4 a5 : ℕ) (check : Bool) (tf : Trapframe) (k : Kernel)
    → IsUserTrap c tf k
    → (k.envs c).env_pgdir ≡ some pgdir
    → 4 ≤ num
    → num ≤ 12
    → num ≢ 10
    → (k' : Kernel) × (stub c num check a1 a2 a3 a4 a5 tf k ≡ returned (2 ^ 32 - 3) k')
      × (k'.curenv ≡ some c)
stub-unserved c pgdir num a1 a2 a3 a4 a5 check tf k u own lo hi ny =
    stub-answered c pgdir num a1 a2 a3 a4 a5 check tf (err e_inval) k u own (ground arith)
      (λ k1 current. syscall-unserved num a1 a2 k1 lo ny (λ e. omega arith))

-- libmain of any program that runs in user mode with an address space: `thisenv` becomes envs[0],
-- whichever environment the program is, since the kernel answers 0 to SYS_getenvid; then the program's
-- umain and exit follow.
pub libmain-thisenv :
    (c pgdir unknown argc argv0 : ℕ) (tf : Trapframe) (umain : ℕ → ℕ → Kernel → Called Trapframe)
    (k : Kernel)
    → IsUserTrap c tf k
    → (k.envs c).env_pgdir ≡ some pgdir
    → (k' : Kernel) × (libmain c tf umain unknown argc argv0 k
        ≡ run_main c umain 0 (if ltb 0 argc then argv0 else unknown) k')
      × (k'.curenv ≡ some c)
unfolding libmain sys_getenvid envx
libmain-thisenv c pgdir unknown argc argv0 tf umain k u own =
    let (k', ran, current) =
      stub-answered c pgdir 2 0 0 0 0 0 false tf (val 0) k u own refl
        (λ k1 here. (syscall-getenvid c 0 0 k1 here).1) in
    (k', rw (ran, libmain) refl, current)
