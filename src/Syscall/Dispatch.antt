-- ===== src/Syscall/Dispatch.antt =====
-- syscall() of kern/syscall.c: which calls the kernel makes for a system call number.
use pmake_os.Base.{ℕ, ◌≤◌, ◌≡◌, ◌≢◌, arith, ◌==◌, if◌then◌else◌, some}
use pmake_os.Kernel.{Kernel}
use pmake_os.Kernel.Run.{M, ok, pure, ◌>>=◌, ◌>>◌}
use pmake_os.Kernel.Ret.{Ret, val, err, e_inval}
use pmake_os.Sched.{sched_yield}
use pmake_os.Syscall.{sys_cputs, sys_getenvid, sys_env_destroy}

-- The numbers of inc/syscall.h, in their order.
abbrev pub nsyscalls : ℕ
nsyscalls = 13

-- The results of sys_getenvid, sys_env_destroy and sys_cgetc (the console's buffer is not part of
-- the state) are dropped, as in the source. SYS_yield is 10.
unfoldable pub syscall : ℕ → ℕ → ℕ → M Ret
syscall syscallno a1 a2 =
    if syscallno == 0
    then (do sys_cputs a1 a2; pure (val 0))
    else if syscallno == 1
    then pure (val 0)
    else if syscallno == 2
    then (do r ← sys_getenvid; pure (val 0))
    else if syscallno == 3
    then (do r ← sys_env_destroy a1; pure (val 0))
    else if syscallno == 10
    then (do sched_yield; pure (val 0))
    else if syscallno == nsyscalls
    then pure (val 0)
    else pure (err e_inval)

-- Each call of inc/syscall.h that manages memory, creates environments or sends messages (numbers 4
-- to 12 but SYS_yield, which is 10), and each number beyond the list, is answered by -E_INVAL and
-- changes nothing.
pub syscall-unserved :
    (syscallno a1 a2 : ℕ) (k : Kernel)
    → 4 ≤ syscallno
    → syscallno ≢ 10
    → syscallno ≢ nsyscalls
    → syscall syscallno a1 a2 k ≡ ok (err e_inval) k
unfolding syscall
syscall-unserved syscallno a1 a2 k lo ny nn = ground arith

-- SYS_getenvid finds the identifier of the caller, and syscall() answers 0 in its place; without a
-- caller both have no meaning.
pub syscall-getenvid :
    (c a1 a2 : ℕ) (k : Kernel)
    → k.curenv ≡ some c
    → (sys_getenvid k ≡ ok (val (k.envs c).env_id) k) × (syscall 2 a1 a2 k ≡ ok (val 0) k)
unfolding syscall sys_getenvid
syscall-getenvid c a1 a2 k run = (ground arith, ground arith)
