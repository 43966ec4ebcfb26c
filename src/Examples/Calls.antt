-- ===== src/Examples/Calls.antt =====
-- The theorems about system calls at the small machine.
use pmake_os.Base.{ℕ, ◌+◌, ◌<◌, ◌≡◌, refl, ◌≢◌, arith}
use pmake_os.Kernel.{Kernel, env_runnable}
use pmake_os.Kernel.Run.{ok}
use pmake_os.Kernel.Ret.{val, err, e_ipc_not_recv}
use pmake_os.Env.{envx}
use pmake_os.Syscall.Ipc.{sys_ipc_try_send}
use pmake_os.Syscall.Ipc.Laws.{IsNamed, sys_ipc_try_send-refused, sys_ipc_try_send-delivers}
use pmake_os.Examples.{machine}

named : (e : ℕ) → e < 3 → IsNamed (4096 + e) e machine
unfolding envx
named e h = record {
  nonzero = omega arith;
  slot_of = omega arith;
  live = ground arith;
  exact = refl;
}

sys_ipc_try_send-refused_example :
    sys_ipc_try_send 4098 7 0xFFFF_FFFF 0 machine ≡ ok (err e_ipc_not_recv) machine
sys_ipc_try_send-refused_example =
    sys_ipc_try_send-refused 4098 2 7 0xFFFF_FFFF 0 machine (named 2 (omega arith)) refl

sys_ipc_try_send-delivers_example :
    (k' : Kernel) × (sys_ipc_try_send 4097 7 0xFFFF_FFFF 0 machine ≡ ok (val 0) k')
    × ((k'.envs 1).env_ipc_value ≡ 7)
    × ((k'.envs 1).env_ipc_from ≡ 4096)
    × ((k'.envs 1).env_status ≡ env_runnable)
    × ((k'.envs 1).env_tf.tf_regs.reg_eax ≡ 0)
    × ((k'.envs 1).env_ipc_perm ≡ 0)
    × ((i : ℕ) → i ≢ 1 → k'.envs i ≡ machine.envs i)
    × ((value' srcva' perm' : ℕ)
        → sys_ipc_try_send 4097 value' srcva' perm' k' ≡ ok (err e_ipc_not_recv) k')
sys_ipc_try_send-delivers_example =
    sys_ipc_try_send-delivers 4097 1 0 7 0xFFFF_FFFF 0 machine (named 1 (omega arith)) refl refl
      (omega arith)
