-- ===== src/Examples/Faults.antt =====
-- A page fault at a small machine where environment 0 has a handler and an exception stack.
use pmake_os.Base.{ℕ, ◌/◌, ◌%◌, ◌≡◌, refl, false, ◌&&◌, some, arith, bytes, ◌==◌, if◌then◌else◌}
use pmake_os.Kernel.{Kernel, Trapframe}
use pmake_os.Kernel.Run.{left}
use pmake_os.Mmu.{test, pdx, ptx}
use pmake_os.Env.{user_tf}
use pmake_os.Pmap.UserMem.Range.{grants, Valid}
use pmake_os.Trap.{trap, stacktop_of, utrapframe}
use pmake_os.Trap.Laws.{IsUserTrap}
use pmake_os.Trap.Fault.{frame_at, IsHandled, trap-calls_handler}
use pmake_os.Trap.Fault.Stores.{Outside}
use pmake_os.Examples.{machine, machine_word, machine_env}

-- The page 8 is mapped below UXSTACKTOP, and 0x800020 is the upcall of environment 0.
abbrev handled_machine : Kernel
handled_machine = record machine {
  kernel_locked = false;
  word = λ f i.
      if f == 2 && i == 954
      then 0x3007
      else if f == 3 && i == 1023
      then 0x8007
      else machine_word f i;
  envs = λ e.
      if e == 0 then record (machine_env 0) { env_pgfault_upcall = 0x800020 } else machine_env e;
}

-- A fault inside the handler: the stack pointer is on the exception stack.
abbrev fault_tf : Trapframe
fault_tf = let tf : Trapframe = user_tf in record tf { tf_trapno = 14; tf_esp = 0xEEBFFF00 }

fault_tf-IsUserTrap : IsUserTrap 0 fault_tf handled_machine
fault_tf-IsUserTrap = record {
  current = refl;
  running = refl;
  awake = refl;
  unlocked = refl;
  user = refl;
}

handled_machine-Valid : Valid handled_machine 2
unfolding test
handled_machine-Valid i present = (ground arith, ground arith)

fault_tf-IsHandled : IsHandled 0 2 8 fault_tf handled_machine
unfolding test grants stacktop_of pdx ptx
fault_tf-IsHandled = record {
  space = refl;
  handler = omega arith;
  valid = handled_machine-Valid;
  granted = refl;
  stack = record {
    table = refl;
    table_writable = refl;
    page = refl;
    page_writable = refl;
    target = refl;
    no_directory = omega arith;
    no_table = omega arith;
  };
  room = omega arith;
  aligned = refl;
}

trap-calls_handler_example :
    (k' : Kernel) × (trap 0xDEADBEEF false fault_tf handled_machine ≡ left k')
    × (k'.curenv ≡ some 0)
    × ((k'.envs 0).env_tf
        ≡ (let tf : Trapframe = fault_tf in record tf { tf_eip = 0x800020; tf_esp = frame_at tf }))
    × (bytes (k'.word 8) (frame_at fault_tf % 4096 / 4) 13 ≡ utrapframe 0xDEADBEEF fault_tf)
    × ((q j : ℕ)
        → Outside 8 (frame_at fault_tf % 4096 / 4) 13 q j
        → k'.word q j ≡ handled_machine.word q j)
trap-calls_handler_example =
    trap-calls_handler 0 2 8 0xDEADBEEF fault_tf handled_machine fault_tf-IsUserTrap
      fault_tf-IsHandled refl
