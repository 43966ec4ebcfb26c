-- ===== src/Lib.antt =====
-- pmake-os: a teaching operating system for 32-bit x86 with environments, paging, several CPUs
-- and messages. This library models the core of its kernel and proves how it behaves.
--
-- The parts and their files:
--   Mmu           the address and page table macros (inc/mmu.h, inc/memlayout.h, inc/types.h).
--   Kernel        the structures of the kernel, the state that the code of one CPU sees, the ways in
--                 which a command ends (Kernel/Run) and the errors (Kernel/Ret; inc/error.h).
--   Pmap/Alloc    boot_alloc, page_init, page_alloc, page_free, page_decref (kern/pmap.c).
--   Pmap/Paging   pgdir_walk, page_insert, page_lookup, page_remove and the mapping of regions.
--   Pmap/Space    a directory with its tables as one map from page numbers to entries, on which the
--                 functions of Pmap/Paging are described.
--   Pmap/Setup    i386_detect_memory, mem_init_mp, and what mem_init does between its self-tests, under
--                 the name mem_init_untested (kern/pmap.c).
--   Pmap/Check    check_page_free_list and check_kern_pgdir (kern/pmap.c).
--   Pmap/UserMem  user_mem_check.
--   Env           envid2env, env_init, env_alloc, env_run (kern/env.c); Env/Load holds region_alloc,
--                 load_icode and env_create.
--   Sched         sched_yield, sched_halt (kern/sched.c); Sched/Destroy holds env_free, under the
--                 name free_env, env_destroy and user_mem_assert, which call the scheduler.
--   Syscall       the sys_ functions of kern/syscall.c; messages are in Syscall/Ipc, and syscall()
--                 is in Syscall/Dispatch.
--   Trap          trap, trap_dispatch, page_fault_handler (kern/trap.c); the tables of trap_init and
--                 trap_init_percpu are in Trap/Gates and Trap/Percpu, page faults in
--                 Trap/Fault.
--   Spin          spin_lock and spin_unlock as several CPUs interleave (kern/spinlock.c).
--   Smp           the search for the table of processors, and mp_init (kern/mpconfig.c).
--   Loader        the boot loader (boot/main.c).
--   Monitor       readline and the command line of the monitor (lib/readline.c, kern/monitor.c).
--   Boot          the first page directory (kern/entrypgdir.c).
--   Str           the memory and string functions (lib/string.c).
--   Number        strtol and printnum (lib/string.c, lib/printfmt.c).
--   Console       the input buffer, the keyboard and the display (kern/console.c).
--   Kdebug        stab_binsearch and debuginfo_eip (kern/kdebug.c).
--   Printf        vprintfmt and vsnprintf (lib/printfmt.c), and vcprintf of kern/printf.c; the one of
--                 lib/printf.c is in User/Printf.
--   User          fork, pgfault, set_pgfault_handler and messages (lib/fork.c, lib/pgfault.c, lib/ipc.c);
--                 User/Stubs holds the stubs of lib/syscall.c and libmain.
--   Base          shared tests, lists and laws of bits. Examples holds a small machine and the
--                 theorems at concrete arguments.
--
-- How they interact: a trap takes the lock and calls syscall, the scheduler or the page fault
-- handler; the system calls use the environment table and the page functions; the scheduler ends in
-- env_run, which leaves the kernel and gives the lock back. fork and the messages of the user-level
-- library reach the kernel through records of system calls, which their definitions take as an
-- argument; the stubs of User/Stubs go through the trap itself. Each function of the kernel is a
-- function of the state Kernel with a result Run: it returns, panics, leaves the kernel for an
-- environment, stays in the monitor, or has no meaning in C.
--
-- Pointers: a pointer to a struct PageInfo or struct Env is an index of its array, NULL is none, a
-- kernel pointer to a page table is the number of its page, and memory is a function of page and
-- word. Machine words are natural numbers with their wrap-around written out. Functions that are
-- split have helpers with names of their own, each next to the function.
--
-- Bounds and fuel: the loops over arrays run for the array's length, and user_mem_check for one
-- round more than its range has pages. The string functions without a bound run on fuel; the
-- theorems give a result for every fuel above the length of the string, and the one about printnum
-- for every fuel above the number; vprintfmt takes a step for each character of text and each
-- escape sequence, so that fuel above the length of the format is enough. The search in the stabs
-- runs for one round more than its range has stabs; ipc_send waits for as many rounds as its fuel
-- says. The loop of readseg has fuel for the sectors of its range, which is too little only where
-- the address wraps and the loop has no end. The mapping at KERNBASE reaches 256 MB of memory: where
-- the kernel goes through it to a page behind these, its behaviour is undefined, and Fits assumes
-- that there is no such page.
--
-- Not modelled: the ports of the devices, whose bytes are arguments, the interrupt controllers and
-- the clock, the output of the monitor's commands, the self-tests that call the allocator, the user
-- programs and all assembly. Console output is no part of the state.
-- Writes of other CPUs happen before a trap takes the lock.
pub mod Base
pub mod Mmu
pub mod Kernel
pub mod Pmap
pub mod Env
pub mod Sched
pub mod Syscall
pub mod Trap
pub mod Boot
pub mod Loader
pub mod Monitor
pub mod Spin
pub mod Console
pub mod Kdebug
pub mod User
pub mod Str
pub mod Number
pub mod Printf
pub mod Smp
pub mod Examples
