-- ===== src/Trap/Fault.antt =====
-- A page fault of a program that has a handler: page_fault_handler of kern/trap.c.
pub mod Stores
use pmake_os.Base.{
  ℕ, zero, suc, ◌+◌, ◌-◌, ◌*◌, ◌/◌, ◌%◌, ◌^◌, ◌≤◌, ◌<◌, ◌≡◌, ◌≢◌, refl, sym, ap, ◌∙◌, ◌⊎◌, inl, inr,
  Bool, true, false, not, ◌&&◌, Option, some, List, [], ◌∷◌, arith, bytes, bytes-update, bit_or,
  length, ltb, ◌==◌, if◌then◌else◌, update, Bool-cases, ==_refl, ne→==,
}
use mathlib.Core.Bool.{false≢true}
use native.Mathlib.Decide.{ℕ_discrete}
use pmake_os.Kernel.{Kernel, Trapframe}
use pmake_os.Kernel.Run.{ok, left, and_then}
use pmake_os.Mmu.{pg_size, pte_p, pte_w, pte_u, uxstacktop, pdx, ptx, test, round_down}
use pmake_os.Pmap.Paging.{slot, store}
use pmake_os.Env.{set_env, env_run}
use pmake_os.Sched.Run.{env_run-IsRunning}
use pmake_os.Sched.Destroy.{user_mem_assert}
use pmake_os.Pmap.UserMem.Range.{grants, Valid, user_mem_check_lem}
use pmake_os.Trap.Laws.{trapped, IsUserTrap, running_apart, trap-dispatched}
use pmake_os.Trap.{
  t_pgflt, trap_dispatch, trap, resume, store_va, store_words, stacktop_of, utrapframe_size,
  utrapframe, call_handler, page_fault_handler,
}
use pmake_os.Trap.Fault.Stores.{
  IsWritable, IsStored, Outside, IsStored-Outside, store_words-IsStored,
}

-- The page of the exception stack.
abbrev pub stack_page : ℕ
stack_page = uxstacktop / pg_size - 1

-- The frame of a fault goes to this address.
abbrev pub frame_at : Trapframe → ℕ
frame_at tf = stacktop_of tf - (utrapframe_size + 4)

-- The environment c has a handler, and in the page f of its exception stack, which the loaded
-- directory maps, room for the frame of a fault with the frame tf.
pub record IsHandled (c pgdir f : ℕ) (tf : Trapframe) (k : Kernel) : Type 0 where
  pub space : (k.envs c).env_pgdir ≡ some pgdir
  pub handler : (k.envs c).env_pgfault_upcall ≢ 0
  pub valid : Valid k pgdir
  pub granted : grants k pgdir (bit_or (bit_or pte_u pte_w) pte_u) (stack_page * 4096) ≡ true
  pub stack : IsWritable stack_page f k
  pub room : stack_page * 4096 + (utrapframe_size + 4) ≤ stacktop_of tf
  pub aligned : stacktop_of tf % 4 ≡ 0

stacktop_of-top : (tf : Trapframe) → stacktop_of tf ≤ uxstacktop
unfolding stacktop_of
stacktop_of-top tf = ground arith

round_down-stack_page :
    (a : ℕ) → stack_page * 4096 ≤ a → a < uxstacktop → round_down a pg_size ≡ stack_page * 4096
unfolding round_down
round_down-stack_page a low high = omega arith

assert-passes :
    (c pgdir f : ℕ) (tf : Trapframe) (k : Kernel)
    → IsHandled c pgdir f tf k
    → user_mem_assert c (frame_at tf) (utrapframe_size + 4) (bit_or pte_u pte_w) k ≡ ok tt k
unfolding user_mem_assert
assert-passes c pgdir f tf k h =
    let perm = bit_or (bit_or pte_u pte_w) pte_u in
    let top = stacktop_of-top tf in
    let room = h.room in
    elim (user_mem_check_lem k c pgdir (frame_at tf) 56 perm (h.space) (h.valid) (omega arith)
      (omega arith)) [
        | inl (ran, all) ↦ rw ran refl
        | inr (a, ran, low, high, bad, first) ↦
            let here = round_down-stack_page a (omega arith) (omega arith) in
            absurd (false≢true (sym bad ∙ ap (grants k pgdir perm) here ∙ h.granted))
      ]

-- The environment c is to go on in its handler, on the frame.
abbrev redirected : ℕ → ℕ → Kernel → Kernel
redirected c utr k =
    let old : Trapframe = (k.envs c).env_tf in
    set_env c
      (record (k.envs c) {
        env_tf = record old { tf_eip = (k.envs c).env_pgfault_upcall; tf_esp = utr };
      })
      k

call_handler-runs :
    (c pgdir f fault_va : ℕ) (tf : Trapframe) (k k1 k2 : Kernel)
    → IsHandled c pgdir f tf k
    → store_words (frame_at tf) (utrapframe fault_va tf) k ≡ ok tt k1
    → env_run {A = Unit {0}} c (redirected c (frame_at tf) k1) ≡ left k2
    → call_handler c fault_va tf k ≡ left k2
unfolding call_handler
call_handler-runs c pgdir f fault_va tf k k1 k2 h stored ran =
    let whole : frame_at tf % 4 ≡ 0 = omega (arith, h.aligned, h.room) in
    rw (assert-passes c pgdir f tf k h, whole, stored) ran

page_fault_handler-calls :
    (c fault_va : ℕ) (tf : Trapframe) (k k2 : Kernel)
    → k.curenv ≡ some c
    → tf.tf_cs % 4 ≡ 3
    → (k.envs c).env_pgfault_upcall ≢ 0
    → call_handler c fault_va tf k ≡ left k2
    → page_fault_handler fault_va tf k ≡ left k2
unfolding page_fault_handler
page_fault_handler-calls c fault_va tf k k2 current user handler ran =
    simp (user, current, ne→== (k.envs c).env_pgfault_upcall 0 handler) ran

trapped-IsHandled :
    (c pgdir f : ℕ) (tf : Trapframe) (k : Kernel)
    → IsHandled c pgdir f tf k
    → IsHandled c pgdir f tf (trapped c tf k)
unfolding grants
trapped-IsHandled c pgdir f tf k h = record {
  space = ground (arith, h.space);
  handler = λ e. h.handler (ground (arith, e));
  valid = h.valid;
  granted = h.granted;
  stack = record {
    table = h.stack.table;
    table_writable = h.stack.table_writable;
    page = h.stack.page;
    page_writable = h.stack.page_writable;
    target = h.stack.target;
    no_directory = h.stack.no_directory;
    no_table = h.stack.no_table;
  };
  room = h.room;
  aligned = h.aligned;
}

trap_dispatch-faults :
    (from : Option ℕ) (fault_va : ℕ) (tf : Trapframe) (k k2 : Kernel)
    → tf.tf_trapno ≡ t_pgflt
    → page_fault_handler fault_va tf k ≡ left k2
    → trap_dispatch from fault_va tf k ≡ left k2
unfolding trap_dispatch
trap_dispatch-faults from fault_va tf k k2 fault ran = simp fault ran

-- The frame lies in the page of the exception stack.
frame_at-index :
    (c pgdir f : ℕ) (tf : Trapframe) (k : Kernel)
    → IsHandled c pgdir f tf k
    → (stack_page * 4096 + 4 * (frame_at tf % 4096 / 4) ≡ frame_at tf)
      × (frame_at tf % 4096 / 4 + 13 ≤ 1024)
frame_at-index c pgdir f tf k h =
    let top = stacktop_of-top tf in
    (omega (arith, h.room, h.aligned), omega (arith, h.room, h.aligned))

-- The frame has been written: c goes on in its handler.
handler-entered :
    (c pgdir f i utr : ℕ) (ws : List ℕ) (tf : Trapframe) (k k1 : Kernel)
    → IsStored f i ws (trapped c tf k) k1
    → (k.envs c).env_pgdir ≡ some pgdir
    → (k' : Kernel) × (env_run {A = Unit {0}} c (redirected c utr k1) ≡ left k')
      × (k'.curenv ≡ some c)
      × ((k'.envs c).env_tf ≡ record tf { tf_eip = (k.envs c).env_pgfault_upcall; tf_esp = utr })
      × (k'.word ≡ k1.word)
handler-entered c pgdir f i utr ws tf k k1 s space =
    let envs : k1.envs ≡ (trapped c tf k).envs = ap (λ (x : Kernel). x.envs) (s.rest) in
    let locked : k1.kernel_locked ≡ true = ap (λ (x : Kernel). x.kernel_locked) (s.rest) in
    let own : (k1.envs c).env_pgdir ≡ some pgdir = rw envs (ground (arith, space)) in
    let (k', ran, is) =
      env_run-IsRunning c pgdir (redirected c utr k1) locked (ground (arith, own)) in
    let frame : (k1.envs c).env_tf ≡ tf = rw envs (ground arith) in
    let upcall : (k1.envs c).env_pgfault_upcall ≡ (k.envs c).env_pgfault_upcall =
      rw envs (ground arith) in
    (k', ran, is.current, is.frames c ∙ ground (arith, frame, upcall), is.memory)

-- A page fault of the running environment c under a valid directory, where c has a handler and, at a
-- multiple of 4 on its exception stack, room for the frame: c goes on in the handler, with the stack
-- pointer at the frame and its other registers as they were. The frame holds the fault's address,
-- its error code and the registers at the fault, and no other word of memory changed.
pub trap-calls_handler :
    (c pgdir f fault_va : ℕ) (tf : Trapframe) (k : Kernel)
    → IsUserTrap c tf k
    → IsHandled c pgdir f tf k
    → tf.tf_trapno ≡ t_pgflt
    → (k' : Kernel) × (trap fault_va false tf k ≡ left k')
      × (k'.curenv ≡ some c)
      × ((k'.envs c).env_tf
          ≡ record tf { tf_eip = (k.envs c).env_pgfault_upcall; tf_esp = frame_at tf })
      × (bytes (k'.word f) (frame_at tf % 4096 / 4) 13 ≡ utrapframe fault_va tf)
      × ((q j : ℕ) → Outside f (frame_at tf % 4096 / 4) 13 q j → k'.word q j ≡ k.word q j)
trap-calls_handler c pgdir f fault_va tf k u h fault =
    let live = (running_apart (k.envs c).env_status u.running).0 in
    let i = frame_at tf % 4096 / 4 in
    let (at, fits) = frame_at-index c pgdir f tf k h in
    let k0 = trapped c tf k in
    let h0 = trapped-IsHandled c pgdir f tf k h in
    let (k1, stored, s) =
      store_words-IsStored stack_page f i (utrapframe fault_va tf) k0 (h0.stack) fits
        (omega arith) in
    let (k', ran, current, frame, memory) =
      handler-entered c pgdir f i (frame_at tf) (utrapframe fault_va tf) tf k k1 s (h.space) in
    let aim : store_words (frame_at tf) (utrapframe fault_va tf) k0 ≡ ok tt k1 =
      ap (λ (a : ℕ). store_words a (utrapframe fault_va tf) k0) (sym at) ∙ stored in
    (
      k',
      trap-dispatched c fault_va tf k u live
          ∙ ap (λ r. and_then r (λ _. resume))
              (trap_dispatch-faults (some c) fault_va tf k0 k' fault (
                page_fault_handler-calls c fault_va tf k0 k' (u.current) (u.user) (h0.handler)
                  (call_handler-runs c pgdir f fault_va tf k0 k1 k' h0 aim ran))),
      current,
      frame,
      ap (λ (m : ℕ → ℕ → ℕ). bytes (m f) i 13) memory ∙ s.stored,
      λ q j out.
          ap (λ (m : ℕ → ℕ → ℕ). m q j) memory
          ∙ IsStored-Outside f i q j (utrapframe fault_va tf) k0 k1 s out,
    )
