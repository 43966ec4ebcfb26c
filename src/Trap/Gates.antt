-- ===== src/Trap/Gates.antt =====
-- trap_init and trap_init_percpu of kern/trap.c: the tables by which the processor enters the kernel.
-- `handler n` is the address that is entered for the vector n.
use pmake_os.Base.{
  ℕ, zero, suc, ◌+◌, ◌*◌, ◌/◌, ◌%◌, ◌^◌, ◌≡◌, refl, ap, inl, inr, Bool, true, false, ◌&&◌, ◌||◌,
  not, arith, leb, ltb, ◌==◌, if◌then◌else◌, Bool-cases,
}
use pmake_os.Trap.{gd_kt, irq_offset, t_syscall}

-- struct Gatedesc
pub record Gatedesc : Type 0 where
  pub gd_off_15_0 : ℕ
  pub gd_sel : ℕ
  pub gd_args : ℕ
  pub gd_rsv1 : ℕ
  pub gd_type : ℕ
  pub gd_s : ℕ
  pub gd_dpl : ℕ
  pub gd_p : ℕ
  pub gd_off_31_16 : ℕ

abbrev pub sts_ig32 : ℕ
sts_ig32 = 0xE

abbrev pub sts_tg32 : ℕ
sts_tg32 = 0xF

abbrev pub Idt : Type 0
Idt = ℕ → Gatedesc

unfoldable pub gate : Bool → ℕ → ℕ → ℕ → Gatedesc
gate istrap sel off dpl = record {
  gd_off_15_0 = off % 2 ^ 16;
  gd_sel = sel;
  gd_args = 0;
  gd_rsv1 = 0;
  gd_type = if istrap then sts_tg32 else sts_ig32;
  gd_s = 0;
  gd_dpl = dpl;
  gd_p = 1;
  gd_off_31_16 = off / 2 ^ 16;
}

unfoldable pub empty_idt : Idt
empty_idt n = record {
  gd_off_15_0 = 0;
  gd_sel = 0;
  gd_args = 0;
  gd_rsv1 = 0;
  gd_type = 0;
  gd_s = 0;
  gd_dpl = 0;
  gd_p = 0;
  gd_off_31_16 = 0;
}

-- One SETGATE of trap_init, for the vector n.
unfoldable pub set_gate : (ℕ → ℕ) → ℕ → ℕ → Idt → Idt
set_gate handler n dpl idt i = if i == n then gate false gd_kt (handler n) dpl else idt i

-- The vectors from n on, `count` of them, that no program may call.
unfoldable pub set_gates : (ℕ → ℕ) → ℕ → ℕ → Idt → Idt
set_gates handler n zero idt = idt
set_gates handler n (suc count) idt = set_gates handler (n + 1) count (set_gate handler n 0 idt)

-- The assignments of trap_init, in their order.
unfoldable pub trap_init : (ℕ → ℕ) → Idt → Idt
trap_init handler idt0 =
    let idt1 = set_gates handler 0 2 idt0 in
    let idt2 = set_gate handler 3 3 idt1 in
    let idt3 = set_gates handler 4 11 idt2 in
    let idt4 = set_gate handler 16 0 idt3 in
    let idt5 = set_gates handler irq_offset 16 idt4 in set_gate handler t_syscall 3 idt5

set_gates_lem :
    (handler : ℕ → ℕ) (n count : ℕ) (idt : Idt) (i : ℕ)
    → set_gates handler n count idt i
      ≡ (if leb n i && ltb i (n + count) then gate false gd_kt (handler i) 0 else idt i)
unfolding set_gates set_gate
set_gates_lem handler n zero idt i = ground arith
set_gates_lem handler n (suc count) idt i =
    let rest = set_gates_lem handler (n + 1) count (set_gate handler n 0 idt) i in
    elim (Bool-cases (i == n)) [
      | inl here ↦
          let same : i ≡ n = ground (arith, here) in ground (arith, rest, same, ap handler same)
      | inr apart ↦ ground (arith, rest, apart)
    ]

-- The vectors that trap_init gives a gate.
abbrev pub is_served : ℕ → Bool
is_served i = (ltb i 15 && not (i == 2)) || (i == 16 || (leb 32 i && leb i 48))

pub trap_init-gate :
    (handler : ℕ → ℕ) (i : ℕ)
    → trap_init handler empty_idt i ≡ (
        if is_served i
        then gate false gd_kt (handler i) (if i == 3 || i == 48 then 3 else 0)
        else empty_idt i)
unfolding trap_init set_gate
trap_init-gate handler i =
    let idt1 = set_gates handler 0 2 empty_idt in
    let idt2 = set_gate handler 3 3 idt1 in
    let idt3 = set_gates handler 4 11 idt2 in
    let idt4 = set_gate handler 16 0 idt3 in
    ground (
      arith,
      set_gates_lem handler 0 2 empty_idt i,
      set_gates_lem handler 4 11 idt2 i,
      set_gates_lem handler 32 16 idt4 i,
    )

-- Whether code on the ring may reach the gate by an `int` instruction, and the address it leads to.
abbrev pub may_call : ℕ → Gatedesc → Bool
may_call ring g = g.gd_p == 1 && leb ring g.gd_dpl

abbrev pub entry_of : Gatedesc → ℕ
entry_of g = g.gd_off_31_16 * 2 ^ 16 + g.gd_off_15_0

-- After trap_init a program may call the gates of the breakpoint and of the system call, and no other
-- one; the kernel has gates for the vectors 0, 1, 3 to 14, 16 and 32 to 48. Each of these leads to its
-- handler in the kernel's code segment and turns interrupts off.
pub trap_init-callable :
    (handler : ℕ → ℕ) (i : ℕ)
    → let g = trap_init handler empty_idt i in
      (may_call 3 g ≡ (i == 3 || i == 48))
      × (may_call 0 g ≡ is_served i)
      × (may_call 0 g ≡ true
          → (entry_of g ≡ handler i) × (g.gd_sel ≡ gd_kt) × (g.gd_type ≡ sts_ig32))
unfolding gate empty_idt
trap_init-callable handler i = elim (Bool-cases (is_served i)) [
  | inl served ↦ elim (Bool-cases (i == 3 || i == 48)) [
    | inl callable ↦
        rw (trap_init-gate handler i, served, callable)
          (refl, refl, λ called. (omega arith, refl, refl))
    | inr shut ↦
        rw (trap_init-gate handler i, served, shut)
          (refl, refl, λ called. (omega arith, refl, refl))
  ]
  | inr absent ↦ rw (trap_init-gate handler i, absent) (ground arith, refl, λ called. cc)
]
