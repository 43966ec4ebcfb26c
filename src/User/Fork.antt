-- ===== src/User/Fork.antt =====
-- lib/fork.c and lib/pgfault.c: fork with copy-on-write. The variables `_pgfault_handler` and `thisenv`
-- are read and written through `globals` and `set_globals`; a function is its address.
pub mod Entries
pub mod Cow
use pmake_os.Base.{
  ℕ, zero, suc, ◌+◌, ◌*◌, ◌/◌, ◌%◌, ◌^◌, Bool, ◌&&◌, ◌||◌, not, bit_or, ◌==◌, if◌then◌else◌, ◌-◌,
}
use pmake_os.Kernel.{EnvStatus, env_runnable}
use pmake_os.Kernel.Ret.{Ret, val, err}
use pmake_os.Mmu.{
  pg_size, pt_size, pte_p, pte_w, pte_u, pte_syscall, pdx, pg_num, test, round_down, ustacktop,
  uxstacktop,
}
use pmake_os.Env.{envx}
use pmake_os.User.{U, Outcome, returns, panics, pure, panic, ◌>>=◌, ◌>>◌, call, look, Sys}

abbrev pub pte_cow : ℕ
pte_cow = 0x800

abbrev pub pte_share : ℕ
pte_share = 0x400

abbrev pub fec_wr : ℕ
fec_wr = 0x2

abbrev pub utemp : ℕ
utemp = pt_size

abbrev pub pftemp : ℕ
pftemp = utemp + pt_size - pg_size

-- The program's own variables.
pub record Globals : Type 0 where
  pub pgfault_handler : ℕ
  pub thisenv : ℕ

-- `if ((r = …) < 0) panic`
abbrev pub check : {S : Type 0} → Ret → U S (Unit {0})
check (val v) = pure tt
check (err e) = panic

module _ {S : Type 0} (sys : Sys S) (globals : S → Globals) (set_globals : Globals → S → S) where
  unfoldable pub set_pgfault_handler : ℕ → ℕ → U S (Unit {0})
  set_pgfault_handler upcall handler = do
    g ← look globals
    (if g.pgfault_handler == 0
        then (do
          eid ← call sys.sys_getenvid
          r ←
              call
                (sys.sys_page_alloc eid (uxstacktop - pg_size) (bit_or (bit_or pte_u pte_p) pte_w))
          check r
          r' ← call (sys.sys_env_set_pgfault_upcall eid upcall)
          check r')
        else pure tt)
    call (λ s. (tt, set_globals (record (globals s) { pgfault_handler = handler }) s))

  -- The handler, for the address of the fault and its error code.
  unfoldable pub pgfault : ℕ → ℕ → U S (Unit {0})
  pgfault fault_va utf_err s =
      if not (test utf_err fec_wr && test (sys.uvpt s (pg_num fault_va)) pte_cow)
      then panics
      else (let addr = round_down fault_va pg_size in
            do
              r ← call (sys.sys_page_map 0 addr 0 pftemp (bit_or pte_u pte_p))
              check r
              r' ← call (sys.sys_page_alloc 0 addr (bit_or (bit_or pte_p pte_u) pte_w))
              check r'
              call (λ s. (tt, sys.move_page addr pftemp s))
              r'' ← call (sys.sys_page_unmap 0 pftemp)
              check r'')
          s

  unfoldable pub duppage : ℕ → ℕ → U S (Unit {0})
  duppage envid pn s =
      let addr = pn * pg_size in
      let cow = bit_or (bit_or pte_cow pte_u) pte_p in
      if test (sys.uvpt s pn) pte_share
      then returns tt (sys.sys_page_map 0 addr envid addr pte_syscall s).1
      else if test (sys.uvpt s pn) pte_w || test (sys.uvpt s pn) pte_cow
      then (do
        r ← call (sys.sys_page_map 0 addr envid addr cow)
        check r
        r' ← call (sys.sys_page_map 0 addr 0 addr cow)
        check r')
          s
      else returns tt (sys.sys_page_map 0 addr envid addr (bit_or pte_u pte_p) s).1

  -- The condition of the loop of fork, and its rounds for n pages from page pn on.
  abbrev pub is_mapped : S → ℕ → Bool
  is_mapped s pn =
      test (sys.uvpd s (pn / 1024)) pte_p
      && (test (sys.uvpt s pn) pte_p && test (sys.uvpt s pn) pte_u)

  unfoldable pub fork_loop : ℕ → ℕ → ℕ → U S (Unit {0})
  unfolding duppage
  fork_loop envid zero pn = pure tt
  fork_loop envid (suc n) pn = do
    mapped ← look (λ s. is_mapped s pn)
    (if mapped then duppage envid pn else pure tt)
    fork_loop envid n (pn + 1)

  -- What the parent does for its child.
  unfoldable pub fork_parent : ℕ → ℕ → U S ℕ
  unfolding fork_loop
  fork_parent upcall envid = do
    fork_loop envid (ustacktop / pg_size) 0
    r ← call (sys.sys_page_alloc envid (uxstacktop - pg_size) (bit_or (bit_or pte_p pte_w) pte_u))
    check r
    r' ← call (sys.sys_env_set_pgfault_upcall envid upcall)
    r'' ← call (sys.sys_env_set_status envid env_runnable)
    check r''
    pure envid

  unfoldable pub fork : ℕ → ℕ → U S ℕ
  unfolding set_pgfault_handler fork_parent
  fork upcall handler = do
    set_pgfault_handler upcall handler
    r ← call sys.sys_exofork
    elim r [
      | err e ↦ panic
      | val envid ↦
          if envid == 0
          then (do
            id ← call sys.sys_getenvid
            call (λ s. (tt, set_globals (record (globals s) { thisenv = envx id }) s))
            pure 0)
          else fork_parent upcall envid
    ]
