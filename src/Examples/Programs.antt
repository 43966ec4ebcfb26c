-- ===== src/Examples/Programs.antt =====
-- The theorems about the user-level library and about debugging information at small systems.
use pmake_os.Base.{ℕ, ◌*◌, ◌/◌, ◌%◌, ◌≡◌, ◌&&◌, ◌||◌, not, some, arith, ◌==◌, if◌then◌else◌, update}
use pmake_os.Kernel.Ret.{Ret, val, err, e_inval}
use pmake_os.Mmu.{pte_p, pte_w, test}
use pmake_os.Kdebug.{Stab, n_fun, stab_binsearch}
use pmake_os.Kdebug.Bracket.{IsSorted, IsBracket, stab_binsearch-IsBracket}
use pmake_os.User.{Sys}
use pmake_os.User.Fork.{Globals}
use pmake_os.User.Fork.Entries.{remap}

-- A system whose state is its page table entries, by environment and page.
abbrev Tables : Type 0
Tables = ℕ → ℕ → ℕ

abbrev table_map : ℕ → ℕ → ℕ → ℕ → ℕ → Tables → Ret × Tables
table_map src srcva dst dstva perm f =
    let w = f src (srcva / 4096) in
    if test w pte_p && (not (test perm pte_w) || test w pte_w)
    then (val 0, update f dst (update (f dst) (dstva / 4096) (remap w perm)))
    else (err e_inval, f)

abbrev tables : Sys Tables
tables = record {
  sys_page_map = table_map;
  sys_page_alloc = λ e va perm f. (val 0, f);
  sys_page_unmap = λ e va f. (val 0, update f e (update (f e) (va / 4096) 0));
  sys_exofork = λ f. (val 5, f);
  sys_getenvid = λ f. (1, f);
  sys_env_set_pgfault_upcall = λ e a f. (val 0, f);
  sys_env_set_status = λ e a f. (val 0, f);
  uvpd = λ f d. 7;
  uvpt = λ f p. f 0 p;
  move_page = λ dst src f. f;
}

-- A program with the pages 0, writable, and 1, shared; its own variables are left out.
abbrev program : Tables
program e p = if e == 0 && p == 0 then 0x4007 else if e == 0 && p == 1 then 0x5407 else 0

abbrev no_globals : Tables → Globals
no_globals f = record { pgfault_handler = 0; thisenv = 0 }

abbrev keep : Globals → Tables → Tables
keep g f = f

-- Three functions, at the indices 1, 3 and 5 of a table.
abbrev three : ℕ → Stab
three i = record {
  n_strx = 0;
  n_type = if i % 2 == 1 then n_fun else 0;
  n_other = 0;
  n_desc = 0;
  n_value = i * 16;
}

three-IsSorted : IsSorted three n_fun 0 6 50
three-IsSorted i j mi mj le = omega arith

stab_binsearch-IsBracket_example :
    (l1 r1 : ℕ) × (stab_binsearch three 0 6 n_fun 50 ≡ some (l1, r1))
    × IsBracket three n_fun 0 6 50 l1 r1
stab_binsearch-IsBracket_example =
    stab_binsearch-IsBracket three 0 6 n_fun 50 three-IsSorted (λ i m. omega (arith, m.1))
      (omega arith)
