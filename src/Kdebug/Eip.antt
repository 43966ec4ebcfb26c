-- ===== src/Kdebug/Eip.antt =====
-- debuginfo_eip of kern/kdebug.c: what is known about an instruction address.
use pmake_os.Base.{
  ℕ, zero, suc, ◌+◌, ◌-◌, ◌*◌, ◌/◌, ◌%◌, ◌^◌, Bool, true, false, ◌&&◌, ◌||◌, not, Option, none,
  some, bit_or, leb, ltb, ◌==◌, if◌then◌else◌,
}
use pmake_os.Kernel.{Kernel}
use pmake_os.Kernel.Run.{M, pure, ◌>>=◌, gets, deref}
use pmake_os.Kernel.Ret.{Ret, val, err}
use pmake_os.Mmu.{u32, pte_p, pte_u, pt_size, ulim}
use pmake_os.Str.{Memory, strfind}
use pmake_os.Pmap.UserMem.{user_mem_check}
use pmake_os.Kdebug.{Stab, n_fun, n_sline, n_so, n_sol, n_psym, stab_binsearch}

-- struct UserStabData, with what its pointers point to: `count` stabs from the address `stabs_at` on,
-- and strings from `stabstr` up to `stabstr_end`.
pub record Table : Type 0 where
  pub stabs_at : ℕ
  pub stabs : ℕ → Stab
  pub count : ℕ
  pub stabstr : ℕ
  pub stabstr_end : ℕ
  pub bytes : Memory

-- struct Eipdebuginfo; `none` is the string "<unknown>".
pub record Eipdebuginfo : Type 0 where
  pub eip_file : Option ℕ
  pub eip_line : ℕ
  pub eip_fn_name : Option ℕ
  pub eip_fn_namelen : ℕ
  pub eip_fn_addr : ℕ
  pub eip_fn_narg : ℕ

abbrev pub no_info : ℕ → Eipdebuginfo
no_info addr = record {
  eip_file = none;
  eip_line = 0;
  eip_fn_name = none;
  eip_fn_namelen = 9;
  eip_fn_addr = addr;
  eip_fn_narg = 0;
}

-- The returned value, true for 0 and false for -1, and `*info`. The result is `none` where C leaves the
-- run undefined, or a loop does not end.
abbrev pub Found : Type 0
Found = Option (Bool × Eipdebuginfo)

-- The string of a stab, if it begins inside the table.
abbrev pub string_at : Table → ℕ → Option ℕ
string_at t i =
    if ltb (t.stabs i).n_strx (t.stabstr_end - t.stabstr)
    then some (t.stabstr + (t.stabs i).n_strx)
    else none

-- `strfind(info->eip_fn_name, ':') - info->eip_fn_name`
abbrev pub name_length : Table → Option ℕ → Option ℕ
name_length t none = some 9
name_length t (some s) = elim (strfind (t.stabstr_end - t.stabstr) t.bytes s 0x3A) [
  | none ↦ none
  | some end ↦ some (end - s)
]

-- The loop back to the stab that names the file, from index n - 1 down to lfile; one more than its
-- index.
unfoldable pub file_back : (ℕ → Stab) → ℕ → ℕ → ℕ
file_back stabs lfile zero = zero
file_back stabs lfile (suc n) =
    let s = stabs n in
    let rest = file_back stabs lfile n in
    if leb lfile n && (not (s.n_type == n_sol) && (not (s.n_type == n_so) || s.n_value == 0))
    then rest
    else suc n

-- The loop over the arguments at most n stabs from index i on.
unfoldable pub count_args : (ℕ → Stab) → ℕ → ℕ → ℕ
count_args stabs i zero = 0
count_args stabs i (suc n) =
    let rest = count_args stabs (i + 1) n in if (stabs i).n_type == n_psym then rest + 1 else 0

-- From the line number on, for the line stab `lline` and the function's bounds.
unfoldable pub with_line : Table → Eipdebuginfo → ℕ → ℕ → ℕ → ℕ → Eipdebuginfo
unfolding file_back count_args
with_line t info lfile lline lfun1 rfun1 =
    let file = file_back t.stabs lfile (lline + 1) in
    record info {
      eip_line = (t.stabs lline).n_desc;
      eip_file = if ltb lfile file then string_at t (file - 1) else none;
      eip_fn_narg = if ltb lfun1 rfun1 then count_args t.stabs lfun1 (rfun1 - 1 - lfun1) else 0;
    }

-- The searches for the line, in the stabs from `lline` up to `rline1`, of which those of the file are from
-- `lfile` up to `rfile1`.
unfoldable pub find_line : Table → Eipdebuginfo → ℕ → ℕ → ℕ → ℕ → ℕ → ℕ → ℕ → Found
unfolding with_line
find_line t info addr lfile rfile1 lfun1 rfun1 lline rline1 =
    let whole_file = lline == lfile && rline1 == rfile1 in
    let target = u32 ((if whole_file then 0 else addr) + info.eip_fn_addr) in
    elim (stab_binsearch t.stabs lline rline1 n_sol target) [
      | none ↦ none
      | some (ol1, or1) ↦
          if ltb or1 ol1
          then elim (stab_binsearch t.stabs lline rline1 n_sline addr) [
            | none ↦ none
            | some (l1, r1) ↦
                if ltb r1 l1
                then some (false, info)
                else some (true, with_line t info lfile (l1 - 1) lfun1 rfun1)
          ]
          else some (true, with_line t info lfile lline lfun1 rfun1)
    ]

-- The search for the function in the stabs of the file.
unfoldable pub find_fun : Table → ℕ → ℕ → ℕ → Found
unfolding find_line
find_fun t addr lfile rfile1 = elim (stab_binsearch t.stabs lfile rfile1 n_fun addr) [
  | none ↦ none
  | some (lfun1, rfun1) ↦
      let found = leb lfun1 rfun1 in
      let s = t.stabs (lfun1 - 1) in
      let name = if found then string_at t (lfun1 - 1) else none in
      let fn_addr = if found then s.n_value else addr in
      let rest = if found then (addr + 2 ^ 32 - s.n_value) % 2 ^ 32 else addr in
      let lline = if found then lfun1 - 1 else lfile in
      let rline1 = if found then rfun1 else rfile1 in
      elim (name_length t name) [
        | none ↦ none
        | some namelen ↦
            let info : Eipdebuginfo = record (no_info addr) {
              eip_fn_name = name;
              eip_fn_addr = fn_addr;
              eip_fn_namelen = namelen;
            } in
            find_line t info rest lfile rfile1 lfun1 rfun1 lline rline1
      ]
]

-- The search for the file; it reads in front of the table if its first stab is a file above `addr`.
unfoldable pub find_file : Table → ℕ → Found
unfolding find_fun
find_file t addr =
    if leb t.stabstr_end t.stabstr || not (t.bytes (t.stabstr_end - 1) == 0)
    then some (false, no_info addr)
    else elim (stab_binsearch t.stabs 0 t.count n_so addr) [
      | none ↦ none
      | some (zero, rfile1) ↦ none
      | some (suc lfile, rfile1) ↦
          if lfile == 0 then some (false, no_info addr) else find_fun t addr lfile rfile1
    ]

abbrev pub ustabdata : ℕ
ustabdata = pt_size / 2

abbrev pub is_zero : Ret → Bool
is_zero (val v) = v == 0
is_zero (err e) = false

-- debuginfo_eip with the kernel's own table, and the one that is read at USTABDATA in a state.
unfoldable pub debuginfo_eip : Table → (Kernel → Table) → ℕ → M Found
unfolding find_file
debuginfo_eip kernel_table user_table addr k =
    if leb ulim addr
    then pure (find_file kernel_table addr) k
    else (do
      curenv ← gets (λ k. k.curenv)
      e ← deref curenv
      r ← user_mem_check e ustabdata 16 (bit_or pte_u pte_p)
      if not (is_zero r) then pure (some (false, no_info addr)) else do
        t ← gets user_table
        r' ← user_mem_check e t.stabs_at (u32 (t.count * 12)) (bit_or pte_u pte_p)
        if not (is_zero r') then pure (some (false, no_info addr)) else do
          r'' ←
              user_mem_check e t.stabstr (u32 (t.stabstr_end + 2 ^ 32 - t.stabstr))
                (bit_or pte_u pte_p)
          if not (is_zero r'') then pure (some (false, no_info addr)) else pure (find_file t addr))
        k
