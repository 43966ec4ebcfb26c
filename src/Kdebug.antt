-- ===== src/Kdebug.antt =====
-- kern/kdebug.c: which function and line an instruction address belongs to, by the table of stabs.
-- Indices into the table are C ints that may become -1; the ends of a range are kept here as one more
-- than the source's, so that `left1` is `*region_left + 1` and `right1` is `*region_right + 1`.
pub mod Scan
pub mod Bracket
pub mod Eip
use pmake_os.Base.{
  ℕ, zero, suc, ◌+◌, ◌-◌, ◌*◌, ◌/◌, ◌%◌, ◌^◌, Bool, true, false, ◌&&◌, ◌||◌, not, Option, none,
  some, leb, ltb, ◌==◌, if◌then◌else◌,
}
use pmake_os.Mmu.{u32}

-- struct Stab
pub record Stab : Type 0 where
  pub n_strx : ℕ
  pub n_type : ℕ
  pub n_other : ℕ
  pub n_desc : ℕ
  pub n_value : ℕ

abbrev pub n_fun : ℕ
n_fun = 0x24

abbrev pub n_sline : ℕ
n_sline = 0x44

abbrev pub n_so : ℕ
n_so = 0x64

abbrev pub n_sol : ℕ
n_sol = 0x84

abbrev pub n_psym : ℕ
n_psym = 0xA0

-- The last stab of the type among the n ones from index l on.
unfoldable pub find_back : (ℕ → Stab) → ℕ → ℕ → ℕ → Option ℕ
find_back stabs type l zero = none
find_back stabs type l (suc n) =
    if (stabs (l + n)).n_type == type then some (l + n) else find_back stabs type l n

-- The variables of stab_binsearch; its `r` is always `*region_right`.
pub record Bounds : Type 0 where
  pub l : ℕ
  pub left1 : ℕ
  pub right1 : ℕ
  pub any_matches : Bool
  pub addr : ℕ

-- One round of the main loop, for l ≤ r; first what follows the search from true_m.
unfoldable pub round_at : (ℕ → Stab) → Bounds → ℕ → Option ℕ → Bounds
round_at stabs s true_m none = record s { l = true_m + 1 }
round_at stabs s true_m (some m) =
    let value = (stabs m).n_value in
    if ltb value s.addr
    then record s { any_matches = true; left1 = m + 1; l = true_m + 1 }
    else if ltb s.addr value
    then record s { any_matches = true; right1 = m }
    else record s { any_matches = true; left1 = m + 1; l = m; addr = u32 (s.addr + 1) }

unfoldable pub search_round : (ℕ → Stab) → ℕ → Bounds → Bounds
unfolding find_back round_at
search_round stabs type s =
    let true_m = (s.l + (s.right1 - 1)) / 2 in
    round_at stabs s true_m (find_back stabs type s.l (true_m + 1 - s.l))

-- The main loop; none if the fuel does not suffice.
unfoldable pub search_loop : (ℕ → Stab) → ℕ → ℕ → Bounds → Option Bounds
unfolding search_round
search_loop stabs type zero s = if ltb s.l s.right1 then none else some s
search_loop stabs type (suc fuel) s =
    let rest = search_loop stabs type fuel (search_round stabs type s) in
    if ltb s.l s.right1 then rest else some s

-- The loop at the end, from index n - 1 down to behind `left1`.
unfoldable pub rightmost : (ℕ → Stab) → ℕ → ℕ → ℕ → ℕ
rightmost stabs type left1 zero = zero
rightmost stabs type left1 (suc n) =
    if ltb left1 (suc n) && not ((stabs n).n_type == type)
    then rightmost stabs type left1 n
    else suc n

unfoldable pub search_end : (ℕ → Stab) → ℕ → Bounds → ℕ × ℕ
unfolding rightmost
search_end stabs type s =
    if not s.any_matches
    then (s.left1, s.left1 - 1)
    else (rightmost stabs type s.left1 s.right1, s.right1)

abbrev pub end_of : (ℕ → Stab) → ℕ → Option Bounds → Option (ℕ × ℕ)
end_of stabs type none = none
end_of stabs type (some s) = some (search_end stabs type s)

-- stab_binsearch from `*region_left` = left, to the new left1 and right1.
unfoldable pub stab_binsearch : (ℕ → Stab) → ℕ → ℕ → ℕ → ℕ → Option (ℕ × ℕ)
unfolding search_loop search_end
stab_binsearch stabs left right1 type addr =
    let start : Bounds = record {
      l = left;
      left1 = left + 1;
      right1 = right1;
      any_matches = false;
      addr = addr;
    } in
    end_of stabs type (search_loop stabs type (right1 - left + 1) start)
