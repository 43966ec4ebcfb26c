-- ===== src/Pmap/UserMem.antt =====
-- user_mem_check of kern/pmap.c: may an environment touch a range of its memory?
pub mod Range
use pmake_os.Base.{
  ℕ, zero, suc, ◌+◌, ◌-◌, ◌*◌, ◌/◌, ◌%◌, ◌^◌, Bool, true, false, ◌||◌, not, Option, none, some,
  bit_and, leb, ltb, ◌==◌, if◌then◌else◌,
}
use pmake_os.Kernel.{Kernel}
use pmake_os.Kernel.Run.{M, undefined, pure, ◌>>=◌, ◌>>◌, gets, modify, deref}
use pmake_os.Kernel.Ret.{Ret, val, err, e_fault}
use pmake_os.Mmu.{u32, pg_size, pte_p, ulim, test, round_down, round_up}
use pmake_os.Pmap.Paging.{Slot, load, pgdir_walk}

-- The condition of the loop's `if`, for the page at `i`.
unfoldable pub refused : ℕ → ℕ → Option Slot → Kernel → Bool
refused perm i none k = true
refused perm i (some pte) k =
    leb ulim i || not (test (load pte k) pte_p) || not (bit_and (load pte k) perm == perm)

unfoldable pub check_page : ℕ → ℕ → ℕ → M Bool
check_page env perm i = do
  env_pgdir ← gets (λ k. (k.envs env).env_pgdir)
  pgdir ← deref env_pgdir
  pte ← pgdir_walk pgdir i false
  gets (refused perm i pte)

-- The loop from `i` on; `undefined` stands for rounds that ran out.
unfoldable pub user_mem_loop : ℕ → ℕ → ℕ → ℕ → ℕ → ℕ → M Ret
user_mem_loop zero env va end perm i = λ k. undefined
user_mem_loop (suc n) env va end perm i =
    let rest = user_mem_loop n env va end perm (u32 (i + pg_size)) in
    let fail : M Ret = do
      modify (λ k. record k { user_mem_check_addr = if ltb i va then va else i })
      pure (err e_fault)
    in if ltb i end
      then (do bad ← check_page env perm i; if bad then fail else rest)
      else pure (val 0)

unfoldable pub user_mem_check : ℕ → ℕ → ℕ → ℕ → M Ret
user_mem_check env va len perm =
    let begin = round_down va pg_size in
    let end = round_up (u32 (va + len)) pg_size in
    user_mem_loop ((end - begin) / pg_size + 1) env va end perm begin
