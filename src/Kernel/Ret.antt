-- ===== src/Kernel/Ret.antt =====
-- inc/error.h: what a kernel function returns, and its 32-bit pattern.
use pmake_os.Base.{ℕ, ◌-◌, ◌^◌}

pub data Error : Type 0 where
  e_unspecified : Error
  e_bad_env : Error
  e_inval : Error
  e_no_mem : Error
  e_no_free_env : Error
  e_fault : Error
  e_ipc_not_recv : Error
  e_eof : Error

abbrev pub error_code : Error → ℕ
error_code e_unspecified = 1
error_code e_bad_env = 2
error_code e_inval = 3
error_code e_no_mem = 4
error_code e_no_free_env = 5
error_code e_fault = 6
error_code e_ipc_not_recv = 7
error_code e_eof = 8

-- A result that is not negative, or the negative of an error code.
pub data Ret : Type 0 where
  val : ℕ → Ret
  err : Error → Ret

-- The value as it is left in %eax.
abbrev pub to_word : Ret → ℕ
to_word (val n) = n
to_word (err e) = 2 ^ 32 - error_code e

-- A result with a value stored through a pointer, or an error code.
pub data Res {ℓ} (A : Type ℓ) : Type ℓ where
  got : A → Res A
  fail : Error → Res A
