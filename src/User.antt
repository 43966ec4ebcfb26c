-- ===== src/User.antt =====
-- The user-level library of lib/: programs over the system calls that the kernel gives them.
pub mod Fork
pub mod Ipc
pub mod Printf
pub mod Stubs
use pmake_os.Base.{ℕ}
use pmake_os.Kernel.{EnvStatus}
use pmake_os.Kernel.Ret.{Ret}

-- How a library function ends: it returns, or it calls panic, which ends the program.
pub data Outcome {ℓ} (S : Type 0) (A : Type ℓ) : Type ℓ where
  returns : A → S → Outcome S A
  panics : Outcome S A

abbrev pub U {ℓ} : Type 0 → Type ℓ → Type ℓ
U S A = S → Outcome S A

abbrev pub pure {ℓ} : {S : Type 0} {A : Type ℓ} → A → U S A
pure a s = returns a s

abbrev pub panic {ℓ} : {S : Type 0} {A : Type ℓ} → U S A
panic s = panics

abbrev pub and_then {ℓ κ} :
    {S : Type 0} {A : Type ℓ} {B : Type κ} → Outcome S A → (A → U S B) → Outcome S B
and_then (returns a s) f = f a s
and_then panics f = panics

infixl 5 ◌>>=◌ ◌>>◌
abbrev pub ◌>>=◌ {ℓ κ} : {S : Type 0} {A : Type ℓ} {B : Type κ} → U S A → (A → U S B) → U S B
◌>>=◌ m f s = and_then (m s) f

abbrev pub ◌>>◌ {ℓ} : {S : Type 0} {B : Type ℓ} → U S (Unit {0}) → U S B → U S B
◌>>◌ m n s = and_then (m s) (λ _. n)

-- A system call, or a read of the state.
abbrev pub call {ℓ} : {S : Type 0} {A : Type ℓ} → (S → A × S) → U S A
call f s = let r = f s in returns r.0 r.1

abbrev pub look {ℓ} : {S : Type 0} {A : Type ℓ} → (S → A) → U S A
look f s = returns (f s) s

-- The system calls of lib/syscall.c as a program meets them, with the page tables that it sees at UVPT.
-- `move_page dst src` is a memmove of one page between two page addresses of the program.
pub record Sys (S : Type 0) : Type 0 where
  pub sys_page_map : ℕ → ℕ → ℕ → ℕ → ℕ → S → Ret × S
  pub sys_page_alloc : ℕ → ℕ → ℕ → S → Ret × S
  pub sys_page_unmap : ℕ → ℕ → S → Ret × S
  pub sys_exofork : S → Ret × S
  pub sys_getenvid : S → ℕ × S
  pub sys_env_set_pgfault_upcall : ℕ → ℕ → S → Ret × S
  pub sys_env_set_status : ℕ → EnvStatus → S → Ret × S
  pub uvpd : S → ℕ → ℕ
  pub uvpt : S → ℕ → ℕ
  pub move_page : ℕ → ℕ → S → S
