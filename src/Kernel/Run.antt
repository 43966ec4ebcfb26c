-- ===== src/Kernel/Run.antt =====
-- Commands over the kernel's state, and how they end.
use pmake_os.Base.{Option, none, some}
use pmake_os.Kernel.{Kernel}

-- `ok`: the function returns. `panicked`: `panic` was called. `left`: the CPU left the kernel, into
-- an environment or by halting, so that the call does not return. `in_monitor`: the kernel monitor
-- reads commands for ever. `undefined`: C gives the run no meaning, as for a NULL pointer that is
-- followed.
pub data Run {ℓ} (A : Type ℓ) : Type ℓ where
  ok : A → Kernel → Run A
  panicked : Run A
  left : Kernel → Run A
  in_monitor : Kernel → Run A
  undefined : Run A

abbrev pub M {ℓ} : Type ℓ → Type ℓ
M A = Kernel → Run A

abbrev pub pure {ℓ} : {A : Type ℓ} → A → M A
pure a k = ok a k

abbrev pub and_then {ℓ κ} : {A : Type ℓ} {B : Type κ} → Run A → (A → M B) → Run B
and_then (ok a k) f = f a k
and_then panicked f = panicked
and_then (left k) f = left k
and_then (in_monitor k) f = in_monitor k
and_then undefined f = undefined

infixl 5 ◌>>=◌ ◌>>◌
abbrev pub ◌>>=◌ {ℓ κ} : {A : Type ℓ} {B : Type κ} → M A → (A → M B) → M B
◌>>=◌ m f k = and_then (m k) f

abbrev pub ◌>>◌ {ℓ} : {B : Type ℓ} → M (Unit {0}) → M B → M B
◌>>◌ m n k = and_then (m k) (λ _. n)

-- Read a part of the state; change the state.
abbrev pub gets {ℓ} : {A : Type ℓ} → (Kernel → A) → M A
gets f k = ok (f k) k

abbrev pub modify : (Kernel → Kernel) → M (Unit {0})
modify f k = ok tt (f k)

abbrev pub panic {ℓ} : {A : Type ℓ} → M A
panic k = panicked

-- Follow a pointer that must not be NULL.
abbrev pub deref {ℓ} : {A : Type ℓ} → Option A → M A
deref none k = undefined
deref (some a) k = ok a k
