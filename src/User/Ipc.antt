-- ===== src/User/Ipc.antt =====
-- lib/ipc.c: messages between programs, over the system calls and the fields of `thisenv` and `envs`.
use pmake_os.Base.{
  ℕ, zero, suc, ◌+◌, ◌-◌, ◌^◌, ◌≤◌, ◌<◌, ◌≡◌, refl, ap, ◌∙◌, ◌≢◌, Bool, true, false, Option, none,
  some, arith, ◌==◌, ne→==, ==_refl, if◌then◌else◌,
}
use native.Mathlib.Decide.{ℕ_discrete}
use pmake_os.Kernel.Ret.{Error, Ret, val, err, e_ipc_not_recv}
use pmake_os.Env.{nenv}
use pmake_os.User.{Outcome, returns, panics}

pub record IpcSys (S : Type 0) : Type 0 where
  pub sys_ipc_recv : ℕ → S → Ret × S
  pub sys_ipc_try_send : ℕ → ℕ → ℕ → ℕ → S → Ret × S
  pub sys_yield : S → S
  pub env_ipc_from : S → ℕ
  pub env_ipc_perm : S → ℕ
  pub env_ipc_value : S → ℕ
  pub env_type : S → ℕ → ℕ
  pub env_id : S → ℕ → ℕ

-- What ipc_recv returns, and what it stores through the two pointers where they are not NULL.
pub record Received : Type 0 where
  pub result : Ret
  pub from : Option ℕ
  pub perm : Option ℕ

-- The address for "no page".
abbrev pub page_arg : ℕ → ℕ
page_arg pg = if pg == 0 then 2 ^ 32 - 1 else pg

abbrev stored : Bool → ℕ → Option ℕ
stored b v = if b then some v else none

abbrev pub is_not_recv : Error → Bool
is_not_recv Error.e_ipc_not_recv = true
is_not_recv _ = false

module _ {S : Type 0} (sys : IpcSys S) where
  unfoldable pub ipc_recv : Bool → ℕ → Bool → S → Received × S
  ipc_recv has_from pg has_perm s =
      let r = sys.sys_ipc_recv (page_arg pg) s in
      elim r.0 [
        | err e ↦
            (record { result = err e; from = stored has_from 0; perm = stored has_perm 0 }, r.1)
        | val _ ↦ (
          record {
            result = val (sys.env_ipc_value r.1);
            from = stored has_from (sys.env_ipc_from r.1);
            perm = stored has_perm (sys.env_ipc_perm r.1);
          },
          r.1,
        )
      ]

  -- The loop of ipc_send; none if the fuel does not suffice. A result above 0 panics as an error does.
  unfoldable pub send_loop : ℕ → ℕ → ℕ → ℕ → ℕ → S → Option (Outcome S (Unit {0}))
  send_loop zero to_env value pg perm s = none
  send_loop (suc fuel) to_env value pg perm s =
      let r = sys.sys_ipc_try_send to_env value pg perm s in
      let rest = send_loop fuel to_env value pg perm (sys.sys_yield r.1) in
      elim r.0 [
        | val v ↦ if v == 0 then some (returns tt r.1) else some panics
        | err e ↦ if is_not_recv e then rest else some panics
      ]

  unfoldable pub ipc_send : ℕ → ℕ → ℕ → ℕ → ℕ → S → Option (Outcome S (Unit {0}))
  unfolding send_loop
  ipc_send fuel to_env value pg perm s = send_loop fuel to_env value (page_arg pg) perm s

  -- The loop of ipc_find_env over the n environments from index i on.
  unfoldable pub find_env_loop : ℕ → ℕ → ℕ → S → ℕ
  find_env_loop zero i type s = 0
  find_env_loop (suc n) i type s =
      let rest = find_env_loop n (i + 1) type s in
      if sys.env_type s i == type then sys.env_id s i else rest

  unfoldable pub ipc_find_env : ℕ → S → ℕ
  unfolding find_env_loop
  ipc_find_env type s = find_env_loop nenv 0 type s

  -- In n rounds, in each of which the receiver was not ready, ipc_send came from one state to another.
  pub data Waits (to_env value pg perm : ℕ) : ℕ → S → S → Type 0 where
    ready : (s : S) → Waits to_env value pg perm zero s s
    again :
        (n : ℕ) (s s' : S)
        → (sys.sys_ipc_try_send to_env value (page_arg pg) perm s).0 ≡ err e_ipc_not_recv
        → Waits to_env value pg perm n
            (sys.sys_yield (sys.sys_ipc_try_send to_env value (page_arg pg) perm s).1)
            s'
        → Waits to_env value pg perm (suc n) s s'

  send_now :
      (to_env value pg perm more : ℕ) (s : S)
      → let r = sys.sys_ipc_try_send to_env value pg perm s in
        (r.0 ≡ val 0 → send_loop (suc more) to_env value pg perm s ≡ some (returns tt r.1))
        × ((e : Error)
            → r.0 ≡ err e
            → is_not_recv e ≡ false
            → send_loop (suc more) to_env value pg perm s ≡ some panics)
  unfolding send_loop
  send_now to_env value pg perm more s =
      (λ e. rw (send_loop, e) refl, λ x e other. rw (send_loop, e, other) refl)

  -- When the receiver is ready after n rounds, ipc_send with fuel for one round more returns if the kernel
  -- then takes the message, and panics if it reports any other error.
  pub ipc_send-Waits :
      (to_env value pg perm n more : ℕ) (s s' : S)
      → Waits to_env value pg perm n s s'
      → let r = sys.sys_ipc_try_send to_env value (page_arg pg) perm s' in
        (r.0 ≡ val 0 → ipc_send (n + suc more) to_env value pg perm s ≡ some (returns tt r.1))
        × ((e : Error)
            → r.0 ≡ err e
            → is_not_recv e ≡ false
            → ipc_send (n + suc more) to_env value pg perm s ≡ some panics)
  unfolding ipc_send
  ipc_send-Waits to_env value pg perm _ more _ _ (ready start) =
      let now : 0 + suc more ≡ suc more = omega arith in
      (
        λ e.
            ap (λ (f : ℕ). send_loop f to_env value (page_arg pg) perm start) now
            ∙ (send_now to_env value (page_arg pg) perm more _).0 e,
        λ x e other.
            ap (λ (f : ℕ). send_loop f to_env value (page_arg pg) perm start) now
            ∙ (send_now to_env value (page_arg pg) perm more _).1 x e other,
      )
  ipc_send-Waits to_env value pg perm _ more _ _ (again n' s s' busy rest) =
      let next : suc n' + suc more ≡ suc (n' + suc more) = omega arith in
      let (a, b) = ipc_send-Waits to_env value pg perm n' more _ s' rest in
      (λ e. rw (next, send_loop, busy) (a e), λ x e other. rw (next, send_loop, busy) (b x e other))

  -- The loop of ipc_find_env gives 0 where no environment of the n has the type, and else the identifier
  -- of the first one that has.
  pub find_env_loop-first :
      (n i type : ℕ) (s : S)
      → (((j : ℕ) → i ≤ j → j < i + n → sys.env_type s j ≢ type) → find_env_loop n i type s ≡ 0)
        × ((j : ℕ)
            → i ≤ j
            → j < i + n
            → sys.env_type s j ≡ type
            → ((m : ℕ) → i ≤ m → m < j → sys.env_type s m ≢ type)
            → find_env_loop n i type s ≡ sys.env_id s j)
  unfolding find_env_loop
  find_env_loop-first zero i type s = (λ h. refl, λ j lo hi e first. absurd (omega arith))
  find_env_loop-first (suc n) i type s =
      let (a, b) = find_env_loop-first n (i + 1) type s in
      (
        λ h.
            let no = ne→== (sys.env_type s i) type (h i (omega arith) (omega arith)) in
            rw no (a (λ j lo hi. h j (omega arith) (omega arith))),
        λ j lo hi e first. elim (ℕ_discrete i j) [
          | yes at ↦ rw (at, e, ==_refl type) refl
          | no away ↦
              let no = ne→== (sys.env_type s i) type (first i (omega arith) (omega arith)) in
              rw no (b j (omega arith) (omega arith) e (λ m l h. first m (omega arith) h))
        ],
      )
