-- ===== src/Env/Init.antt =====
-- env_init: the free environments in the order of the array.
use pmake_os.Base.{
  ℕ, zero, suc, ◌+◌, ◌≤◌, ◌<◌, ◌≡◌, refl, false, Option, none, some, List, [], ◌∷◌, arith, ◌==◌,
  ==_refl, update,
}
use pmake_os.Kernel.{Env, Kernel}
use pmake_os.Env.{nenv, env_init_at, env_init_loop, env_init}

-- From `head` the links lead through the environments of the list to NULL.
abbrev pub Chain : (ℕ → Env) → Option ℕ → List ℕ → Type 0
Chain envs head [] = head ≡ none
Chain envs head (x ∷ xs) = (head ≡ some x) × Chain envs (envs x).env_link xs

-- i, i + 1, …, with n numbers.
abbrev pub count_up : ℕ → ℕ → List ℕ
count_up i zero = []
count_up i (suc n) = i ∷ count_up (suc i) n

Chain-below :
    (envs : ℕ → Env) (j : ℕ) (v : Env) (head : Option ℕ) (i n : ℕ)
    → j < i
    → Chain envs head (count_up i n)
    → Chain (update envs j v) head (count_up i n)
Chain-below envs j v head i zero lt c = c
Chain-below envs j v head i (suc n) lt c =
    let apart : (i == j) ≡ false = ground arith in
    (c.0, rw apart (Chain-below envs j v (envs i).env_link (suc i) n (omega arith) c.1))

-- What the rounds for i = n - 1, …, 0 leave behind.
record IsReset (n m : ℕ) (k k' : Kernel) : Type 0 where
  chain : Chain k'.envs k'.env_free_list (count_up 0 (n + m))
  ids : (i : ℕ) → i < n → (k'.envs i).env_id ≡ 0
  above : (i : ℕ) → n ≤ i → k'.envs i ≡ k.envs i
  statuses : (i : ℕ) → (k'.envs i).env_status ≡ (k.envs i).env_status

env_init_loop-IsReset :
    (n m : ℕ) (k : Kernel)
    → Chain k.envs k.env_free_list (count_up n m)
    → IsReset n m k (env_init_loop n k)
unfolding env_init_loop env_init_at
env_init_loop-IsReset zero m k c = record {
  chain = let e : 0 + m ≡ m = omega arith in rw e c;
  ids = λ i h. elim h [ ];
  above = λ i h. refl;
  statuses = λ i. refl;
}
env_init_loop-IsReset (suc n) m k c =
    let r =
      env_init_loop-IsReset n (suc m) (env_init_at n k)
        (refl, rw (==_refl n) (Chain-below k.envs n _ k.env_free_list (suc n) m (omega arith) c)) in
    record {
      chain = let e : suc n + m ≡ n + suc m = omega arith in rw e r.chain;
      ids = λ i h. ground (arith, r.ids i, r.above i);
      above = λ i h. ground (arith, r.above i);
      statuses = λ i. ground (arith, r.statuses i);
    }

-- env_init puts every environment in the free list, in the order of the array, and resets its
-- identifier. The statuses stay as they were.
pub env_init_lem :
    (k : Kernel)
    → Chain (env_init k).envs (env_init k).env_free_list (count_up 0 nenv)
      × ((i : ℕ) → i < nenv → ((env_init k).envs i).env_id ≡ 0)
      × ((i : ℕ) → ((env_init k).envs i).env_status ≡ (k.envs i).env_status)
unfolding env_init
env_init_lem k =
    let r = env_init_loop-IsReset nenv 0 (record k { env_free_list = none }) refl in
    (r.chain, r.ids, r.statuses)
