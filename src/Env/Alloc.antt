-- ===== src/Env/Alloc.antt =====
-- Identifiers of environments: env_alloc makes fresh ones, and envid2env takes only the live one.
use pmake_os.Base.{
  ℕ, ◌+◌, ◌-◌, ◌*◌, ◌/◌, ◌%◌, ◌^◌, ◌≤◌, ◌<◌, ◌≡◌, refl, ap, ◌≢◌, ◌⊎◌, inl, inr, ◌∙◌, Bool, true,
  false, none, some, List, [], ◌∷◌, arith, bit_or, Option-cases, update,
}
use pmake_os.Base.Bits.{bit_or-disjoint}
use pmake_os.Kernel.{Kernel, env_runnable, env_type_user, is_free}
use pmake_os.Kernel.Run.{ok}
use pmake_os.Pmap.Paging.{slot, store}
use pmake_os.Pmap.Paging.Walk.{page_incref-first}
use pmake_os.Kernel.Ret.{got, fail, e_bad_env, e_no_mem, e_no_free_env}
use pmake_os.Mmu.{pte_p, pte_u, pdx, uvpt, test}
use pmake_os.Pmap.Alloc.{page2pa}
use pmake_os.Pmap.Alloc.FreeList.{
  has, Fits, IsFreeList, taken, page_alloc-some, page_alloc-empty, page2kva_lem, update-IsFreeList,
  taken-IsFreeList,
}
use pmake_os.Env.{
  envx, envid2env, env_setup_vm, next_generation, next_id, commit_env, env_alloc, user_tf, set_env,
}

generation_facts :
    (id : ℕ)
    → id < 2 ^ 31
    → (next_generation id % 1024 ≡ 0)
      × (4096 ≤ next_generation id)
      × (next_generation id < 2 ^ 31)
      × (next_generation id ≢ id - id % 1024)
unfolding next_generation
generation_facts id h = ground arith

next_id-sum : (id e : ℕ) → id < 2 ^ 31 → e < 1024 → next_id id e ≡ next_generation id + e
unfolding next_id
next_id-sum id e h he =
    let f = generation_facts id h in
    let g = next_generation id in
    let whole : g ≡ g / 1024 * 2 ^ 10 = omega (arith, f) in
    ap (λ (t : ℕ). bit_or t e) whole ∙ bit_or-disjoint 10 (g / 1024) e he ∙ omega arith

-- The next identifier of a slot names the slot, is positive as a signed number, and differs from
-- the slot's last identifier.
pub next_id_lem :
    (id e : ℕ)
    → id < 2 ^ 31
    → e < 1024
    → (envx (next_id id e) ≡ e) × (0 < next_id id e) × (next_id id e < 2 ^ 31) × (next_id id e ≢ id)
unfolding envx
next_id_lem id e h he = omega (arith, next_id-sum id e h he, generation_facts id h)

caller :
    (envid e : ℕ) (k k' : Kernel)
    → envid ≢ 0
    → envid2env envid true k ≡ ok (got (some e)) k'
    → (c : ℕ) × (k.curenv ≡ some c) × ((c ≡ e) ⊎ ((k.envs e).env_parent_id ≡ (k.envs c).env_id))
unfolding envid2env
caller envid e k k' nz h = elim (Option-cases k.curenv) [
  | inl idle ↦ absurd (ground arith)
  | inr (c, run) ↦ (c, run, ground arith)
]

-- What envid2env hands out for an identifier that is not 0: the slot that the identifier names, if
-- it is in use under just this identifier; under `checkperm` only the caller itself or a child of
-- the caller. Nothing changes.
envid2env_sound :
    (envid e : ℕ) (checkperm : Bool) (k k' : Kernel)
    → envid ≢ 0
    → envid2env envid checkperm k ≡ ok (got (some e)) k'
    → (k' ≡ k)
      × (e ≡ envx envid)
      × ((k.envs e).env_id ≡ envid)
      × (is_free (k.envs e).env_status ≡ false)
      × (checkperm ≡ true
          → (c : ℕ) × (k.curenv ≡ some c)
            × ((c ≡ e) ⊎ ((k.envs e).env_parent_id ≡ (k.envs c).env_id)))
unfolding envid2env
envid2env_sound envid e checkperm k k' nz h = (
  ground arith,
  ground arith,
  ground arith,
  ground arith,
  λ checked. caller envid e k k' nz (rw checked at h),
)

-- env_alloc with no free environment, or with no free page, reports the error and changes nothing.
pub env_alloc-fails :
    (parent : ℕ) (k : Kernel)
    → (k.env_free_list ≡ none → env_alloc parent k ≡ ok (fail e_no_free_env) k)
      × ((e : ℕ)
          → k.env_free_list ≡ some e
          → IsFreeList k []
          → env_alloc parent k ≡ ok (fail e_no_mem) k)
unfolding env_alloc env_setup_vm
env_alloc-fails parent k =
    (λ empty. ground arith, λ e head l. ground (arith, page_alloc-empty 1 k l))

-- The state k' is k with the environment `e` allocated: its fields are set, its directory is a copy
-- of the kernel's but for the entry at UVPT, which maps the directory itself for reading, and the
-- page `x` that holds it is counted once. No other environment, page or memory changed.
pub record IsAllocated (e x parent : ℕ) (xs : List ℕ) (k k' : Kernel) : Type 0 where
  pub status : (k'.envs e).env_status ≡ env_runnable
  pub id : (k'.envs e).env_id ≡ next_id (k.envs e).env_id e
  pub parent_id : (k'.envs e).env_parent_id ≡ parent
  pub pgdir : (k'.envs e).env_pgdir ≡ some x
  pub tf : (k'.envs e).env_tf ≡ user_tf
  pub handler : (k'.envs e).env_pgfault_upcall ≡ 0
  pub not_receiving : (k'.envs e).env_ipc_recving ≡ false
  pub next : k'.env_free_list ≡ (k.envs e).env_link
  pub copied : (i : ℕ) → i ≢ pdx uvpt → k'.word x i ≡ k.word k.kern_pgdir i
  pub itself : k'.word x (pdx uvpt) ≡ bit_or (bit_or (page2pa x) pte_p) pte_u
  pub count : (k'.pages x).pp_ref ≡ 1
  pub list : IsFreeList k' xs
  pub other_envs : (j : ℕ) → j ≢ e → k'.envs j ≡ k.envs j
  pub other_pages : (p : ℕ) → p ≢ x → (k'.pages p ≡ k.pages p) × (k'.word p ≡ k.word p)

module _ (parent e x : ℕ) (xs : List ℕ) (k : Kernel) (fits : Fits k)
    (l : IsFreeList k (x ∷ xs)) where
  -- The directory's page, counted once.
  abbrev counted_page : Kernel
  counted_page = record (taken 1 x k) {
    pages = update (taken 1 x k).pages x (record { pp_link = none; pp_ref = 1 });
  }

  -- The state after env_setup_vm.
  abbrev with_pgdir : Kernel
  with_pgdir =
      let k3 = set_env e (record (k.envs e) { env_pgdir = some x }) counted_page in
      let k4 : Kernel = record k3 { word = update k3.word x (k3.word k3.kern_pgdir) } in
      store (slot x (pdx uvpt)) (bit_or (bit_or (page2pa x) pte_p) pte_u) k4

  -- The state after commit_env.
  abbrev committed : Kernel
  committed =
      let k6 =
        set_env e
          (record (with_pgdir.envs e) {
            env_tf = user_tf;
            env_id = next_id (with_pgdir.envs e).env_id e;
            env_parent_id = parent;
            env_type = env_type_user;
            env_status = env_runnable;
            env_runs = 0;
            env_pgfault_upcall = 0;
            env_ipc_recving = false;
          })
          with_pgdir in
      record k6 { env_free_list = (k6.envs e).env_link }

  env_setup_vm-with_pgdir : env_setup_vm e k ≡ ok (got tt) with_pgdir
  unfolding env_setup_vm
  env_setup_vm-with_pgdir =
      rw
        (
          page_alloc-some 1 x xs k fits l,
          page_incref-first x (taken 1 x k) (ground (arith, l.unused x)),
          page2kva_lem x counted_page fits (l.within x (ground arith)),
        )
        refl

  counted_page-IsFreeList : IsFreeList counted_page xs
  counted_page-IsFreeList =
      update-IsFreeList x (record { pp_link = none; pp_ref = 1 }) xs (taken 1 x k)
        (taken-IsFreeList 1 x xs k l) l.distinct.0 refl

  -- env_alloc with a free environment at the head of its list and a free page that is not the kernel's
  -- directory: it takes the environment from the list and returns it runnable with a new identifier, a
  -- fresh user frame, the parent given and no handler. The page becomes its directory, a copy of the
  -- kernel's but for the slot at UVPT, and no other environment, page or word changes.
  pub env_alloc-IsAllocated :
      k.env_free_list ≡ some e
      → has k.kern_pgdir (x ∷ xs) ≡ false
      → (k' : Kernel) × (env_alloc parent k ≡ ok (got e) k') × IsAllocated e x parent xs k k'
  unfolding env_alloc commit_env test
  env_alloc-IsAllocated head apart = (
    committed,
    ground (arith, env_setup_vm-with_pgdir),
    record {
      status = ground arith;
      id = ground arith;
      parent_id = ground arith;
      pgdir = ground arith;
      tf = ground arith;
      handler = ground arith;
      not_receiving = ground arith;
      next = ground arith;
      copied = λ i ne. ground arith;
      itself = ground arith;
      count = ground arith;
      list = counted_page-IsFreeList;
      other_envs = λ j ne. ground arith;
      other_pages = λ p ne. ground arith;
    },
  )

-- After env_alloc the new identifier names the new environment, and the identifier that the slot had
-- before names none.
pub envid2env-env_alloc :
    (parent e x : ℕ) (xs : List ℕ) (k : Kernel)
    → Fits k
    → IsFreeList k (x ∷ xs)
    → k.env_free_list ≡ some e
    → has k.kern_pgdir (x ∷ xs) ≡ false
    → e < 1024
    → (k.envs e).env_id < 2 ^ 31
    → (k' : Kernel) × (env_alloc parent k ≡ ok (got e) k')
      × (envid2env (k'.envs e).env_id false k' ≡ ok (got (some e)) k')
      × ((k.envs e).env_id ≢ 0
          → envx (k.envs e).env_id ≡ e
          → envid2env (k.envs e).env_id false k' ≡ ok (fail e_bad_env) k')
unfolding envid2env
envid2env-env_alloc parent e x xs k fits l head apart small old =
    let (k', ran, a) = env_alloc-IsAllocated parent e x xs k fits l head apart in
    let f = next_id_lem (k.envs e).env_id e old small in
    (k', ran, ground (arith, a.id, a.status, f), λ nz slot_of. ground (arith, a.id, a.status, f))
