-- ===== src/User/Fork/Cow.antt =====
-- The page tables of parent and child after the loop of fork.
use pmake_os.Base.{ℕ, ◌+◌, ◌*◌, ◌≤◌, ◌<◌, ◌≡◌, ◌≢◌, ◌⊎◌, true, false, ◌&&◌}
use pmake_os.Mmu.{ustacktop}
use pmake_os.Kernel.Ret.{Error, err}
use pmake_os.User.{returns, panics, Sys}
use pmake_os.User.Fork.{Globals, duppage}
use pmake_os.User.Fork.Entries.{cow, IsKernel, is_copied, is_private, own_after, child_after}

-- What the child's entry becomes for the parent's entry and its own before: the copy, or, for a page that
-- both may go on sharing as it is, what it was.
abbrev pub IsCopy : ℕ → ℕ → ℕ → Type 0
IsCopy w old new =
    (new ≡ child_after w old) ⊎ ((new ≡ old) × ((is_copied w && is_private w) ≡ false))

module _ {S : Type 0} (sys : Sys S) (globals : S → Globals) (set_globals : Globals → S → S)
    (pte : S → ℕ → ℕ → ℕ) (child : ℕ) (a : IsKernel sys pte child) where
  -- The entries of s' are those of s but for the page p, which has been copied.
  record IsDup (p : ℕ) (s s' : S) : Type 0 where
    mine : pte s' 0 p ≡ own_after (pte s 0 p)
    its : IsCopy (pte s 0 p) (pte s child p) (pte s' child p)
    elsewhere : (e q : ℕ) → (q ≢ p) ⊎ ((e ≢ 0) × (e ≢ child)) → pte s' e q ≡ pte s e q

  -- sys_page_map refused to make a page copy-on-write.
  abbrev pub IsRefused : Type 0
  IsRefused =
      (s : S) × (q : ℕ) × (dst : ℕ) × (x : Error) × ((sys.sys_page_map 0 (q * 4096) dst (q * 4096)
          cow s).0
        ≡ err x)

  module _ (p : ℕ) (s : S) (low : p * 4096 < ustacktop)
      (copied : is_copied (pte s 0 p) ≡ true) where
    abbrev w : ℕ
    w = pte s 0 p

    abbrev Duppage : Type 0
    Duppage =
        ((duppage sys globals set_globals child p s ≡ panics) × IsRefused)
        ⊎ ((s' : S) × (duppage sys globals set_globals child p s ≡ returns tt s') × IsDup p s s')

  -- The entries of s' are those of s but for the n pages from p on, which have been copied.
  pub record IsForked (n p : ℕ) (s s' : S) : Type 0 where
    pub mine : (q : ℕ) → p ≤ q → q < p + n → pte s' 0 q ≡ own_after (pte s 0 q)
    pub its : (q : ℕ) → p ≤ q → q < p + n → IsCopy (pte s 0 q) (pte s child q) (pte s' child q)
    pub elsewhere :
        (e q : ℕ) → (q < p) ⊎ ((p + n ≤ q) ⊎ ((e ≢ 0) × (e ≢ child))) → pte s' e q ≡ pte s e q
