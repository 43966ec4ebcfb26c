-- ===== src/Printf/Fuel.antt =====
-- The main loop of vprintfmt ends: fuel above the length of the format suffices.
use pmake_os.Base.{ℕ, ◌≤◌, ◌≡◌, Option, List, length}
use pmake_os.Printf.{Arg}

-- Two ways to print the rest that agree on shorter formats.
abbrev Agree :
    (List ℕ → List Arg → Option (List ℕ)) → (List ℕ → List Arg → Option (List ℕ)) → ℕ → Type 0
Agree f g n = (ds : List ℕ) (args : List Arg) → length ds ≤ n → f ds args ≡ g ds args
