-- ===== src/Printf/Text.antt =====
-- What vprintfmt puts for plain text and for a decimal number.
use pmake_os.Base.{
  ℕ, suc, ◌+◌, ◌^◌, ◌<◌, ◌≡◌, refl, sym, ap, ◌∙◌, ◌≢◌, Option, none, some, List, [], ◌∷◌, ◌++◌, All,
  arith, length, ne→==, lt→ltb,
}
use pmake_os.Number.{printnum, strtol_digits}
use pmake_os.Number.Decimal.{strtol_digits-printnum}
use pmake_os.Printf.{
  Arg, int, prepend, flag_first, flag_step, flags, put_number, getint, convert, put_escape,
  vprintfmt,
}

prepend-cons :
    (c : ℕ) (cs : List ℕ) (o : Option (List ℕ))
    → prepend (c ∷ []) (prepend cs o) ≡ prepend (c ∷ cs) o
prepend-cons c cs none = refl
prepend-cons c cs (some ds) = refl

prepend-nil : (o : Option (List ℕ)) → prepend [] o ≡ o
prepend-nil none = refl
prepend-nil (some ds) = refl

vprintfmt-char :
    (c fuel : ℕ) (cs : List ℕ) (args : List Arg)
    → c ≢ 37
    → vprintfmt (suc fuel) (c ∷ cs) args ≡ prepend (c ∷ []) (vprintfmt fuel cs args)
unfolding vprintfmt
vprintfmt-char c fuel cs args ne = rw (ne→== c 37 ne) refl

vprintfmt-text :
    (text rest : List ℕ) (fuel : ℕ) (args : List Arg)
    → All (λ c. c ≢ 37) text
    → vprintfmt (length text + fuel) (text ++ rest) args ≡ prepend text (vprintfmt fuel rest args)
vprintfmt-text [] rest fuel args tt =
    let same : 0 + fuel ≡ fuel = omega arith in
    ap (λ (f : ℕ). vprintfmt f rest args) same ∙ sym (prepend-nil (vprintfmt fuel rest args))
vprintfmt-text (c ∷ cs) rest fuel args (ne, more) =
    let next : suc (length cs) + fuel ≡ suc (length cs + fuel) = omega arith in
    ap (λ (f : ℕ). vprintfmt f (c ∷ cs ++ rest) args) next
    ∙ vprintfmt-char c (length cs + fuel) (cs ++ rest) args ne
    ∙ ap (prepend (c ∷ [])) (vprintfmt-text cs rest fuel args more)
    ∙ prepend-cons c cs (vprintfmt fuel rest args)

decimal_lem :
    (v : ℕ) (cs : List ℕ)
    → v < 2 ^ 31
    → printnum (v + 1) v 10 0 32 ≡ some cs
    → vprintfmt 2 (37 ∷ 100 ∷ []) (int v ∷ []) ≡ some (cs ++ [])
unfolding vprintfmt put_escape convert getint put_number flags flag_step flag_first
decimal_lem v cs small printed = let low = lt→ltb v (2 ^ 31) small in rw (low, printed) refl

append_nil : (cs : List ℕ) → cs ++ [] ≡ cs
append_nil [] = refl
append_nil (c ∷ cs) = ap (λ (t : List ℕ). c ∷ t) (append_nil cs)

-- A format of plain text and `%d`, with an argument that is not negative: vprintfmt puts the text and
-- digits from which the loop of strtol reads the number back.
pub vprintfmt-decimal :
    (text : List ℕ) (v : ℕ)
    → All (λ c. c ≢ 37) text
    → v < 2 ^ 31
    → (cs : List ℕ) × (vprintfmt (length text + 2) (text ++ 37 ∷ 100 ∷ []) (int v ∷ [])
        ≡ some (text ++ cs))
      × ((rest : List ℕ) → strtol_digits 10 0 (cs ++ rest) ≡ strtol_digits 10 v rest)
vprintfmt-decimal text v no_escape small =
    let (cs, printed, back) =
      strtol_digits-printnum (v + 1) v 10 32 (omega arith) (omega arith) (omega arith)
        (omega arith) in
    (
      cs,
      vprintfmt-text text (37 ∷ 100 ∷ []) 2 (int v ∷ []) no_escape
          ∙ ap (prepend text)
              (decimal_lem v cs small printed ∙ ap (λ (t : List ℕ). some t) (append_nil cs)),
      back,
    )
