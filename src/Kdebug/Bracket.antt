-- ===== src/Kdebug/Bracket.antt =====
-- stab_binsearch of kern/kdebug.c brackets the address.
use pmake_os.Base.{
  ℕ, zero, suc, ◌+◌, ◌-◌, ◌/◌, ◌^◌, ◌≤◌, ◌<◌, ◌≡◌, refl, sym, ap, subst, ◌≢◌, ◌⊎◌, inl, inr, true,
  false, none, some, arith, leb, ltb, ◌==◌, if◌then◌else◌, Bool-cases, Option-cases,
}
use pmake_os.Kdebug.{
  Stab, Bounds, find_back, round_at, search_round, search_loop, rightmost, search_end, end_of,
  stab_binsearch,
}
use pmake_os.Kdebug.Scan.{find_back-last, find_back-none, rightmost-last}

module _ (stabs : ℕ → Stab) (type left right a : ℕ) where
  -- A stab of the type in the range.
  abbrev pub IsMatch : ℕ → Type 0
  IsMatch i = (left ≤ i) × (i < right) × ((stabs i).n_type ≡ type)

  abbrev pub IsSorted : Type 0
  IsSorted = (i j : ℕ) → IsMatch i → IsMatch j → i ≤ j → (stabs i).n_value ≤ (stabs j).n_value

  -- What holds at the head of the main loop.
  record IsBounded (s : Bounds) : Type 0 where
    low : left ≤ s.l
    high : s.right1 ≤ right
    below : (i : ℕ) → IsMatch i → i < s.l → (stabs i).n_value ≤ a
    above : (i : ℕ) → IsMatch i → s.right1 ≤ i → a < (stabs i).n_value
    hit : (s.left1 ≡ left + 1) ⊎ ((j : ℕ) × (s.left1 ≡ suc j) × IsMatch j × ((stabs j).n_value ≤ a))
    edge : (s.right1 ≡ right) ⊎ IsMatch s.right1
    seen :
        s.any_matches ≡ false
        → (s.right1 ≡ right) × (s.left1 ≡ left + 1) × ((i : ℕ) → i < s.l → IsMatch i → ⊥)
    found : s.any_matches ≡ true → (i : ℕ) × IsMatch i
    target : (s.addr ≡ a) ⊎ (s.addr ≡ a + 1)

  module _ (sorted : IsSorted) (apart : (i : ℕ) → IsMatch i → (stabs i).n_value ≢ a + 1)
      (small : a + 1 < 2 ^ 32) where
    -- The number of rounds that are left at most.
    abbrev rounds : Bounds → ℕ
    rounds s = s.right1 - s.l + (if s.addr == a then 1 else 0)

    module _ (s : Bounds) (b : IsBounded s) (go : s.l < s.right1) where
      abbrev true_m : ℕ
      true_m = (s.l + (s.right1 - 1)) / 2

      abbrev IsStep : Bounds → Type 0
      IsStep s' = IsBounded s' × (rounds s' < rounds s)

      round_at-none-IsStep :
          find_back stabs type s.l (true_m + 1 - s.l) ≡ none → IsStep (round_at stabs s true_m none)
      unfolding round_at
      round_at-none-IsStep absent =
          let away = find_back-none stabs type s.l (true_m + 1 - s.l) absent in
          let gone : (i : ℕ) → IsMatch i → i < true_m + 1 → i < s.l = λ i m lt.
            elim (Bool-cases (ltb i s.l)) [
              | inl p ↦ ground arith
              | inr q ↦ absurd (away i (ground arith) (omega arith) m.2)
            ] in
          (
            record {
              low = omega (arith, b.low);
              high = b.high;
              below = λ i m lt. b.below i m (gone i m lt);
              above = b.above;
              hit = b.hit;
              edge = b.edge;
              seen = λ none_seen.
                  let (x, y, z) = b.seen none_seen in (x, y, λ i lt m. z i (gone i m lt) m);
              found = b.found;
              target = b.target;
            },
            ground arith,
          )

      module _ (m : ℕ) (at : find_back stabs type s.l (true_m + 1 - s.l) ≡ some m) where
        f :
            (s.l ≤ m)
            × (m < s.l + (true_m + 1 - s.l))
            × ((stabs m).n_type ≡ type)
            × ((i : ℕ) → m < i → i < s.l + (true_m + 1 - s.l) → (stabs i).n_type ≢ type)
        f = find_back-last stabs type s.l (true_m + 1 - s.l) m at

        matches : IsMatch m
        matches = (omega (arith, b.low, f.0), omega (arith, b.high, f.1), f.2)

        -- The stabs of the type up to true_m are those up to m.
        upto : (i : ℕ) → IsMatch i → i < true_m + 1 → i ≤ m
        upto i mi lt = elim (Bool-cases (leb i m)) [
          | inl p ↦ ground arith
          | inr q ↦ absurd (f.3 i (ground arith) (omega (arith, f.0)) mi.2)
        ]

        round_at-some-IsStep : IsStep (round_at stabs s true_m (some m))
        unfolding round_at
        round_at-some-IsStep = elim (Bool-cases (ltb (stabs m).n_value s.addr)) [
          | inl lt ↦
              let value : (stabs m).n_value ≤ a = elim b.target [
                | inl e ↦ ground arith
                | inr e ↦ ground arith
              ] in
              rw lt (
                record {
                  low = omega (arith, b.low);
                  high = b.high;
                  below = λ i mi li. omega (arith, value, sorted i m mi matches (upto i mi li));
                  above = b.above;
                  hit = inr (m, omega arith, matches, value);
                  edge = b.edge;
                  seen = λ e. absurd (ground arith);
                  found = λ e. (m, matches);
                  target = b.target;
                },
                ground arith,
              )
          | inr ge ↦ elim (Bool-cases (ltb s.addr (stabs m).n_value)) [
            | inl gt ↦
                rw (ge, gt)
                  (
                    record {
                      low = b.low;
                      high = omega (arith, matches.1);
                      below = b.below;
                      above = λ i mi mle.
                          let up = sorted m i matches mi mle in
                          elim b.target [ inl e ↦ ground arith | inr e ↦ ground arith ];
                      hit = b.hit;
                      edge = inr matches;
                      seen = λ e. absurd (ground arith);
                      found = λ e. (m, matches);
                      target = b.target;
                    },
                    ground (arith, f.0, f.1),
                  )
            | inr le ↦
                let exact : s.addr ≡ a = elim b.target [
                  | inl e ↦ e
                  | inr e ↦ absurd (apart m matches (ground arith))
                ] in
                let value : (stabs m).n_value ≡ a = ground arith in
                rw (ge, le)
                  (
                    record {
                      low = omega (arith, b.low, f.0);
                      high = b.high;
                      below = λ i mi li. omega (arith, value, sorted i m mi matches (omega arith));
                      above = b.above;
                      hit = inr (m, omega arith, matches, omega (arith, value));
                      edge = b.edge;
                      seen = λ e. absurd (ground arith);
                      found = λ e. (m, matches);
                      target = inr (omega arith);
                    },
                    ground (arith, f.0, f.1),
                  )
          ]
        ]

    round_step :
        (s : Bounds)
        → IsBounded s
        → s.l < s.right1
        → IsBounded (search_round stabs type s) × (rounds (search_round stabs type s) < rounds s)
    unfolding search_round
    round_step s b go = elim (Option-cases (find_back stabs type s.l (true_m s b go + 1 - s.l))) [
      | inl e ↦
          subst (λ o. IsStep s b go (round_at stabs s (true_m s b go) o)) (sym e)
            (round_at-none-IsStep s b go e)
      | inr (m, e) ↦
          subst (λ o. IsStep s b go (round_at stabs s (true_m s b go) o)) (sym e)
            (round_at-some-IsStep s b go m e)
    ]

    search_loop-IsBounded :
        (fuel : ℕ) (s : Bounds)
        → IsBounded s
        → rounds s ≤ fuel
        → (s' : Bounds) × (search_loop stabs type fuel s ≡ some s')
          × IsBounded s'
          × (s'.right1 ≤ s'.l)
    unfolding search_loop
    search_loop-IsBounded zero s b enough =
        let over : ltb s.l s.right1 ≡ false = ground arith in (s, rw over refl, b, ground arith)
    search_loop-IsBounded (suc fuel) s b enough = elim (Bool-cases (ltb s.l s.right1)) [
      | inl go ↦
          let (b', less) = round_step s b (ground arith) in
          let (s', ran, b'', over) =
            search_loop-IsBounded fuel (search_round stabs type s) b' (omega (arith, less)) in
          (s', rw go ran, b'', over)
      | inr over ↦ (s, rw over refl, b, ground arith)
    ]

  -- The new bounds. Without a match the range is empty. Otherwise the matches in front of `right1` are
  -- those at or below the address, the last of them is the new left end, and `right1` is the old end
  -- or a match.
  pub record IsBracket (left1 right1 : ℕ) : Type 0 where
    pub empty : ((i : ℕ) → IsMatch i → ⊥) → (left1 ≡ left + 1) × (right1 ≡ left)
    pub above : (i : ℕ) → IsMatch i → right1 ≤ i → a < (stabs i).n_value
    pub below : (i : ℕ) → IsMatch i → i < right1 → (stabs i).n_value ≤ a
    pub nearest :
        (i : ℕ)
        → IsMatch i
        → i < right1
        → (j : ℕ) × (left1 ≡ suc j) × IsMatch j × (i ≤ j) × (j < right1)
    pub edge : (i : ℕ) → IsMatch i → (right1 ≡ right) ⊎ IsMatch right1

  module _ (s : Bounds) (b : IsBounded s) (over : s.right1 ≤ s.l) where
    abbrev result : ℕ
    result = rightmost stabs type s.left1 s.right1

    nearest_lem :
        (i : ℕ)
        → IsMatch i
        → i < s.right1
        → (j : ℕ) × (result ≡ suc j) × IsMatch j × (i ≤ j) × (j < s.right1)
    nearest_lem i m lt =
        let (x, y, z, w) = rightmost-last stabs type s.left1 s.right1 in
        let inside : i < result = elim (Bool-cases (ltb i result)) [
          | inl p ↦ ground arith
          | inr q ↦ absurd (w i (ground arith) lt m.2)
        ] in
        elim z [
          | inl small ↦ elim b.hit [
            | inl first ↦ (
              left,
              omega (arith, m.0),
              (let e : i ≡ left = omega (arith, m.0) in subst IsMatch e m),
              omega (arith, m.0),
              omega (arith, m.0),
            )
            | inr (j, at, mj, vj) ↦
                let before : j < s.right1 = elim (Bool-cases (ltb j s.right1)) [
                  | inl p ↦ ground arith
                  | inr q ↦ absurd (let no = b.above j mj (ground arith) in omega arith)
                ] in
                let same : result ≡ suc j = elim y [ inl q ↦ omega arith | inr q ↦ omega arith ] in
                (j, same, mj, omega arith, before)
          ]
          | inr (j, at, tj) ↦
              let low : left ≤ j = omega (arith, m.0) in
              (j, at, (low, omega (arith, b.high), tj), omega arith, omega arith)
        ]

    search_end-IsBracket : IsBracket (search_end stabs type s).0 (search_end stabs type s).1
    unfolding search_end
    search_end-IsBracket = elim (Bool-cases s.any_matches) [
      | inl some_match ↦ rw some_match record {
        empty = λ no_match. absurd (let (i, m) = b.found some_match in no_match i m);
        above = b.above;
        below = λ i m lt. b.below i m (omega arith);
        nearest = nearest_lem;
        edge = λ i m. b.edge;
      }
      | inr no_match ↦
          let (x, y, z) = b.seen no_match in
          let none_there : (i : ℕ) → IsMatch i → ⊥ = λ i m. z i (omega (arith, m.1)) m in
          rw no_match record {
            empty = λ _. (y, omega arith);
            above = λ i m le. absurd (none_there i m);
            below = λ i m lt. absurd (none_there i m);
            nearest = λ i m lt. absurd (none_there i m);
            edge = λ i m. absurd (none_there i m);
          }
    ]

-- stab_binsearch of stabs of the type that are sorted in the range, where none has the value `addr + 1`
-- and the address is not the last one: the loop ends, and the new bounds bracket the address.
pub stab_binsearch-IsBracket :
    (stabs : ℕ → Stab) (left right1 type addr : ℕ)
    → IsSorted stabs type left right1 addr
    → ((i : ℕ) → IsMatch stabs type left right1 addr i → (stabs i).n_value ≢ addr + 1)
    → addr + 1 < 2 ^ 32
    → (l1 r1 : ℕ) × (stab_binsearch stabs left right1 type addr ≡ some (l1, r1))
      × IsBracket stabs type left right1 addr l1 r1
unfolding stab_binsearch
stab_binsearch-IsBracket stabs left right1 type addr sorted apart small =
    let start : Bounds = record {
      l = left;
      left1 = left + 1;
      right1 = right1;
      any_matches = false;
      addr = addr;
    } in
    let (s, ran, b, over) =
      search_loop-IsBounded stabs type left right1 addr sorted apart small (right1 - left + 1) start
        record {
          low = omega arith;
          high = omega arith;
          below = λ i m lt. absurd (omega (arith, m.0));
          above = λ i m le. absurd (omega (arith, m.1));
          hit = inl refl;
          edge = inl refl;
          seen = λ _. (refl, refl, λ i lt m. omega (arith, m.0));
          found = λ e. absurd (ground arith);
          target = inl refl;
        }
        (ground arith) in
    (
      (search_end stabs type s).0,
      (search_end stabs type s).1,
      ap (end_of stabs type) ran,
      search_end-IsBracket stabs type left right1 addr s b over,
    )
