-- ===== src/EndpointSet/Search.antt =====
-- The binary search of `WeightSearch`, against a walk along the table.
use mathlib.Core.Bool.{false≢true}
use nodemux.Common.{
  ℕ, zero, suc, ◌+◌, ◌/◌, ◌≤◌, ◌<◌, String, Bool, true, false, Option, none, some, List, [], ◌∷◌,
  ltb, if◌then◌else◌, ℤ, pos, ltb_ℤ, ◌<ℤ◌, length, get_elem?, ◌≡◌, refl, inl, inr, Bool-cases,
  arith, dec_lt, subst, sym, ◌∙◌,
}
use nodemux.EndpointSet.{Weight, EndpointSet, search, exceeds, weight_search}

-- `r` is the least index of `i ... j` at which the test holds, and `j` if it holds nowhere.
pub record IsLeast (f : ℕ → Bool) (i j r : ℕ) : Type 0 where
  pub from : i ≤ r
  pub to : r ≤ j
  pub below : (k : ℕ) → i ≤ k → k < r → f k ≡ false
  pub holds : r < j → f r ≡ true

-- A test that stays true once it is true, up to `n`.
abbrev pub IsUpward : (ℕ → Bool) → ℕ → Type 0
IsUpward f n = (k l : ℕ) → k ≤ l → l < n → f k ≡ true → f l ≡ true

IsLeast-lower :
    (f : ℕ → Bool) (i m j r : ℕ) → m < j → f m ≡ true → IsLeast f i m r → IsLeast f i j r
IsLeast-lower f i m j r h t v = record {
  from = v.from;
  to = omega (arith, v.to);
  below = v.below;
  holds = λ p. elim (dec_lt r m) [
    | yes q ↦ v.holds q
    | no q ↦ subst (λ k. f k ≡ true) (omega (arith, v.to)) t
  ];
}

IsLeast-upper :
    (f : ℕ → Bool) (i m j r : ℕ)
    → i ≤ m
    → m < j
    → f m ≡ false
    → IsUpward f j
    → IsLeast f (m + 1) j r
    → IsLeast f i j r
IsLeast-upper f i m j r h h' t up v = record {
  from = omega (arith, v.from);
  to = v.to;
  below = λ k p q. elim (Bool-cases (f k)) [
    | inr e ↦ e
    | inl e ↦ elim (dec_lt m k) [
      | yes g ↦ v.below k (omega arith) q
      | no g ↦ absurd (false≢true (sym t ∙ up k m (omega arith) h' e))
    ]
  ];
  holds = v.holds;
}

-- On a test that stays true once it is true, the loop finds the least index from `i` to `j` at which
-- it holds, and `j` if there is none; `j - i` rounds are enough.
pub search-IsLeast :
    (f : ℕ → Bool) (fuel i j : ℕ)
    → i ≤ j
    → j ≤ i + fuel
    → IsUpward f j
    → IsLeast f i j (search f fuel i j)
unfolding search
search-IsLeast f zero i j h e up = record {
  from = omega arith;
  to = omega arith;
  below = λ k p q. absurd (omega arith);
  holds = λ p. absurd (omega arith);
}
search-IsLeast f (suc fuel) i j h e up = elim (Bool-cases (ltb i j)) [
  | inr stop ↦
      rw (stop, search)
        (record {
          from = omega arith;
          to = h;
          below = λ k p q. absurd (omega arith);
          holds = λ p. absurd (ground arith);
        })
  | inl more ↦
      let m : ℕ = (i + j) / 2 in
      let q : i < j = ground arith in
      let low : i ≤ m = omega arith in
      let high : m < j = omega arith in
      elim (Bool-cases (f m)) [
        | inl hit ↦
            rw (more, hit, search)
              (IsLeast-lower f i m j (search f fuel i m) high hit (
                search-IsLeast f fuel i m low (omega arith)
                  (λ k l p p' t. up k l p (omega arith) t)))
        | inr miss ↦
            rw (more, miss, search)
              (IsLeast-upper f i m j (search f fuel (m + 1) j) low high miss up (
                search-IsLeast f fuel (m + 1) j (omega arith) (omega arith)
                  (λ k l p p' t. up k l p p' t)))
      ]
]

-- The first entry whose aggregate lies above `w`.
unfoldable pub first_above : List Weight → ℤ → Option String
first_above [] w = none
first_above (x ∷ xs) w = if ltb_ℤ w x.aggregate_value then some x.ep_name else first_above xs w

-- The aggregates rise strictly, from above `b`.
abbrev pub Rises : ℤ → List Weight → Type 0
Rises b [] = Unit {0}
Rises b (x ∷ xs) = (b <ℤ x.aggregate_value) × Rises x.aggregate_value xs

exceeds_later :
    (ws : List Weight) (b w : ℤ) (l : ℕ)
    → Rises b ws
    → w <ℤ b
    → l < length ws
    → exceeds ws w l ≡ true
unfolding exceeds
exceeds_later [] b w l r h q = absurd (omega arith)
exceeds_later (x ∷ xs) b w zero r h q = ground arith
exceeds_later (x ∷ xs) b w (suc l) r h q =
    exceeds_later xs x.aggregate_value w l r.1 (omega arith) (omega arith)

exceeds-IsUpward : (ws : List Weight) (b w : ℤ) → Rises b ws → IsUpward (exceeds ws w) (length ws)
unfolding exceeds
exceeds-IsUpward [] b w r k l p q h = absurd (omega arith)
exceeds-IsUpward (x ∷ xs) b w r zero zero p q h = h
exceeds-IsUpward (x ∷ xs) b w r zero (suc l) p q h =
    exceeds_later xs x.aggregate_value w l r.1 (ground arith) (omega arith)
exceeds-IsUpward (x ∷ xs) b w r (suc k) zero p q h = absurd (omega arith)
exceeds-IsUpward (x ∷ xs) b w r (suc k) (suc l) p q h =
    exceeds-IsUpward xs x.aggregate_value w r.1 k l (omega arith) (omega arith) h

-- The entry at the least index whose test holds is the first such entry.
at-first_above :
    (ws : List Weight) (w : ℤ) (r : ℕ)
    → ((k : ℕ) → k < r → exceeds ws w k ≡ false)
    → (r < length ws → exceeds ws w r ≡ true)
    → (elim (get_elem? ws r) [ none ↦ none | some weight ↦ some weight.ep_name ]) ≡ first_above ws w
unfolding exceeds first_above
at-first_above [] w r below holds = refl
at-first_above (x ∷ xs) w zero below holds = ground (arith, holds (omega arith))
at-first_above (x ∷ xs) w (suc r) below holds =
    let miss : ltb_ℤ w x.aggregate_value ≡ false = below 0 (omega arith) in
    rw miss (at-first_above xs w r (λ k p. below (suc k) (omega arith)) (λ p. holds (omega arith)))

-- On a rising table of positive aggregates `WeightSearch` returns the first entry above `w`, and
-- nothing for a negative `w`.
pub weight_search-first_above :
    (epset : EndpointSet) (w : ℤ)
    → Rises (pos 0) epset.weights
    → weight_search epset w ≡ (if ltb_ℤ w (pos 0) then none else first_above epset.weights w)
unfolding weight_search
weight_search-first_above epset w r =
    let least =
      search-IsLeast (exceeds epset.weights w) (length epset.weights) 0 (length epset.weights)
        (omega arith) (omega arith) (exceeds-IsUpward epset.weights (pos 0) w r) in
    rw (at-first_above epset.weights w _ (λ k p. least.below k (omega arith) p) least.holds) refl

pub weight_search-pos :
    (epset : EndpointSet) (w : ℕ)
    → Rises (pos 0) epset.weights
    → weight_search epset (pos w) ≡ first_above epset.weights (pos w)
weight_search-pos epset w r =
    let nonneg : ltb_ℤ (pos w) (pos 0) ≡ false = ground arith in
    weight_search-first_above epset (pos w) r ∙ rw nonneg refl
