-- ===== src/Multiplexer/Choice.antt =====
-- The choice within one set: a weighted draw, and a walk where the drawn endpoint fails the test.
use mathlib.Core.List.{Permᴰ}
use mathlib.Core.Bool.{false≢true}
use nodemux.Common.{
  ℕ, ◌+◌, ◌≤◌, ◌<◌, ℤ, pos, negsuc, ltb_ℤ, ◌≤ℤ◌, ◌<ℤ◌, String, Bool, true, false, Option, none,
  some, List, [], ◌∷◌, All, Any, All-imp, Any-imp, All-perm, Any-perm, Any-All, lookup, max_int,
  String_discrete, ◌≡◌, refl, sym, ap, ◌∙◌, subst, ◌⊎◌, inl, inr, Bool-cases, Outcome, done, panic,
  last?, dec_lt, arith,
}
use nodemux.Chain.{ChainRef}
use nodemux.Endpoint.{Endpoint}
use nodemux.EndpointSet.{
  reset_weights, Heap, Entry, Weight, EndpointSet, weighted_random, weight_limit, weight_search,
  weights_over,
}
use nodemux.EndpointSet
use nodemux.EndpointSet.Search.{first_above, weight_search-pos}
use nodemux.EndpointSet.Draws.{weight_limit-reset_weights}
use nodemux.EndpointSet.Weights.{
  total-perm, table, total, healthy_share, share_pos, table-Rises, weights_over-table,
}
use nodemux.Multiplexer.{Runtime, IsGo, first_where, choose}
use nodemux.Multiplexer.Invariant.{Any-lookup, lookup-Any, SetInv, IsOwned}

-- The choice returned an endpoint of the set that passes the test; or none, where none passes it.
abbrev pub IsChoice : (Endpoint → Bool) → Heap → List Entry → Outcome (Option ℕ) → Type 0
IsChoice test heap items panic = ⊥
IsChoice test heap items (done none) = All (λ e. test (heap e.1) ≡ false) items
IsChoice test heap items (done (some addr)) =
    (test (heap addr) ≡ true) × Any (λ e. e.1 ≡ addr) items

-- A test that only a healthy endpoint passes.
abbrev pub NeedsHealth : (Endpoint → Bool) → Type 0
NeedsHealth test = (ep : Endpoint) → test ep ≡ true → ep.healthy ≡ true

IsChoice-cons :
    (test : Endpoint → Bool) (heap : Heap) (e : Entry) (items : List Entry) (found : Option ℕ)
    → test (heap e.1) ≡ false
    → IsChoice test heap items (done found)
    → IsChoice test heap (e ∷ items) (done found)
IsChoice-cons test heap e items none miss c = (miss, c)
IsChoice-cons test heap e items (some addr) miss c = (c.0, inr c.1)

IsChoice-perm :
    (test : Endpoint → Bool) (heap : Heap) (found : Option ℕ) {xs ys : List Entry}
    → Permᴰ xs ys
    → IsChoice test heap xs (done found)
    → IsChoice test heap ys (done found)
IsChoice-perm test heap none p c = All-perm _ p c
IsChoice-perm test heap (some addr) p c = (c.0, Any-perm _ p c.1)

pub first_where-IsChoice :
    (test : Endpoint → Bool) (heap : Heap) (items : List Entry)
    → IsChoice test heap items (done (first_where test heap items))
unfolding first_where
first_where-IsChoice test heap [] = tt
first_where-IsChoice test heap ((name, addr) ∷ rest) = elim (Bool-cases (test (heap addr))) [
  | inl hit ↦ rw hit (hit, inl refl)
  | inr miss ↦ rw miss (
      IsChoice-cons test heap (name, addr) rest (first_where test heap rest) miss
        (first_where-IsChoice test heap rest))
]

-- A draw below the end of the table finds the name of a healthy endpoint of the table.
first_above-table :
    (heap : Heap) (base draw : ℕ) (order : List Entry)
    → base ≤ draw
    → draw < base + total heap order
    → (e : Entry) × (first_above (table heap base order) (pos draw) ≡ some (heap e.1).name)
      × Any (λ x. x ≡ e) order
unfolding first_above table total healthy_share
first_above-table heap base draw [] low h = absurd (omega arith)
first_above-table heap base draw ((name, addr) ∷ rest) low h =
    elim (dec_lt draw (base + healthy_share (heap addr))) [
      | yes hit ↦ ((name, addr), ground arith, inl refl)
      | no past ↦
          let (e, found, inside) =
            first_above-table heap (base + healthy_share (heap addr)) draw rest (omega arith)
              (omega arith) in
          (e, ground (arith, found), inr inside)
    ]

-- Without a healthy endpoint the table is empty.
total-zero :
    (heap : Heap) (order : List Entry)
    → total heap order ≡ 0
    → All (λ e. (heap e.1).healthy ≡ false) order
unfolding total healthy_share
total-zero heap [] h = tt
total-zero heap ((name, addr) ∷ rest) h =
    (ground (arith, share_pos (heap addr)), total-zero heap rest (omega arith))

-- What a set in order knows of its table and of the limit of its draws.
weights-table :
    (heap : Heap) (names : List Entry) (chain : ChainRef) (s : EndpointSet)
    → (v : SetInv heap names chain s) → total heap v.order ≤ max_int
    → s.weights ≡ table heap 0 v.order
weights-table heap names chain s v fits =
    v.built ∙ weights_over-table heap 0 [] v.order (unfold last? in refl) (omega arith)

weight_limit-SetInv :
    (heap : Heap) (names : List Entry) (chain : ChainRef) (s : EndpointSet)
    → (v : SetInv heap names chain s) → total heap v.order ≤ max_int
    → weight_limit s ≡ pos (total heap v.order)
unfolding reset_weights
weight_limit-SetInv heap names chain s v fits =
    ap (λ ws. weight_limit (record s { weights = ws })) v.built
    ∙ weight_limit-reset_weights heap v.order s fits

-- An answer of `rand.Intn`, as a number.
draw_below :
    (d : ℤ) (sum : ℕ) → (pos 0 ≤ℤ d) × (d <ℤ pos sum) → (draw : ℕ) × (d ≡ pos draw) × (draw < sum)
draw_below (pos n) sum h = (n, refl, omega arith)
draw_below (negsuc n) sum h = absurd (omega arith)

-- A weighted draw from a set in order: nothing if no endpoint is healthy, and else the name of an
-- endpoint of the set.
drawn :
    (r : Runtime) (heap : Heap) (names : List Entry) (chain : ChainRef) (s : EndpointSet)
    → IsGo r
    → SetInv heap names chain s
    → total heap s.items ≤ max_int
    → ((total heap s.items ≡ 0) × (weighted_random r.random s ≡ none))
      ⊎ ((e : Entry) × Any (λ x. x ≡ e) s.items
          × (weighted_random r.random s ≡ some (heap e.1).name))
unfolding weighted_random
drawn r heap names chain s go v small =
    let sum = total heap v.order in
    let same : sum ≡ total heap s.items = total-perm heap v.visited in
    let fits : sum ≤ max_int = omega arith in
    let built = weights-table heap names chain s v fits in
    let limit : weight_limit s ≡ pos sum = weight_limit-SetInv heap names chain s v fits in
    elim (dec_lt 0 sum) [
      | no empty ↦
          let stop : ltb_ℤ (pos 0) (pos sum) ≡ false = ground arith in
          inl (omega arith, rw (limit, stop) refl)
      | yes some_weight ↦
          let more : ltb_ℤ (pos 0) (pos sum) ≡ true = ground arith in
          let (draw, exact, below) =
            draw_below (r.random (pos sum)) sum (go.in_range (pos sum) (omega arith)) in
          let (e, found, inside) =
            first_above-table heap 0 draw v.order (omega arith) (omega arith) in
          inr (
            e,
            Any-perm _ v.visited inside,
            rw (limit, more, exact)
                (weight_search-pos s draw (rw built (table-Rises heap 0 v.order)) ∙ rw built found),
          )
    ]

fails :
    (test : Endpoint → Bool) (ep : Endpoint)
    → NeedsHealth test
    → ep.healthy ≡ false
    → test ep ≡ false
fails test ep needs ill = elim (Bool-cases (test ep)) [
  | inr e ↦ e
  | inl e ↦ absurd (false≢true (sym ill ∙ needs ep e))
]

choose_from :
    (r : Runtime) (test : Endpoint → Bool) (heap : Heap) (s : EndpointSet) (name : String)
    (addr : ℕ)
    → IsGo r
    → weighted_random r.random s ≡ some name
    → lookup String_discrete name s.items ≡ some addr
    → IsChoice test heap s.items (choose r test heap s)
unfolding choose EndpointSet.must_get
choose_from r test heap s name addr go found at = elim (Bool-cases (test (heap addr))) [
  | inl hit ↦ rw (found, choose) (rw (at, hit) (hit, lookup-Any name addr s.items at))
  | inr miss ↦
      rw (found, choose)
        (rw (at, miss)
          (IsChoice-perm test heap (first_where test heap (r.visit s.items)) (go.visits_all s.items)
            (first_where-IsChoice test heap (r.visit s.items))))
]

-- The choice within a set in order, whose shares add up to an `int`.
pub choose-IsChoice :
    (r : Runtime) (test : Endpoint → Bool) (heap : Heap) (names : List Entry) (chain : ChainRef)
    (s : EndpointSet)
    → IsGo r
    → NeedsHealth test
    → SetInv heap names chain s
    → total heap s.items ≤ max_int
    → IsChoice test heap s.items (choose r test heap s)
unfolding choose
choose-IsChoice r test heap names chain s go needs v small =
    elim (drawn r heap names chain s go v small) [
      | inl (empty, e) ↦
          rw (e, choose)
            (All-imp _ _ s.items (λ x ill. fails test (heap x.1) needs ill)
              (total-zero heap s.items empty))
      | inr (e, inside, found) ↦
          let (x, owned, same) =
            Any-All (IsOwned heap names chain) (λ x. x ≡ e) s.items v.owned inside in
          let named : (heap e.1).name ≡ e.0 = subst (λ y. (heap y.1).name ≡ y.0) same owned.0 in
          let (addr, at) =
            Any-lookup (heap e.1).name s.items
              (Any-imp _ _ s.items (λ y q. ap (λ z. z.0) q ∙ sym named) inside) in
          choose_from r test heap s (heap e.1).name addr go found at
    ]
