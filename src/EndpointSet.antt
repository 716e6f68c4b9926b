-- ===== src/EndpointSet.antt =====
-- core/endpoint_set.go: the endpoints of one chain, their weight table and the highest block seen.
-- The entries point into the heap of endpoints that the multiplexer's other index shares. Code that
-- ranges over `items` takes the visited entries, in the order of the visit, as its argument `order`.
pub mod Search
pub mod Weights
pub mod Draws
pub mod Tip
use nodemux.Common.{
  ℕ, zero, suc, ◌+◌, ◌/◌, String, Bool, true, false, not, Option, none, some, List, [], ◌∷◌, ◌++◌,
  ltb, if◌then◌else◌, ℤ, pos, ltb_ℤ, leb_ℤ, add_int, length, get_elem?, last?, String_discrete,
  lookup, insert, Outcome, or_panic,
}
use nodemux.Endpoint.{Endpoint, Block}

-- The store of endpoints: a pointer `*Endpoint` is an address.
abbrev pub Heap : Type 0
Heap = ℕ → Endpoint

abbrev pub Entry : Type 0
Entry = String × ℕ

pub record Weight : Type 0 where
  pub ep_name : String
  pub aggregate_value : ℤ

pub record EndpointSet : Type 0 where
  pub items : List Entry
  pub weights : List Weight
  pub max_tip_height : ℤ

unfoldable pub new_endpoint_set : EndpointSet
new_endpoint_set = record { items = []; weights = []; max_tip_height = pos 0 }

-- `epItem.Blockhead != nil && epItem.Blockhead.Height > maxHeight`, and the assignment below it.
unfoldable pub raise_height : ℤ → Option Block → ℤ
raise_height max_height none = max_height
raise_height max_height (some block) =
    if ltb_ℤ max_height block.height then block.height else max_height

unfoldable pub max_height_over : Heap → ℤ → List Entry → ℤ
unfolding raise_height
max_height_over heap max_height [] = max_height
max_height_over heap max_height ((name, addr) ∷ rest) =
    max_height_over heap (raise_height max_height (heap addr).blockhead) rest

unfoldable pub reset_max_tip_height : Heap → List Entry → EndpointSet → EndpointSet
unfolding max_height_over
reset_max_tip_height heap order epset = record epset {
  max_tip_height = max_height_over heap (pos 0) order;
}

unfoldable pub get : EndpointSet → String → Option ℕ
get epset ep_name = lookup String_discrete ep_name epset.items

unfoldable pub must_get : EndpointSet → String → Outcome ℕ
unfolding get
must_get epset ep_name = or_panic (get epset ep_name)

-- 100 is the default weight.
unfoldable pub weight_of : Endpoint → ℤ
weight_of ep = if leb_ℤ ep.config.weight (pos 0) then pos 100 else ep.config.weight

-- The body that `appendWeights` and the loop of `resetWeights` share.
unfoldable pub append_weight : List Weight → Endpoint → List Weight
unfolding weight_of last? add_int
append_weight weights ep =
    if not ep.healthy
    then weights
    else weights
      ++ record {
        ep_name = ep.name;
        aggregate_value = elim (last? weights) [
          | none ↦ weight_of ep
          | some top ↦ add_int top.aggregate_value (weight_of ep)
        ];
      }
        ∷ []

unfoldable pub append_weights : Endpoint → EndpointSet → EndpointSet
append_weights ep epset = record epset { weights = append_weight epset.weights ep }

-- `Add`, of the endpoint at an address.
unfoldable pub add : Heap → ℕ → EndpointSet → EndpointSet
unfolding append_weights
add heap addr epset =
    append_weights (heap addr)
      (record epset { items = insert String_discrete (heap addr).name addr epset.items })

unfoldable pub weights_over : Heap → List Weight → List Entry → List Weight
weights_over heap weights [] = weights
weights_over heap weights ((name, addr) ∷ rest) =
    weights_over heap (append_weight weights (heap addr)) rest

unfoldable pub reset_weights : Heap → List Entry → EndpointSet → EndpointSet
unfolding weights_over
reset_weights heap order epset = record epset { weights = weights_over heap [] order }

unfoldable pub weight_limit : EndpointSet → ℤ
unfolding last?
weight_limit epset = elim (last? epset.weights) [ none ↦ pos 0 | some top ↦ top.aggregate_value ]

-- `sort.Search` on the indices from `i` up to `j`: the loop runs while `i < j`, at most `fuel` times.
unfoldable pub search : (ℕ → Bool) → ℕ → ℕ → ℕ → ℕ
search f zero i j = i
search f (suc fuel) i j = elim (ltb i j) [
  | false ↦ i
  | true ↦ elim (f ((i + j) / 2)) [
    | true ↦ search f fuel i ((i + j) / 2)
    | false ↦ search f fuel ((i + j) / 2 + 1) j
  ]
]

-- `epset.weights[i].AggregateValue > w`; the search asks at indices within the table only.
unfoldable pub exceeds : List Weight → ℤ → ℕ → Bool
exceeds weights w i = elim (get_elem? weights i) [
  | none ↦ false
  | some weight ↦ ltb_ℤ w weight.aggregate_value
]

unfoldable pub weight_search : EndpointSet → ℤ → Option String
unfolding search exceeds
weight_search epset w =
    if ltb_ℤ w (pos 0)
    then none
    else (elim (get_elem? epset.weights
        (search (exceeds epset.weights w) (length epset.weights) 0 (length epset.weights))) [
          | none ↦ none
          | some weight ↦ some weight.ep_name
        ])

-- `random` is the answer of `rand.Intn(lim)`, as a function of `lim`.
unfoldable pub weighted_random : (ℤ → ℤ) → EndpointSet → Option String
unfolding weight_limit weight_search
weighted_random random epset =
    if ltb_ℤ (pos 0) (weight_limit epset)
    then weight_search epset (random (weight_limit epset))
    else none
