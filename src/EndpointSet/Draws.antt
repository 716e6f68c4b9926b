-- ===== src/EndpointSet/Draws.antt =====
-- How often a draw selects an endpoint.
use native.Mathlib.Nat.{zero-add}
use nodemux.Common.{
  ℕ, ◌+◌, ◌≤◌, ◌<◌, String, Bool, true, false, some, List, [], ◌∷◌, ◌++◌, if◌then◌else◌, pos, ltb_ℤ,
  last?, max_int, ◌≡◌, refl, ◌∙◌, arith,
}
use nodemux.EndpointSet.{
  Heap, Entry, Weight, EndpointSet, weights_over, reset_weights, weight_limit, weight_search,
}
use nodemux.EndpointSet.Search.{first_above, weight_search-pos}
use nodemux.EndpointSet.Weights.{
  share, healthy_share, total, table, table-append, table-Rises, weights_over-table,
  weights_over-Tops, top_value,
}

first_above_passes :
    (well : Bool) (name : String) (value draw : ℕ) (rest ws : List Weight)
    → value ≤ draw
    → first_above (rest ++ ws) (pos draw) ≡ first_above ws (pos draw)
    → first_above
        ((if well then record { ep_name = name; aggregate_value = pos value } ∷ rest else rest)
          ++ ws)
        (pos draw)
      ≡ first_above ws (pos draw)
unfolding first_above
first_above_passes true name value draw rest ws h e =
    let past : ltb_ℤ (pos draw) (pos value) ≡ false = ground arith in rw past e
first_above_passes false name value draw rest ws h e = e

-- A draw at or above the shares of the visited endpoints passes their entries by.
first_above-skip :
    (heap : Heap) (base draw : ℕ) (xs : List Entry) (ws : List Weight)
    → base + total heap xs ≤ draw
    → first_above (table heap base xs ++ ws) (pos draw) ≡ first_above ws (pos draw)
unfolding total table
first_above-skip heap base draw [] ws h = unfold table in refl
first_above-skip heap base draw ((name, addr) ∷ xs) ws h =
    let later = first_above-skip heap (base + healthy_share (heap addr)) draw xs ws (omega arith) in
    first_above_passes ((heap addr).healthy) (heap addr).name (base + healthy_share (heap addr))
      draw (table heap (base + healthy_share (heap addr)) xs) ws (omega arith) later

first_above-hit :
    (heap : Heap) (base draw addr : ℕ) (name : String) (after : List Entry)
    → (heap addr).healthy ≡ true
    → draw < share (heap addr)
    → first_above (table heap base ((name, addr) ∷ after)) (pos (base + draw))
      ≡ some (heap addr).name
unfolding table first_above healthy_share
first_above-hit heap base draw addr name after well within =
    let above : ltb_ℤ (pos (base + draw)) (pos (base + share (heap addr))) ≡ true = ground arith in
    rw well (rw above refl)

-- After `resetWeights` the limit of the draws is the sum of the shares of the healthy endpoints that it
-- visits, as long as the sum is an `int`.
pub weight_limit-reset_weights :
    (heap : Heap) (order : List Entry) (epset : EndpointSet)
    → total heap order ≤ max_int
    → weight_limit (reset_weights heap order epset) ≡ pos (total heap order)
unfolding weight_limit reset_weights
weight_limit-reset_weights heap order epset small =
    top_value (last? (weights_over heap [] order)) (total heap order)
      (rw zero-add at (weights_over-Tops heap 0 [] order (unfold last? in refl) (omega arith)))

-- A draw picks a healthy endpoint if it falls into the endpoint's part of the range: the part begins
-- at the sum of the shares visited before and is as long as the endpoint's own share, as long as the
-- shares add up to an `int`.
pub weight_search-reset_weights :
    (heap : Heap) (before after : List Entry) (name : String) (addr draw : ℕ) (epset : EndpointSet)
    → total heap (before ++ (name, addr) ∷ after) ≤ max_int
    → (heap addr).healthy ≡ true
    → draw < share (heap addr)
    → weight_search
        (reset_weights heap (before ++ (name, addr) ∷ after) epset)
        (pos (total heap before + draw))
      ≡ some (heap addr).name
unfolding reset_weights
weight_search-reset_weights heap before after name addr draw epset small well within =
    let order = before ++ (name, addr) ∷ after in
    let built : weights_over heap [] order ≡ table heap 0 order =
      weights_over-table heap 0 [] order (unfold last? in refl) (omega arith) in
    let draw' = total heap before + draw in
    rw built (
      weight_search-pos (record epset { weights = table heap 0 order }) draw'
        (table-Rises heap 0 order)
      ∙ rw (table-append heap 0 before ((name, addr) ∷ after), zero-add)
          (first_above-skip heap 0 draw' before _ (omega arith)
            ∙ first_above-hit heap (total heap before) draw addr name after well within))
