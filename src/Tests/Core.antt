-- ===== src/Tests/Core.antt =====
-- Runs of the choice of an endpoint, of the weight tables and of the texts.
use nodemux.Common.{
  String_discrete, ite, pos, true, false, none, some, List, [], ◌∷◌, ◌≡◌, ◌≤◌, refl, lookup, arith,
  max_int, last?, ltb_ℤ, add_int, if◌then◌else◌, Any, inl, wrap_int,
}
use nodemux.Chain.{ChainRef_discrete, parse_chain, to_string, split_slash}
use nodemux.Chain.Text.{parse_chain-to_string, to_string-parse_chain, has_slash}
use nodemux.Endpoint.{available, is_skipped}
use nodemux.Endpoint.Headers.{
  Header, values_of, request_headers, chosen, last_set, given, request_headers-values,
}
use nodemux.EndpointSet.{
  Heap, Entry, Weight, EndpointSet, new_endpoint_set, append_weights, append_weight, weight_of,
  weight_limit, weight_search, reset_weights, weights_over, search, exceeds,
}
use nodemux.EndpointSet
use nodemux.EndpointSet.Search.{weight_search-first_above, first_above}
use nodemux.EndpointSet.Weights.{share, healthy_share, total}
use nodemux.EndpointSet.Draws.{weight_search-reset_weights}
use nodemux.Multiplexer.{add, select_over_height, height_over}
use nodemux.Multiplexer.Invariant.{Inv}
use nodemux.Multiplexer.Adding.{add-Inv}
use nodemux.Multiplexer.Choice.{IsChoice}
use nodemux.Multiplexer.Selection.{select_over_height-IsChoice}
use nodemux.Relay.{relay_over}
use nodemux.Relay.Fallback.{relayable, relay_over-IsChoice}
use nodemux.Tests.{eosio, two_heap, one, two, model, one-Inv, two-Inv, steady, steady-IsGo}

-- The set of the chain of `two`.
abbrev pub two_set : EndpointSet
two_set = EndpointSet.add two_heap 1 (EndpointSet.add two_heap 0 new_endpoint_set)

pub two_set_found : lookup ChainRef_discrete eosio two.chain_index ≡ some two_set
unfolding model
two_set_found = refl

pub two_total : total two.heap two_set.items ≤ max_int
unfolding model total healthy_share share
two_total = omega arith

select_over_height-IsChoice_example :
    IsChoice
      (λ ep. available ep "" (height_over two_set (pos 0)))
      two.heap
      two_set.items
      (select_over_height steady two eosio "" (pos 0))
select_over_height-IsChoice_example =
    select_over_height-IsChoice steady two eosio "" (pos 0) two_set steady-IsGo two-Inv
      two_set_found two_total

abbrev two_order : List Entry
two_order = ("tron02", 1) ∷ ("tron01", 0) ∷ []

order_total : total two_heap two_order ≤ max_int
unfolding total healthy_share share
order_total = omega arith

-- The second endpoint's part begins at 60.
weight_search-reset_weights_example :
    weight_search (reset_weights two_heap two_order two_set) (pos 160) ≡ some "tron01"
unfolding total healthy_share share
weight_search-reset_weights_example =
    weight_search-reset_weights two_heap (("tron02", 1) ∷ []) [] "tron01" 0 100 two_set order_total
      refl (omega arith)

weight_search-first_above_example :
    weight_search two_set (pos 170)
    ≡ (if ltb_ℤ (pos 170) (pos 0) then none else first_above two_set.weights (pos 170))
unfolding model append_weight weight_of last? add_int
weight_search-first_above_example =
    weight_search-first_above two_set (pos 170) (omega arith, (omega arith, tt))

add-Inv_example : Inv (add 1 one).0
unfolding model
add-Inv_example = add-Inv one 1 (omega arith) refl one-Inv

parse_chain-to_string_example : parse_chain (to_string eosio) ≡ some eosio
unfolding has_slash
parse_chain-to_string_example = parse_chain-to_string eosio refl

to_string-parse_chain_example :
    (to_string (record { namespace = "a"; network = "b/c" }) ≡ "a/b/c") × (has_slash "a" ≡ false)
unfolding parse_chain split_slash
to_string-parse_chain_example =
    to_string-parse_chain "a/b/c" (record { namespace = "a"; network = "b/c" }) refl

relay_over-IsChoice_example :
    IsChoice
      (relayable two_set "" (pos 9))
      two.heap
      two_set.items
      (relay_over 2 (λ n. steady) two eosio "" (pos 9))
relay_over-IsChoice_example =
    relay_over-IsChoice (λ n. steady) two eosio "" two_set (λ n. steady-IsGo) two-Inv two_set_found
      two_total 0 (pos 9)

two_ready :
    Any (λ e. available (two.heap e.1) "" (height_over two_set (pos 0)) ≡ true) two_set.items
unfolding model available height_over is_skipped append_weight append_weights add_int wrap_int
two_ready = inl refl

abbrev client_headers : Header
client_headers = ("Accept", "a" ∷ "b" ∷ []) ∷ ("X-Forwarded-For", "1.2.3.4" ∷ []) ∷ []

request_headers-values_example :
    values_of "Accept" (request_headers (λ k. k) client_headers (("Key", "x") ∷ []) "10.0.0.1:9")
    ≡ (ite (String_discrete "X-Forwarded-For" "Accept") ("10.0.0.1:9" ∷ []) (
        chosen
          (last_set (λ k. k) "Accept" (("Key", "x") ∷ []))
          (given (λ k. k) "Accept" client_headers)))
request_headers-values_example =
    request_headers-values (λ k. k) "Accept" client_headers (("Key", "x") ∷ []) "10.0.0.1:9"
