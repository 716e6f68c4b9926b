-- ===== src/Presence.antt =====
-- chains/presence_cache.go: which endpoint is asked for a transaction. Redis keeps a set of names of
-- endpoints for each transaction; what it answers is an argument. Messages of errors are left out.
pub mod Members
pub mod Store
use Prim.Native.String.{◌++◌}
use nodemux.Common.{
  ℕ, suc, String, Bool, true, false, Option, none, some, List, [], ◌∷◌, if◌then◌else◌, ite,
  String_discrete, is_empty, length, get_elem?, Outcome, done, panic,
}
use nodemux.Chain.{ChainRef, to_string}
use nodemux.Multiplexer.{Multiplexer}
use nodemux.Multiplexer

unfoldable pub presence_cache_key : ChainRef → String → String
unfolding to_string
presence_cache_key chain txid = "P:" ++ to_string chain ++ "/" ++ txid

unfoldable pub presence_cache_redis_selector : ChainRef → String
presence_cache_redis_selector chain = "pcache-" ++ chain.namespace ++ "-" ++ chain.network

-- `m.Get(epName)` with a healthy endpoint.
unfoldable pub get_healthy : Multiplexer → String → Option ℕ
get_healthy m ep_name = elim (Multiplexer.get m ep_name) [
  | none ↦ none
  | some addr ↦ if (m.heap addr).healthy then some addr else none
]

unfoldable pub first_healthy : Multiplexer → List String → Option ℕ
unfolding get_healthy
first_healthy m [] = none
first_healthy m (ep_name ∷ rest) = elim (get_healthy m ep_name) [
  | some addr ↦ some addr
  | none ↦ first_healthy m rest
]

-- The choice among the members of a set: a random one if it is healthy, and else the first that is.
-- `random` is the answer of `rand.Intn`; an index out of range panics.
unfoldable pub among_members : (ℕ → ℕ) → Multiplexer → List String → Outcome (Option ℕ)
unfolding first_healthy
among_members random m [] = done none
among_members random m (x ∷ rest) = elim (get_elem? (x ∷ rest) (random (length (x ∷ rest)))) [
  | none ↦ panic
  | some ep_name ↦ elim (get_healthy m ep_name) [
    | some addr ↦ done (some addr)
    | none ↦ done (first_healthy m (x ∷ rest))
  ]
]

-- `presenceCacheGetEndpoint`: `members` is the answer for the transaction's key, `none` an error, and
-- there is none of it without a client for the chain.
unfoldable pub presence_cache_get_endpoint :
    (ℕ → ℕ) → Multiplexer → Option (Option (List String)) → Outcome (Option ℕ)
unfolding among_members
presence_cache_get_endpoint random m none = done none
presence_cache_get_endpoint random m (some none) = done none
presence_cache_get_endpoint random m (some (some ep_names)) = among_members random m ep_names

unfoldable pub is_method : String → List String → Bool
is_method method [] = false
is_method method (mth ∷ rest) =
    let later = is_method method rest in ite (String_discrete method mth) true later

-- `presenceCacheMatchRequest`: `txid` is the first parameter, `none` where it cannot be decoded.
unfoldable pub presence_cache_match_request :
    (ℕ → ℕ)
    → Multiplexer
    → (String → Option (Option (List String)))
    → String
    → Option String
    → List String
    → Outcome (Option ℕ)
unfolding presence_cache_get_endpoint is_method
presence_cache_match_request random m members method none methods = done none
presence_cache_match_request random m members method (some txid) methods =
    if is_method method methods
    then if is_empty txid then done none else presence_cache_get_endpoint random m (members txid)
    else done none
