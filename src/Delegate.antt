-- ===== src/Delegate.antt =====
-- What the delegators of chains/web3.go, chains/bitcoin.go and chains/solana.go share: a reply is looked
-- for in the cache of replies, and the result of a call is kept there. `call` is what an endpoint
-- answers to the request, `none` an error.
pub mod Bitcoin
pub mod Solana
pub mod Web3
pub mod Repeat
use nodemux.Common.{
  ℕ, String, Option, none, some, List, [], ◌∷◌, ℤ, String_discrete, lookup, Outcome, done, ◌>>=◌,
}
use nodemux.Chain.{ChainRef}
use nodemux.Multiplexer.{Multiplexer, Runtime}
use nodemux.Cache.{CacheRedis, jsonrpc_cache_fetch, jsonrpc_cache_update}
use nodemux.Relay.{Reply, answered, call_failed, not_available, default_relay_rpc_taking_endpoint}

-- What a delegator returns: a result of its own; a result from the cache; what endpoints that it called
-- itself answered, `none` an error; a reply of a relay; or a nil message without an error.
pub data Served (V M : Type 0) : Type 0 where
  own cached : V → Served V M
  called : Option M → Served V M
  relayed : Reply M → Served V M
  no_message : Served V M

-- A request as the delegators look at it: its method, its first parameter as a text, `none` where it
-- does not decode as one, and as a number.
pub record Request : Type 0 where
  pub method : String
  pub first_text : Option String
  pub first_number : Option ℤ

-- What the Go runtime chooses during one request, for the cache and for each attempt of a relay, and
-- the random member and the members themselves that the presence cache gives for a transaction.
pub record Choices : Type 0 where
  pub visit : Runtime
  pub attempts : ℕ → Runtime
  pub random : ℕ → ℕ
  pub members : String → Option (Option (List String))

-- `result_of` is the result of a message, `none` where it is none.
module _ (redis : CacheRedis) {V M : Type 0} (encode : V → Option String)
    (decode : String → Option V) (key : String → String) (result_of : M → Option V)
    (call : ℕ → Option M) where
  -- With `expire`, the seconds to keep a result, if the method is kept at all.
  unfoldable pub keep_message :
      Multiplexer
      → Option (CacheRedis.Store redis)
      → Option ℤ
      → Option ℕ
      → M
      → Option (CacheRedis.Store redis)
  unfolding jsonrpc_cache_update
  keep_message m c none ep retmsg = c
  keep_message m c (some expire) ep retmsg = elim (result_of retmsg) [
    | none ↦ c
    | some res ↦ jsonrpc_cache_update redis encode decode key m c ep res expire
  ]

  -- "not available" is a message, but no result.
  unfoldable pub keep_reply :
      Multiplexer
      → Option (CacheRedis.Store redis)
      → Option ℤ
      → Option ℕ
      → Reply M
      → Option (CacheRedis.Store redis)
  unfolding keep_message
  keep_reply m c expire ep (answered name retmsg) = keep_message m c expire ep retmsg
  keep_reply m c expire ep call_failed = c
  keep_reply m c expire ep not_available = c

  -- The cache is asked only for a method of the table.
  unfoldable pub from_cache :
      Runtime
      → Multiplexer
      → Option (CacheRedis.Store redis)
      → ChainRef
      → String
      → Option ℤ
      → ℤ
      → Option V
  unfolding jsonrpc_cache_fetch
  from_cache r m c chain method none height_spec = none
  from_cache r m c chain method (some expire) height_spec =
      jsonrpc_cache_fetch redis encode decode key r m c chain method height_spec

  -- A relay, and the result kept.
  unfoldable pub relay_and_keep :
      (ℕ → Runtime)
      → Multiplexer
      → Option (CacheRedis.Store redis)
      → ChainRef
      → String
      → Option ℤ
      → ℤ
      → Outcome (Option (CacheRedis.Store redis) × Served V M)
  unfolding keep_reply default_relay_rpc_taking_endpoint
  relay_and_keep rs m c chain method expire height_spec =
      default_relay_rpc_taking_endpoint call rs m chain method height_spec >>= λ (retmsg, ep).
      done (keep_reply m c expire ep retmsg, relayed retmsg)

  -- A call of an endpoint that the presence cache named, and the result kept.
  unfoldable pub call_and_keep :
      Multiplexer
      → Option (CacheRedis.Store redis)
      → Option ℤ
      → ℕ
      → Option (CacheRedis.Store redis) × Option M
  unfolding keep_message
  call_and_keep m c expire addr = elim (call addr) [
    | none ↦ (c, none)
    | some retmsg ↦ (keep_message m c expire (some addr) retmsg, some retmsg)
  ]
