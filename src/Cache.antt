-- ===== src/Cache.antt =====
-- chains/jsonrpc_cache.go: replies kept in Redis, under a key of the request and of the endpoint that
-- gave it. The commands of Redis are the parameter `CacheRedis`, the codec of results `encode` and
-- `decode`, and `key` the request's `CacheKey` of a prefix.
pub mod Fetch
use Prim.Native.String.{◌++◌}
use nodemux.Common.{ℕ, String, Bool, Option, none, some, List, [], ◌∷◌, ℤ}
use nodemux.Chain.{ChainRef}
use nodemux.Multiplexer.{Multiplexer, Runtime}
use nodemux.Relay.{request_cache_keys}

-- `mget` answers for each key, nothing where it is not set, or is an error; `set` tells whether it
-- succeeded, and takes the seconds until the key expires.
pub record CacheRedis : Type 1 where
  pub Store : Type 0
  pub mget : Store → List String → Option (List (Option String))
  pub set : Store → String → String → ℤ → Store × Bool

unfoldable pub jsonrpc_cache_redis_selector : ChainRef → String
jsonrpc_cache_redis_selector chain = "jsonrpc-cache-" ++ chain.namespace ++ "-" ++ chain.network

abbrev pub cache_prefix : String → String
cache_prefix name = "CC/" ++ name ++ "/"

-- The loop of `jsonrpcCacheGet`: the first text that is there decides, even if it cannot be decoded.
unfoldable pub first_hit {ℓ} : {V : Type ℓ} → (String → Option V) → List (Option String) → Option V
first_hit decode [] = none
first_hit decode (none ∷ rest) = first_hit decode rest
first_hit decode (some text ∷ rest) = decode text

module _ (redis : CacheRedis) {V : Type 0} (encode : V → Option String) (decode : String → Option V)
    (key : String → String) where
  unfoldable pub jsonrpc_cache_get :
      Runtime → Multiplexer → CacheRedis.Store redis → ChainRef → String → ℤ → Option V
  unfolding first_hit
  jsonrpc_cache_get r m c chain method height_spec =
      elim (redis.mget c
        (request_cache_keys (λ name. key (cache_prefix name)) r m chain method height_spec)) [
          | none ↦ none
          | some values ↦ first_hit decode values
        ]

  -- `c` is the client of the chain's cache, `none` if there is none.
  unfoldable pub jsonrpc_cache_fetch :
      Runtime → Multiplexer → Option (CacheRedis.Store redis) → ChainRef → String → ℤ → Option V
  unfolding jsonrpc_cache_get
  jsonrpc_cache_fetch r m none chain method height_spec = none
  jsonrpc_cache_fetch r m (some c) chain method height_spec =
      jsonrpc_cache_get r m c chain method height_spec

  -- `ep` is the endpoint that gave the result, at its address.
  unfoldable pub jsonrpc_cache_update :
      Multiplexer
      → Option (CacheRedis.Store redis)
      → Option ℕ
      → V
      → ℤ
      → Option (CacheRedis.Store redis)
  jsonrpc_cache_update m none ep res expiration = none
  jsonrpc_cache_update m (some c) none res expiration = some c
  jsonrpc_cache_update m (some c) (some addr) res expiration = elim (encode res) [
    | none ↦ some c
    | some text ↦ some (redis.set c (key (cache_prefix (m.heap addr).name)) text expiration).0
  ]
