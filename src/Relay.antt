-- ===== src/Relay.antt =====
-- core/multiplexer.go: the default relays, which choose an endpoint for a request and call it. A call is
-- made through an HTTP client that is not part of the repository: its answer is a parameter. What the
-- runtime chooses is given for each attempt.
pub mod Fallback
pub mod Broadcast
use nodemux.Common.{
  ℕ, zero, suc, String, Bool, true, false, Option, none, some, List, [], ◌∷◌, ◌++◌, if◌then◌else◌,
  ℤ, pos, negsuc, ltb_ℤ, Outcome, done, panic, ◌>>=◌, lookup, map,
}
use nodemux.Chain.{ChainRef, ChainRef_discrete}
use nodemux.Endpoint.{available}
use nodemux.EndpointSet.{Entry}
use nodemux.Multiplexer.{
  Multiplexer, Runtime, select_over_height, height_over, all_healthy_endpoints,
}

-- The endpoint that a relay takes: with none over the height, it tries once more for any that is not
-- further than 2 blocks below the tip. The fuel bounds the attempts.
unfoldable pub relay_over :
    ℕ → (ℕ → Runtime) → Multiplexer → ChainRef → String → ℤ → Outcome (Option ℕ)
relay_over zero rs m chain method over_height = panic
relay_over (suc fuel) rs m chain method over_height =
    let again = relay_over fuel rs m chain method (negsuc 1) in
    select_over_height (rs fuel) m chain method over_height >>= λ found. elim found [
      | some addr ↦ done (some addr)
      | none ↦ if ltb_ℤ (pos 0) over_height then again else done none
    ]

-- What comes back: a message with the header X-Real-Endpoint, an error of the call, or the error
-- message "not available", which for a pipe is status 404.
pub data Reply (M : Type 0) : Type 0 where
  answered : String → M → Reply M
  call_failed : Reply M
  not_available : Reply M

module _ {M : Type 0} (call : ℕ → Option M) where
  -- `CallEndpointRPC`; `none` is an error.
  unfoldable pub call_endpoint_rpc : Multiplexer → ℕ → Reply M
  call_endpoint_rpc m addr = elim (call addr) [
    | none ↦ call_failed
    | some resmsg ↦ answered (m.heap addr).name resmsg
  ]

  unfoldable pub reply_of : Multiplexer → Option ℕ → Reply M
  unfolding call_endpoint_rpc
  reply_of m none = not_available
  reply_of m (some addr) = call_endpoint_rpc m addr

  unfoldable pub default_relay_rpc :
      (ℕ → Runtime) → Multiplexer → ChainRef → String → ℤ → Outcome (Reply M)
  unfolding relay_over reply_of
  default_relay_rpc rs m chain method over_height =
      relay_over 2 rs m chain method over_height >>= λ found. done (reply_of m found)

  -- `DefaultRelayRPCTakingEndpoint`: the reply, and the endpoint that was called.
  unfoldable pub default_relay_rpc_taking_endpoint :
      (ℕ → Runtime) → Multiplexer → ChainRef → String → ℤ → Outcome (Reply M × Option ℕ)
  unfolding relay_over reply_of
  default_relay_rpc_taking_endpoint rs m chain method over_height =
      relay_over 2 rs m chain method over_height >>= λ found. done (reply_of m found, found)

  -- A pipe passes the answer of `PipeRequest` on, without the header of the relays.
  unfoldable pub pipe_of : Option ℕ → Option (Option M)
  pipe_of none = none
  pipe_of (some addr) = some (call addr)

  -- The path stands for the method.
  unfoldable pub default_pipe_rest :
      (ℕ → Runtime) → Multiplexer → ChainRef → String → ℤ → Outcome (Option (Option M))
  unfolding relay_over pipe_of
  default_pipe_rest rs m chain path over_height =
      relay_over 2 rs m chain path over_height >>= λ found. done (pipe_of found)

  unfoldable pub default_pipe_graph_ql :
      (ℕ → Runtime) → Multiplexer → ChainRef → ℤ → Outcome (Option (Option M))
  unfolding relay_over pipe_of
  default_pipe_graph_ql rs m chain over_height =
      relay_over 2 rs m chain "" over_height >>= λ found. done (pipe_of found)

  -- `BroadcastRPC`: the endpoints that were called and what each answered, in the order in which the
  -- calls ended, `finish`.
  unfoldable pub broadcast_rpc :
      (List ℕ → List ℕ) → Runtime → Multiplexer → ChainRef → String → ℤ → List (ℕ × Option M)
  unfolding all_healthy_endpoints
  broadcast_rpc finish r m chain method over_height =
      map (λ addr. (addr, call addr)) (finish (all_healthy_endpoints r m chain method over_height))

-- The endpoints whose caches `RequestCacheKeys` looks into; `key` is the request's cache key for a
-- prefix and a name.
unfoldable pub cache_keys_over :
    (String → String) → Multiplexer → String → ℤ → List Entry → List String
cache_keys_over key m method height [] = []
cache_keys_over key m method height ((name, addr) ∷ rest) =
    let later = cache_keys_over key m method height rest in
    if available (m.heap addr) method height then key (m.heap addr).name ∷ later else later

unfoldable pub request_cache_keys :
    (String → String) → Runtime → Multiplexer → ChainRef → String → ℤ → List String
unfolding cache_keys_over height_over
request_cache_keys key r m chain method height_spec =
    elim (lookup ChainRef_discrete chain m.chain_index) [
      | none ↦ []
      | some eps ↦ cache_keys_over key m method (height_over eps height_spec) (r.visit eps.items)
    ]
