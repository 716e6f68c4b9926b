-- ===== src/Delegate/Repeat.antt =====
-- A request that is made again is served from the cache.
use nodemux.Common.{
  ℕ, ◌≤◌, String, false, Option, none, some, ℤ, pos, negsuc, ltb_ℤ, ◌≤ℤ◌, max_int, All,
  String_discrete, lookup, done, done-inj, ◌≡◌, refl, sym, ap, ◌∙◌, subst, inl, inr, Option-cases,
  arith,
}
use nodemux.Chain.{ChainRef, ChainRef_discrete}
use nodemux.Endpoint.{available}
use nodemux.Endpoint.Availability.{available_mono}
use nodemux.EndpointSet.{EndpointSet}
use nodemux.EndpointSet.Weights.{total}
use nodemux.Multiplexer.{Multiplexer, Runtime, IsGo, height_over}
use nodemux.Multiplexer.Invariant.{Inv}
use nodemux.Multiplexer.Choice.{IsChoice}
use nodemux.Relay.{
  Reply, answered, call_endpoint_rpc, reply_of, default_relay_rpc_taking_endpoint,
  request_cache_keys,
}
use nodemux.Relay.Fallback.{relay_over_once}
use nodemux.Cache.{CacheRedis, cache_prefix, jsonrpc_cache_update}
use nodemux.Cache.Fetch.{IsCacheRedis, jsonrpc_cache_fetch-update}
use nodemux.Delegate.{
  Served, cached, relayed, Request, Choices, keep_message, keep_reply, from_cache, relay_and_keep,
}
use nodemux.Delegate.Solana.{delegate_rpc, solana_cachable_methods}

relayed-inj : {V M : Type 0} {a b : Reply M} → ◌≡◌ {A = Served V M} (relayed a) (relayed b) → a ≡ b
relayed-inj h = cc

module _ (redis : CacheRedis) (real : IsCacheRedis redis) {V M : Type 0}
    (encode : V → Option String) (decode : String → Option V) (key : String → String)
    (result_of : M → Option V) (call : ℕ → Option M) (m : Multiplexer) (chain : ChainRef)
    (s : EndpointSet) (inv : Inv m) (known : lookup ChainRef_discrete chain m.chain_index ≡ some s)
    (small : total m.heap s.items ≤ max_int) where
  -- No key that the request looks at holds a text.
  abbrev pub IsBare : Runtime → CacheRedis.Store redis → String → ℤ → Type 0
  IsBare r c method height_spec =
      All (λ k. real.read c k ≡ none)
        (request_cache_keys (λ name. key (cache_prefix name)) r m chain method height_spec)

  -- What was kept when a message came back from an endpoint.
  kept_by :
      (c : CacheRedis.Store redis) (c' : Option (CacheRedis.Store redis)) (expire : ℤ)
      (found : Option ℕ) (name : String) (msg : M) (res : V)
      → result_of msg ≡ some res
      → keep_reply redis encode decode key result_of call m
          (some c)
          (some expire)
          found
          (reply_of call m found)
        ≡ c'
      → reply_of call m found ≡ answered name msg
      → (addr : ℕ) × (found ≡ some addr)
        × (c' ≡ jsonrpc_cache_update redis encode decode key m (some c) (some addr) res expire)
  unfolding reply_of call_endpoint_rpc keep_reply keep_message
  kept_by c c' expire none name msg res result kept reply = absurd cc
  kept_by c c' expire (some addr) name msg res result kept reply = (
    addr,
    refl,
    sym kept
        ∙ ap
            (keep_reply redis encode decode key result_of call m (some c) (some expire) (some addr))
            reply
        ∙ rw (result, keep_message) refl,
  )

  -- The result that a relay kept is fetched at any height that is not above the relay's.
  relay_and_keep-from_cache :
      (rs : ℕ → Runtime) (r : Runtime) (method : String) (c : CacheRedis.Store redis)
      (c' : Option (CacheRedis.Store redis)) (expire relay_height cache_height : ℤ)
      (name value : String) (msg : M) (res : V)
      → ((n : ℕ) → IsGo (rs n))
      → IsGo r
      → ltb_ℤ (pos 0) relay_height ≡ false
      → height_over s cache_height ≤ℤ height_over s relay_height
      → result_of msg ≡ some res
      → encode res ≡ some value
      → decode value ≡ some res
      → IsBare r c method cache_height
      → relay_and_keep redis encode decode key result_of call rs m
          (some c)
          chain
          method
          (some expire)
          relay_height
        ≡ done (c', relayed (answered name msg))
      → from_cache redis encode decode key result_of call r m c' chain method
          (some expire)
          cache_height
        ≡ some res
  unfolding relay_and_keep default_relay_rpc_taking_endpoint from_cache
  relay_and_keep-from_cache rs r method c c' expire relay_height cache_height name value msg res go
        go' low below result enc dec bare h =
      let (found, e, choice) =
        relay_over_once rs m chain method s go inv known small 1 relay_height low in
      let outcome = done-inj (rw (e, relay_and_keep, default_relay_rpc_taking_endpoint) at h) in
      let (addr, there, kept) =
        kept_by c c' expire found name msg res result (ap (λ x. x.0) outcome)
          (relayed-inj (ap (λ x. x.1) outcome)) in
      let taken =
        subst
          (λ x.
            IsChoice (λ ep. available ep method (height_over s relay_height)) m.heap s.items
              (done x))
          there choice in
      rw kept (
        jsonrpc_cache_fetch-update redis real encode decode key r go' m chain s known c method value
          cache_height expire addr res enc dec taken.1
          (available_mono (m.heap addr) method (height_over s cache_height)
            (height_over s relay_height) below taken.0)
          bare)

  -- What the delegator of Solana does with a request of a method that it keeps.
  solana_relays :
      (ch : Choices) (c c' : Option (CacheRedis.Store redis)) (reqmsg : Request) (expire : ℤ)
      (reply : Reply M)
      → lookup String_discrete reqmsg.method solana_cachable_methods ≡ some expire
      → delegate_rpc redis encode decode key result_of call ch m c chain reqmsg
        ≡ done (c', relayed reply)
      → relay_and_keep redis encode decode key result_of call ch.attempts m c chain reqmsg.method
          (some expire)
          (negsuc 59)
        ≡ done (c', relayed reply)
  unfolding delegate_rpc
  solana_relays ch c c' reqmsg expire reply kept h =
      elim (Option-cases (
        from_cache redis encode decode key result_of call ch.visit m c chain reqmsg.method
          (some expire) (negsuc 59))) [
            | inl e ↦ rw (kept, delegate_rpc, e, kept) at h
            | inr (v, e) ↦
                absurd (
                  served_apart v reply (ap (λ x. x.1) (done-inj (rw (kept, delegate_rpc, e) at h))))
          ]
    where
      served_apart : (v : V) (reply : Reply M) → ◌≡◌ {A = Served V M} (cached v) (relayed reply) → ⊥
      served_apart v reply e = cc

  -- The delegator of Solana, asked again for a method that it keeps, after an endpoint gave a result
  -- and nothing else was kept for the request: it answers with that result from the cache.
  pub solana_repeat :
      (ch ch' : Choices) (c : CacheRedis.Store redis) (c' : Option (CacheRedis.Store redis))
      (reqmsg : Request) (expire : ℤ) (name value : String) (msg : M) (res : V)
      → ((n : ℕ) → IsGo (ch.attempts n))
      → IsGo ch'.visit
      → lookup String_discrete reqmsg.method solana_cachable_methods ≡ some expire
      → result_of msg ≡ some res
      → encode res ≡ some value
      → decode value ≡ some res
      → IsBare ch'.visit c reqmsg.method (negsuc 59)
      → delegate_rpc redis encode decode key result_of call ch m (some c) chain reqmsg
        ≡ done (c', relayed (answered name msg))
      → delegate_rpc redis encode decode key result_of call ch' m c' chain reqmsg
        ≡ done (c', cached res)
  unfolding delegate_rpc
  solana_repeat ch ch' c c' reqmsg expire name value msg res go go' kept result enc dec bare h =
      let hit =
        relay_and_keep-from_cache ch.attempts ch'.visit reqmsg.method c c' expire (negsuc 59)
          (negsuc 59) name value msg res go go' refl (omega arith) result enc dec bare
          (solana_relays ch (some c) c' reqmsg expire (answered name msg) kept h) in
      rw (kept, delegate_rpc, hit) refl
