-- ===== src/Cache/Fetch.antt =====
-- What a reply from the cache is, and a result that is kept and fetched again.
use mathlib.Core.List.Permᴰ
use nodemux.Common.{
  ℕ, String, true, Option, none, some, List, [], ◌∷◌, map, ite, String_discrete, lookup, ℤ, All,
  Any, Any-perm, ◌≡◌, refl, sym, ap, ◌∙◌, subst, inl, inr, Bool-cases, Option-cases, if_pos, if_neg,
}
use nodemux.Chain.{ChainRef, ChainRef_discrete}
use nodemux.Endpoint.{available}
use nodemux.EndpointSet.{Entry, EndpointSet}
use nodemux.Multiplexer.{Multiplexer, Runtime, IsGo, height_over}
use nodemux.Relay.{cache_keys_over, request_cache_keys}
use nodemux.Cache.{
  CacheRedis, cache_prefix, first_hit, jsonrpc_cache_get, jsonrpc_cache_fetch, jsonrpc_cache_update,
}

-- Redis as documented, with no errors but for an `mget` of no keys: `read` is the text that a key holds.
pub record IsCacheRedis (redis : CacheRedis) : Type 0 where
  pub read : CacheRedis.Store redis → String → Option String
  pub mget_none : (c : CacheRedis.Store redis) → redis.mget c [] ≡ none
  pub mget_result :
      (c : CacheRedis.Store redis) (k : String) (keys : List String)
      → redis.mget c (k ∷ keys) ≡ some (map (read c) (k ∷ keys))
  pub set_read :
      (c : CacheRedis.Store redis) (key value : String) (expiration : ℤ) (k : String)
      → read (redis.set c key value expiration).0 k
        ≡ ite (String_discrete k key) (some value) (read c k)

-- The first hit is a text of one of the keys.
first_hit-map {ℓ} :
    {V : Type ℓ} (decode : String → Option V) (read : String → Option String) (keys : List String)
    (v : V)
    → first_hit decode (map read keys) ≡ some v
    → (text : String) × (decode text ≡ some v) × Any (λ k. read k ≡ some text) keys
unfolding first_hit
first_hit-map decode read [] v h = absurd cc
first_hit-map decode read (k ∷ keys) v h = elim (Option-cases (read k)) [
  | inl e ↦
      let (text, d, any) = first_hit-map decode read keys v (rw (e, first_hit) at h) in
      (text, d, inr any)
  | inr (text, e) ↦ (text, (rw (e, first_hit) at h), inl e)
]

-- The only text that is there is the first hit.
first_hit-only {ℓ} :
    {V : Type ℓ} (decode : String → Option V) (read : String → Option String) (key value : String)
    (v : V) (keys : List String)
    → decode value ≡ some v
    → Any (λ k. k ≡ key) keys
    → All (λ k. read k ≡ none) keys
    → first_hit decode (map (λ k. ite (String_discrete k key) (some value) (read k)) keys) ≡ some v
unfolding first_hit
first_hit-only decode read key value v [] d any bare = absurd any
first_hit-only decode read key value v (k ∷ keys) d any bare = elim (String_discrete k key) [
  | yes p ↦ rw (if_pos (String_discrete k key) p (some value) (read k)) d
  | no p ↦ elim any [
    | inl here ↦ absurd (p here)
    | inr there ↦
        rw (if_neg (String_discrete k key) p (some value) (read k), bare.0)
          (first_hit-only decode read key value v keys d there bare.1)
  ]
]

first_hit_alike {ℓ} :
    {V : Type ℓ} (decode : String → Option V) (read read' : String → Option String)
    (keys : List String)
    → ((k : String) → read k ≡ read' k)
    → first_hit decode (map read keys) ≡ first_hit decode (map read' keys)
first_hit_alike decode read read' keys same =
    ap (λ f. first_hit decode (map f keys)) (λ i k. same k i)

-- The keys are those of the endpoints that are available.
Any-cache_keys :
    (key : String → String) (m : Multiplexer) (method : String) (height : ℤ) (P : String → Type 0)
    (order : List Entry)
    → Any P (cache_keys_over key m method height order)
    → Any (λ e. (available (m.heap e.1) method height ≡ true) × P (key (m.heap e.1).name)) order
unfolding cache_keys_over
Any-cache_keys key m method height P [] any = absurd any
Any-cache_keys key m method height P ((name, addr) ∷ rest) any =
    elim (Bool-cases (available (m.heap addr) method height)) [
      | inr no_use ↦
          inr (Any-cache_keys key m method height P rest (rw (no_use, cache_keys_over) at any))
      | inl usable ↦ elim (rw (usable, cache_keys_over) at any) [
        | inl p ↦ inl (usable, p)
        | inr p ↦ inr (Any-cache_keys key m method height P rest p)
      ]
    ]

cache_keys-Any :
    (key : String → String) (m : Multiplexer) (method : String) (height : ℤ) (addr : ℕ)
    (order : List Entry)
    → available (m.heap addr) method height ≡ true
    → Any (λ e. e.1 ≡ addr) order
    → Any (λ k. k ≡ key (m.heap addr).name) (cache_keys_over key m method height order)
unfolding cache_keys_over
cache_keys-Any key m method height addr [] usable any = absurd any
cache_keys-Any key m method height addr ((name, a) ∷ rest) usable (inl here) =
    rw (here, usable) (inl refl)
cache_keys-Any key m method height addr ((name, a) ∷ rest) usable (inr there) =
    elim (Bool-cases (available (m.heap a) method height)) [
      | inr no_use ↦ rw no_use (cache_keys-Any key m method height addr rest usable there)
      | inl ok ↦ rw ok (inr (cache_keys-Any key m method height addr rest usable there))
    ]

module _ (redis : CacheRedis) (real : IsCacheRedis redis) {V : Type 0} (encode : V → Option String)
    (decode : String → Option V) (key : String → String) (r : Runtime) (go : IsGo r)
    (m : Multiplexer) (chain : ChainRef) (s : EndpointSet)
    (found : lookup ChainRef_discrete chain m.chain_index ≡ some s) where
  -- The endpoint is in the set of the chain and available, and its key holds the text.
  abbrev pub IsKept : CacheRedis.Store redis → String → ℤ → String → Entry → Type 0
  IsKept c method height text e =
      (available (m.heap e.1) method height ≡ true)
      × (real.read c (key (cache_prefix (m.heap e.1).name)) ≡ some text)

  abbrev keys_of : String → ℤ → List String
  keys_of method height_spec =
      cache_keys_over (λ name. key (cache_prefix name)) m method (height_over s height_spec)
        (r.visit s.items)

  keys_found :
      (method : String) (height_spec : ℤ)
      → request_cache_keys (λ name. key (cache_prefix name)) r m chain method height_spec
        ≡ keys_of method height_spec
  unfolding request_cache_keys
  keys_found method height_spec = rw (found, request_cache_keys) refl

  mget-first_hit :
      (c : CacheRedis.Store redis) (keys : List String)
      → (elim (redis.mget c keys) [ none ↦ none | some values ↦ first_hit decode values ])
        ≡ first_hit decode (map (real.read c) keys)
  unfolding first_hit
  mget-first_hit c [] = rw (real.mget_none c) refl
  mget-first_hit c (k ∷ keys) = rw (real.mget_result c k keys) refl

  fetch-first_hit :
      (c : CacheRedis.Store redis) (method : String) (height_spec : ℤ)
      → jsonrpc_cache_fetch redis encode decode key r m (some c) chain method height_spec
        ≡ first_hit decode (map (real.read c) (keys_of method height_spec))
  unfolding jsonrpc_cache_fetch jsonrpc_cache_get
  fetch-first_hit c method height_spec =
      rw (jsonrpc_cache_get, keys_found method height_spec)
        (mget-first_hit c (keys_of method height_spec))

  -- A reply from the cache decodes a text kept under the key of an endpoint of the chain that is
  -- available for the method at the height asked for.
  pub jsonrpc_cache_fetch-IsKept :
      (c : CacheRedis.Store redis) (method : String) (height_spec : ℤ) (v : V)
      → jsonrpc_cache_fetch redis encode decode key r m (some c) chain method height_spec ≡ some v
      → (text : String) × (decode text ≡ some v)
        × Any (IsKept c method (height_over s height_spec) text) s.items
  jsonrpc_cache_fetch-IsKept c method height_spec v h =
      let (text, d, any) =
        first_hit-map decode (real.read c) (keys_of method height_spec) v
          (sym (fetch-first_hit c method height_spec) ∙ h) in
      (
        text,
        d,
        Any-perm _ (go.visits_all s.items) (
            Any-cache_keys (λ name. key (cache_prefix name)) m method (height_over s height_spec) _
              (r.visit s.items) any),
      )

  -- A result that is kept for an endpoint of the chain is fetched for the same request, as long as the
  -- endpoint is available for it and no other key of the request holds a text.
  pub jsonrpc_cache_fetch-update :
      (c : CacheRedis.Store redis) (method value : String) (height_spec expiration : ℤ) (addr : ℕ)
      (v : V)
      → encode v ≡ some value
      → decode value ≡ some v
      → Any (λ e. e.1 ≡ addr) s.items
      → available (m.heap addr) method (height_over s height_spec) ≡ true
      → All
          (λ k. real.read c k ≡ none)
          (request_cache_keys (λ name. key (cache_prefix name)) r m chain method height_spec)
      → jsonrpc_cache_fetch redis encode decode key r m
          (jsonrpc_cache_update redis encode decode key m (some c) (some addr) v expiration)
          chain
          method
          height_spec
        ≡ some v
  unfolding jsonrpc_cache_update
  jsonrpc_cache_fetch-update c method value height_spec expiration addr v e d inside usable bare =
      let keys = keys_of method height_spec in
      let own = key (cache_prefix (m.heap addr).name) in
      let c' = (redis.set c own value expiration).0 in
      let has_own =
        cache_keys-Any (λ name. key (cache_prefix name)) m method (height_over s height_spec) addr
          (r.visit s.items) usable (Any-perm _ (Permᴰ.symm (go.visits_all s.items)) inside) in
      rw (e, jsonrpc_cache_update)
        (fetch-first_hit c' method height_spec
          ∙ first_hit_alike decode (real.read c')
              (λ k. ite (String_discrete k own) (some value) (real.read c k)) keys
              (real.set_read c own value expiration)
          ∙ first_hit-only decode (real.read c) own value v keys d has_own
              (subst (All (λ k. real.read c k ≡ none)) (keys_found method height_spec) bare))
