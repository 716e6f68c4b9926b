-- ===== src/Presence/Store.antt =====
-- chains/presence_cache.go: what the cache learns of an endpoint. The commands of Redis that are used
-- are the parameter `PresenceRedis`.
use nodemux.Common.{
  ℕ, pos, ◌<◌, String, Bool, true, List, [], ◌∷◌, if◌then◌else◌, ℤ, All, Any, ◌≡◌, refl, sym, subst,
}
use nodemux.Chain.{ChainRef}
use nodemux.Presence.{presence_cache_key}

-- The Booleans tell whether a command succeeded.
pub record PresenceRedis : Type 1 where
  pub Store : Type 0
  pub sadd : Store → String → String → Store × Bool
  pub expire : Store → String → ℤ → Store × Bool

-- The loop over the transactions, which ends at the first error.
unfoldable pub presence_cache_update :
    (redis : PresenceRedis)
    → ChainRef
    → List String
    → String
    → ℤ
    → PresenceRedis.Store redis
    → PresenceRedis.Store redis
presence_cache_update redis chain [] ep_name expire_after c = c
presence_cache_update redis chain (txid ∷ rest) ep_name expire_after c =
    let key = presence_cache_key chain txid in
    let (c', added) = redis.sadd c key ep_name in
    let (c'', timed) = redis.expire c' key expire_after in
    let later = presence_cache_update redis chain rest ep_name expire_after c'' in
    if added then (if timed then later else c'') else c'

-- Redis as documented, without errors; a positive expiry is still to come. `read` is the set that a key holds.
pub record IsPresenceRedis (redis : PresenceRedis) : Type 0 where
  pub read : PresenceRedis.Store redis → String → List String
  pub sadd_result :
      (c : PresenceRedis.Store redis) (key name : String) → (redis.sadd c key name).1 ≡ true
  pub sadd_read :
      (c : PresenceRedis.Store redis) (key name : String)
      → Any (λ x. x ≡ name) (read (redis.sadd c key name).0 key)
  pub sadd_keeps :
      (c : PresenceRedis.Store redis) (key name k x : String)
      → Any (λ y. y ≡ x) (read c k)
      → Any (λ y. y ≡ x) (read (redis.sadd c key name).0 k)
  pub expire_result :
      (c : PresenceRedis.Store redis) (key : String) (span : ℤ) → (redis.expire c key span).1 ≡ true
  pub expire_read :
      (c : PresenceRedis.Store redis) (key : String) (span : ℕ) (k : String)
      → 0 < span
      → read (redis.expire c key (pos span)).0 k ≡ read c k

module _ (redis : PresenceRedis) (real : IsPresenceRedis redis) (chain : ChainRef)
    (ep_name : String) (expire_after : ℕ) (some_time : 0 < expire_after) where
  -- The store after one transaction.
  abbrev learnt : PresenceRedis.Store redis → String → PresenceRedis.Store redis
  learnt c txid =
      (redis.expire (redis.sadd c (presence_cache_key chain txid) ep_name).0
        (presence_cache_key chain txid) (pos expire_after)).0

  update_cons :
      (txid : String) (rest : List String) (c : PresenceRedis.Store redis)
      → presence_cache_update redis chain (txid ∷ rest) ep_name (pos expire_after) c
        ≡ presence_cache_update redis chain rest ep_name (pos expire_after) (learnt c txid)
  unfolding presence_cache_update
  update_cons txid rest c =
      let key = presence_cache_key chain txid in
      rw
        (
          real.sadd_result c key ep_name,
          real.expire_result (redis.sadd c key ep_name).0 key (pos expire_after),
        )
        refl

  learnt_keeps :
      (c : PresenceRedis.Store redis) (txid k x : String)
      → Any (λ y. y ≡ x) (real.read c k)
      → Any (λ y. y ≡ x) (real.read (learnt c txid) k)
  learnt_keeps c txid k x there =
      let key = presence_cache_key chain txid in
      subst (Any (λ y. y ≡ x))
        (sym (real.expire_read (redis.sadd c key ep_name).0 key expire_after k some_time))
        (real.sadd_keeps c key ep_name k x there)

  learnt_here :
      (c : PresenceRedis.Store redis) (txid : String)
      → Any (λ y. y ≡ ep_name) (real.read (learnt c txid) (presence_cache_key chain txid))
  learnt_here c txid =
      let key = presence_cache_key chain txid in
      subst (Any (λ y. y ≡ ep_name))
        (sym (real.expire_read (redis.sadd c key ep_name).0 key expire_after key some_time))
        (real.sadd_read c key ep_name)

  -- On a Redis without errors a member of a set stays one, for a positive time to expire.
  pub presence_cache_update-keeps :
      (txids : List String) (c : PresenceRedis.Store redis) (k x : String)
      → Any (λ y. y ≡ x) (real.read c k)
      → Any
          (λ y. y ≡ x)
          (real.read (presence_cache_update redis chain txids ep_name (pos expire_after) c) k)
  unfolding presence_cache_update
  presence_cache_update-keeps [] c k x there = there
  presence_cache_update-keeps (txid ∷ rest) c k x there =
      subst (λ t. Any (λ y. y ≡ x) (real.read t k)) (sym (update_cons txid rest c))
        (presence_cache_update-keeps rest (learnt c txid) k x (learnt_keeps c txid k x there))

  -- On a Redis without errors, for a positive time to expire, the endpoint is then a member of the set of
  -- each of the transactions.
  pub presence_cache_update-members :
      (txids : List String) (c : PresenceRedis.Store redis)
      → All
          (λ txid.
            Any
              (λ y. y ≡ ep_name)
              (real.read
                (presence_cache_update redis chain txids ep_name (pos expire_after) c)
                (presence_cache_key chain txid)))
          txids
  unfolding presence_cache_update
  presence_cache_update-members [] c = tt
  presence_cache_update-members (txid ∷ rest) c =
      subst
        (λ t.
          All (λ id. Any (λ y. y ≡ ep_name) (real.read t (presence_cache_key chain id)))
            (txid ∷ rest))
        (sym (update_cons txid rest c))
        (
          presence_cache_update-keeps rest (learnt c txid) (presence_cache_key chain txid) ep_name
              (learnt_here c txid),
          presence_cache_update-members rest (learnt c txid),
        )
