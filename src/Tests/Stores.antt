-- ===== src/Tests/Stores.antt =====
-- Runs of the Redis clients, of the caches and of the delegators that use them.
use Prim.Native.String.{◌++◌}
use nodemux.Common.{
  arith, ℕ, String, true, Option, none, some, List, [], ◌∷◌, map, ite, if_pos, if_neg, pos, negsuc,
  All, Any, String_discrete, done, ◌≡◌, is_empty, atoi, add_int, refl, sym, subst, inl, inr,
}
use nodemux.Endpoint.{available}
use nodemux.EndpointSet.{weighted_random, append_weight, must_get}
use nodemux.Clients.{Url, Clients, RedisOptions, RedisClient, redis_client}
use nodemux.Clients.Again.{redis_client-again}
use nodemux.Cache.{CacheRedis, jsonrpc_cache_fetch, jsonrpc_cache_update}
use nodemux.Cache.Fetch.{
  IsCacheRedis, IsKept, jsonrpc_cache_fetch-IsKept, jsonrpc_cache_fetch-update,
}
use nodemux.Multiplexer.{height_over, select_over_height}
use nodemux.Presence.{presence_cache_key}
use nodemux.Presence.Store.{
  PresenceRedis, IsPresenceRedis, presence_cache_update, presence_cache_update-members,
}
use nodemux.Relay.{answered, request_cache_keys}
use nodemux.Delegate.{Request, Choices, cached, relayed}
use nodemux.Delegate.Solana.{delegate_rpc, solana_cachable_methods}
use nodemux.Delegate.Repeat.{solana_repeat}
use nodemux.Tests.Core.{two_set, two_set_found, two_total}
use nodemux.Tests.{two, two-Inv, steady, steady-IsGo, model, eosio}

abbrev redis_url : String → Option Url
redis_url url = some (record {
  scheme = "redis";
  host = "127.0.0.1:6379";
  username = "";
  password = none;
  path = "/3";
})

abbrev unconnected : Clients
unconnected = record {
  stores = some (("default", "redis://127.0.0.1:6379/3") ∷ []);
  redis_clients = [];
  connected = 0;
}

abbrev options : RedisOptions
options = record { addr = "127.0.0.1:6379"; username = ""; password = ""; db = pos 3 }

abbrev client : RedisClient
client = record { number = 0; options = options }

abbrev with_client : Clients
with_client = record unconnected { redis_clients = ("default", client) ∷ []; connected = 1 }

first_time : redis_client redis_url "ratelimit" unconnected ≡ done (with_client, some client)
unfolding redis_client model is_empty atoi
first_time = refl

redis_client-again_example :
    redis_client redis_url "ratelimit" with_client ≡ done (with_client, some client)
redis_client-again_example =
    redis_client-again redis_url "ratelimit" unconnected with_client (some client) first_time

-- A server that never forgets a key.
abbrev texts_of : (String → Option String) → List String → Option (List (Option String))
texts_of c [] = none
texts_of c (k ∷ keys) = some (map c (k ∷ keys))

abbrev texts : CacheRedis
texts = record {
  Store = String → Option String;
  mget = texts_of;
  set = λ c key value expiration. ((λ k. ite (String_discrete k key) (some value) (c k)), true);
}

abbrev texts-IsCacheRedis : IsCacheRedis texts
texts-IsCacheRedis = record {
  read = λ c. c;
  mget_none = λ c. refl;
  mget_result = λ c k keys. refl;
  set_read = λ c key value expiration k. refl;
}

abbrev nothing : String → Option String
nothing = λ k. none

abbrev as_text : String → Option String
as_text v = some v

abbrev request_key : String → String
request_key prefix = prefix ++ "getSlot"

abbrev kept : String → Option String
kept = λ k. ite (String_discrete k "CC/tron01/getSlot") (some "7") none

fetched_seven :
    jsonrpc_cache_fetch texts as_text as_text request_key steady two
      (some kept)
      eosio
      "getSlot"
      (negsuc 59)
    ≡ some "7"
unfolding jsonrpc_cache_fetch model request_cache_keys available add_int
fetched_seven = refl

jsonrpc_cache_fetch-IsKept_example :
    (text : String) × (as_text text ≡ some "7")
    × Any
        (IsKept texts texts-IsCacheRedis as_text as_text request_key steady steady-IsGo two eosio
          two_set two_set_found kept "getSlot"
          (height_over two_set (negsuc 59))
          text)
        two_set.items
jsonrpc_cache_fetch-IsKept_example =
    jsonrpc_cache_fetch-IsKept texts texts-IsCacheRedis as_text as_text request_key steady
      steady-IsGo two eosio two_set two_set_found kept "getSlot" (negsuc 59) "7" fetched_seven

none_kept : (keys : List String) → All (λ k. nothing k ≡ none) keys
none_kept [] = tt
none_kept (k ∷ keys) = (refl, none_kept keys)

jsonrpc_cache_fetch-update_example :
    jsonrpc_cache_fetch texts as_text as_text request_key steady two
      (jsonrpc_cache_update texts as_text as_text request_key two
        (some nothing)
        (some 1)
        "7"
        (pos 4))
      eosio
      "getSlot"
      (negsuc 59)
    ≡ some "7"
unfolding model available height_over add_int
jsonrpc_cache_fetch-update_example =
    jsonrpc_cache_fetch-update texts texts-IsCacheRedis as_text as_text request_key steady
      steady-IsGo two eosio two_set two_set_found nothing "getSlot" "7" (negsuc 59) (pos 4) 1 "7"
      refl refl (inr (inl refl)) refl (none_kept _)

-- A server that keeps a set for each key.
abbrev sets : PresenceRedis
sets = record {
  Store = String → List String;
  sadd = λ c key name. ((λ k. ite (String_discrete k key) (name ∷ c k) (c k)), true);
  expire = λ c key span. (c, true);
}

added :
    (c : String → List String) (key name : String)
    → Any (λ x. x ≡ name) ((sets.sadd c key name).0 key)
added c key name =
    subst (Any (λ x. x ≡ name)) (sym (if_pos (String_discrete key key) refl (name ∷ c key) (c key)))
      (inl refl)

still :
    (c : String → List String) (key name k x : String)
    → Any (λ y. y ≡ x) (c k)
    → Any (λ y. y ≡ x) ((sets.sadd c key name).0 k)
still c key name k x there = elim (String_discrete k key) [
  | yes p ↦
      subst (Any (λ y. y ≡ x)) (sym (if_pos (String_discrete k key) p (name ∷ c k) (c k)))
        (inr there)
  | no p ↦
      subst (Any (λ y. y ≡ x)) (sym (if_neg (String_discrete k key) p (name ∷ c k) (c k))) there
]

abbrev sets-IsPresenceRedis : IsPresenceRedis sets
sets-IsPresenceRedis = record {
  read = λ c. c;
  sadd_result = λ c key name. refl;
  sadd_read = λ c key name. added c key name;
  sadd_keeps = λ c key name k x there. still c key name k x there;
  expire_result = λ c key span. refl;
  expire_read = λ c key span k some_time. refl;
}

presence_cache_update-members_example :
    All
      (λ txid.
        Any
          (λ y. y ≡ "tron01")
          (presence_cache_update sets eosio
            ("aa" ∷ "bb" ∷ [])
            "tron01"
            (pos 600)
            (λ k. [])
            (presence_cache_key eosio txid)))
      ("aa" ∷ "bb" ∷ [])
presence_cache_update-members_example =
    presence_cache_update-members sets sets-IsPresenceRedis eosio "tron01" 600 (omega arith)
      ("aa" ∷ "bb" ∷ []) (λ k. [])

-- What an endpoint answers.
abbrev seven : ℕ → Option String
seven = λ addr. some "7"

abbrev request : Request
request = record { method = "getSlot"; first_text = none; first_number = none }

abbrev choices : Choices
choices = record { visit = steady; attempts = λ n. steady; random = λ n. 0; members = λ txid. none }

relayed_seven :
    delegate_rpc texts as_text as_text request_key as_text seven choices two
      (some nothing)
      eosio
      request
    ≡ done (
      jsonrpc_cache_update texts as_text as_text request_key two
          (some nothing)
          (some 0)
          "7"
          (pos 4),
      relayed (answered "tron01" "7"),
    )
unfolding delegate_rpc model request_cache_keys available add_int select_over_height weighted_random
    append_weight must_get
relayed_seven = refl

solana_repeat_example :
    delegate_rpc texts as_text as_text request_key as_text seven choices two
      (jsonrpc_cache_update texts as_text as_text request_key two
        (some nothing)
        (some 0)
        "7"
        (pos 4))
      eosio
      request
    ≡ done (
      jsonrpc_cache_update texts as_text as_text request_key two
          (some nothing)
          (some 0)
          "7"
          (pos 4),
      cached "7",
    )
unfolding solana_cachable_methods model
solana_repeat_example =
    solana_repeat texts texts-IsCacheRedis as_text as_text request_key as_text seven two eosio
      two_set two-Inv two_set_found two_total choices choices nothing
      (jsonrpc_cache_update texts as_text as_text request_key two (some nothing) (some 0) "7"
        (pos 4))
      request (pos 4) "tron01" "7" "7" "7" (λ n. steady-IsGo) steady-IsGo refl refl refl refl
      (none_kept _) relayed_seven
