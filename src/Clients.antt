-- ===== src/Clients.antt =====
-- core/redisutil.go: the clients of the configured stores, which are connected when they are first asked
-- for. `parse_url` is `url.Parse`, a library's; a client is told by its options and by which
-- of the clients of the multiplexer it is, as they are made.
pub mod Again
use Prim.Native.String.{String}
use nodemux.Common.{
  ℕ, suc, Bool, true, false, Option, none, some, List, [], ◌∷◌, if◌then◌else◌, ite, ℤ, pos, atoi,
  is_empty, String_discrete, lookup, insert, Outcome, done, panic, ◌>>=◌,
}

-- The parts of a URL that are used. No user information is an empty name with no password.
pub record Url : Type 0 where
  pub scheme : String
  pub host : String
  pub username : String
  pub password : Option String
  pub path : String

pub record RedisOptions : Type 0 where
  pub addr : String
  pub username : String
  pub password : String
  pub db : ℤ

-- What `redis.NewClient` makes: each call another client.
pub record RedisClient : Type 0 where
  pub number : ℕ
  pub options : RedisOptions

-- The tables `m.cfg.Stores`, `none` without a configuration or without stores, and `m.redisClients`;
-- `connected` counts the clients that have been made.
pub record Clients : Type 0 where
  pub stores : Option (List (String × String))
  pub redis_clients : List (String × RedisClient)
  pub connected : ℕ

-- `u.Path[1:]`, which panics on an empty path.
unfoldable pub path_rest : String → Outcome String
path_rest String.[] = panic
path_rest (String.◌∷◌ c s) = done s

unfoldable pub database : String → Option ℤ
database sdb = if is_empty sdb then some (pos 0) else atoi sdb

unfoldable pub options_of : Url → ℤ → RedisOptions
options_of u db = record {
  addr = u.host;
  username = u.username;
  password = elim u.password [ none ↦ "" | some pwd ↦ pwd ];
  db = db;
}

module _ (parse_url : String → Option Url) where
  -- `none` is an error.
  unfoldable pub get_redis_options : String → Outcome (Option RedisOptions)
  unfolding path_rest database options_of
  get_redis_options redis_url = elim (parse_url redis_url) [
    | none ↦ done none
    | some u ↦ path_rest u.path >>= λ sdb. elim (database sdb) [
      | none ↦ done none
      | some db ↦ done (some (options_of u db))
    ]
  ]

  unfoldable pub scheme : String → Outcome String
  scheme url = elim (parse_url url) [ none ↦ panic | some u ↦ done u.scheme ]

  -- The options of a client for the store of a URL: none unless the scheme is "redis".
  unfoldable pub new_client : String → Outcome (Option RedisOptions)
  unfolding get_redis_options scheme
  new_client url = scheme url >>= λ name.
      ite (String_discrete name "redis")
        (get_redis_options url >>= λ opts. elim opts [ none ↦ panic | some o ↦ done (some o) ])
        (done none)

  -- What the configured store of a selector gives.
  unfoldable pub store_client :
      String → Option (List (String × String)) → Outcome (Option RedisOptions)
  unfolding new_client
  store_client selector none = done none
  store_client selector (some stores) = elim (lookup String_discrete selector stores) [
    | none ↦ done none
    | some url ↦ new_client url
  ]

  -- A client is made for the options, and kept.
  unfoldable pub keep_client : String → Clients → Option RedisOptions → Clients × Option RedisClient
  keep_client selector m none = (m, none)
  keep_client selector m (some opts) =
      let c : RedisClient = record { number = m.connected; options = opts } in
      (
        record m {
          redis_clients = insert String_discrete selector c m.redis_clients;
          connected = suc m.connected;
        },
        some c,
      )

  unfoldable pub redis_client_exact : String → Clients → Outcome (Clients × Option RedisClient)
  unfolding store_client keep_client
  redis_client_exact selector m = elim (lookup String_discrete selector m.redis_clients) [
    | some c ↦ done (m, some c)
    | none ↦ store_client selector m.stores >>= λ made. done (keep_client selector m made)
  ]

  -- `RedisClient`: without a client of its own a selector gets the one of "default".
  unfoldable pub redis_client : String → Clients → Outcome (Clients × Option RedisClient)
  unfolding redis_client_exact
  redis_client selector m = redis_client_exact selector m >>= λ (m', found). elim found [
    | some c ↦ done (m', some c)
    | none ↦
        ite (String_discrete selector "default") (done (m', none)) (redis_client_exact "default" m')
  ]
