-- ===== src/Instance.antt =====
-- core/multiplexer.go: how the multiplexer is made from the configuration, and the one that the process
-- keeps.
use nodemux.Common.{ℕ, String, false, Option, none, some, List, [], Outcome, done, ◌>>=◌, or_panic}
use nodemux.Endpoint.{EndpointConfig}
use nodemux.EndpointSet.{Heap}
use nodemux.Multiplexer.{Multiplexer, load_endpoints}
use nodemux.Factory.{DelegatorFactory, support_chain}
use nodemux.Config.{NodemuxConfig}
use nodemux.Clients.{Url, Clients, RedisClient, redis_client}
use nodemux.System.{stop_sync}

-- An empty multiplexer, on the memory as it is.
unfoldable pub new_multiplexer : Heap → ℕ → Multiplexer
new_multiplexer heap next = record {
  heap = heap;
  next = next;
  name_index = [];
  chain_index = [];
  syncing = false;
}

-- The hub of the record's field `chainHub`.
pub data Chainhub : Type 0 where
  memory_hub : Chainhub
  redis_stream_hub : RedisClient → Chainhub

unfoldable pub hub_of : Option RedisClient → Chainhub
hub_of none = memory_hub
hub_of (some rdb) = redis_stream_hub rdb

unfoldable pub new_clients : NodemuxConfig → Clients
new_clients cfg = record { stores = some cfg.stores; redis_clients = []; connected = 0 }

-- `visit` is the order in which the loop visits the configured endpoints.
unfoldable pub multiplexer_from_config :
    {D : Type 0}
    → (String → Option Url)
    → (String → String)
    → (List (String × EndpointConfig) → List (String × EndpointConfig))
    → DelegatorFactory D
    → NodemuxConfig
    → Heap
    → ℕ
    → Outcome (Multiplexer × Chainhub × Clients)
unfolding new_multiplexer hub_of new_clients load_endpoints redis_client support_chain
multiplexer_from_config parse_url digest visit f cfg heap next =
    load_endpoints digest (λ namespace. (support_chain f namespace).0) (visit cfg.endpoints)
      (new_multiplexer heap next)
    >>= λ m. redis_client parse_url "default" (new_clients cfg) >>= λ (clients, rdb).
        done (m, hub_of rdb, clients)

-- The variable `_instance`.
unfoldable pub get_multiplexer : Option Multiplexer → Outcome Multiplexer
get_multiplexer instance' = or_panic instance'

-- The multiplexer that was there before stops, and is returned as it is then.
unfoldable pub set_multiplexer :
    Option Multiplexer → Multiplexer → Option Multiplexer × Option Multiplexer
unfolding stop_sync
set_multiplexer none b = (none, some b)
set_multiplexer (some old) b = (some (stop_sync old), some b)
