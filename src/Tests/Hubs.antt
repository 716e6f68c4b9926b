-- ===== src/Tests/Hubs.antt =====
-- Runs of the hubs.
use nodemux.Common.{String, true, none, some, List, [], ◌∷◌, ◌++◌, ◌≡◌, refl, lookup, arith, take}
use nodemux.Chain.{ChainRef_discrete}
use nodemux.Sync.{ChainStatus}
use nodemux.Hub.Channels.{Channels}
use nodemux.Hub.Memory.{MemoryChainhub, HubEvent, sub, unsub, pub_status, run}
use nodemux.Hub.Stream.{StreamMessage, network, replay}
use nodemux.Hub.Delivery.{count, published, last_of, run-delivers, run-snapshots}
use nodemux.Hub.Replay.{decoded, of_endpoint, replay-latest}
use nodemux.Hub.PubSub.{RedisChainhub, PubSubEvent, snapshot}
use nodemux.Hub.PubSub
use nodemux.Hub.Stream.{fine}
use nodemux.Hub.Failures.{run-fine, failures, failure}
use nodemux.Tests.{eosio}

abbrev pub of : String → ChainStatus
of name = record { endpoint_name = name; chain = eosio; blockhead = none; healthy = true }

abbrev pub silent : Channels
silent = λ ch. []

abbrev pub listening : MemoryChainhub
listening = record { subs = 5 ∷ 6 ∷ []; snapshots = []; sent = silent }

abbrev events : List HubEvent
events = pub_status (of "tron01") ∷ sub 7 ∷ unsub 6 ∷ pub_status (of "tron02") ∷ []

run-delivers_example :
    (run (λ s. s) events listening).sent 5 ≡ [] ++ published (count 5 listening.subs) events
run-delivers_example =
    run-delivers (λ s. s) 5 events listening
      (tt, ((λ e. omega (arith, e)), ((λ e. omega (arith, e)), (tt, tt))))

run-snapshots_example :
    lookup ChainRef_discrete eosio (run (λ s. s) events listening).snapshots
    ≡ last_of eosio events none
unfolding lookup
run-snapshots_example = run-snapshots (λ s. s) eosio events listening

abbrev messages : List StreamMessage
messages =
    record { id = "3-0"; status = some (of "tron01") }
    ∷ record { id = "2-0"; status = some (of "tron02") }
    ∷ record { id = "1-0"; status = some (of "tron01") }
    ∷ []

replay-latest_example :
    of_endpoint "tron01" ((replay 5 messages [] silent).0 5)
    ≡ take 1 (of_endpoint "tron01" (decoded messages))
replay-latest_example = replay-latest 5 "tron01" messages silent refl

abbrev redis_events : List PubSubEvent
redis_events =
    PubSub.sub 5 (snapshot (of "tron01") ∷ [])
    ∷ PubSub.pub_status network fine
    ∷ PubSub.sub_failed 6 network
    ∷ PubSub.unsub 5
    ∷ []

abbrev redis_hub : RedisChainhub
redis_hub = record { subs = []; sent = silent }

run-fine_example : (PubSub.run 3 redis_events redis_hub).1 ≡ fine
unfolding failures failure PubSub.error_of PubSub.first_error PubSub.snapshots_error
run-fine_example = run-fine 3 redis_events redis_hub (tt, (tt, (tt, (tt, tt)))) (omega arith)
