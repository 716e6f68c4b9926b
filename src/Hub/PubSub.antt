-- ===== src/Hub/PubSub.antt =====
-- core/redis_chain_hub.go: the hub that publishes in Redis and keeps a snapshot for each chain there.
-- What the commands answer is an argument.
use nodemux.Common.{ℕ, Option, none, some, List, [], ◌∷◌, ◌++◌}
use nodemux.Sync.{ChainStatus}
use nodemux.Hub.Channels.{Channels, send, broadcast, remove_sub}
use nodemux.Hub.Stream.{HubError, fine, network, other, handle_redis_error}

pub record RedisChainhub : Type 0 where
  pub subs : List ℕ
  pub sent : Channels

-- What `Get` answers for the key of a snapshot: an error, or a text that may not be a status.
pub data Snapshot : Type 0 where
  get_failed : HubError → Snapshot
  unreadable : Snapshot
  snapshot : ChainStatus → Snapshot

-- The loop of `subscribe`: the snapshots up to the first error are sent.
unfoldable pub send_snapshots : ℕ → List Snapshot → Channels → Channels
unfolding send
send_snapshots ch [] sent = sent
send_snapshots ch (get_failed err ∷ rest) sent = sent
send_snapshots ch (unreadable ∷ rest) sent = sent
send_snapshots ch (snapshot chain_st ∷ rest) sent = send_snapshots ch rest (send sent ch chain_st)

unfoldable pub snapshots_error : List Snapshot → HubError
snapshots_error [] = fine
snapshots_error (get_failed err ∷ rest) = err
snapshots_error (unreadable ∷ rest) = other
snapshots_error (snapshot chain_st ∷ rest) = snapshots_error rest

-- What `Run` takes: a subscription, with the answer of `Keys` or its error and those of `Get`; the end of
-- one; or a status, with the errors of `Publish` and `Set`.
pub data PubSubEvent : Type 0 where
  sub_failed : ℕ → HubError → PubSubEvent
  sub : ℕ → List Snapshot → PubSubEvent
  unsub : ℕ → PubSubEvent
  pub_status : HubError → HubError → PubSubEvent

-- `subscribe`, `unsubscribe` and `publishChainStatus`, of which the last changes Redis only.
unfoldable pub handle : PubSubEvent → RedisChainhub → RedisChainhub
unfolding send_snapshots remove_sub
handle (sub_failed ch err) h = record h { subs = h.subs ++ ch ∷ [] }
handle (sub ch snapshots) h = record h {
  subs = h.subs ++ ch ∷ [];
  sent = send_snapshots ch snapshots h.sent;
}
handle (unsub ch) h = record h { subs = remove_sub ch h.subs }
handle (pub_status publish_err set_err) h = h

unfoldable pub first_error : HubError → HubError → HubError
first_error fine next = next
first_error network next = network
first_error other next = other

unfoldable pub error_of : PubSubEvent → HubError
unfolding first_error snapshots_error
error_of (sub_failed ch err) = err
error_of (sub ch snapshots) = snapshots_error snapshots
error_of (unsub ch) = fine
error_of (pub_status publish_err set_err) = first_error publish_err set_err

-- The failures counted after an event, and the error that ends `Run`; unsubscribing does not count.
unfoldable pub count_event : ℕ → PubSubEvent → ℕ × HubError
unfolding error_of handle_redis_error
count_event network_failure (sub_failed ch err) = handle_redis_error network_failure err
count_event network_failure (sub ch snapshots) =
    handle_redis_error network_failure (snapshots_error snapshots)
count_event network_failure (unsub ch) = (network_failure, fine)
count_event network_failure (pub_status publish_err set_err) =
    handle_redis_error network_failure (first_error publish_err set_err)

-- `Run`, over the events that it takes.
unfoldable pub run : ℕ → List PubSubEvent → RedisChainhub → RedisChainhub × HubError
unfolding handle count_event
run network_failure [] h = (h, fine)
run network_failure (event ∷ rest) h =
    let later = run (count_event network_failure event).0 rest (handle event h) in
    elim (count_event network_failure event).1 [
      | fine ↦ later
      | network ↦ (handle event h, network)
      | other ↦ (handle event h, other)
    ]

-- The loop of `listen` over the messages: each status goes to the channels subscribed when it arrives,
-- up to a message that cannot be read, the error.
unfoldable pub listen : List (Option ChainStatus) → RedisChainhub → RedisChainhub × HubError
unfolding broadcast
listen [] h = (h, fine)
listen (none ∷ rest) h = (h, other)
listen (some chain_st ∷ rest) h = listen rest (record h { sent = broadcast h.sent h.subs chain_st })
