-- ===== src/System.antt =====
-- core/sync.go, core/fetch.go and core/memory_chain_hub.go together, after `StartSync`: the loops that
-- ask the endpoints, the memory hub and the updater, which run at once and pass statuses through
-- bounded channels. A step is what one of them does between two points at which it may wait, and steps
-- are taken in any order. A send waits while its channel is full, so that it is a step of its own that
-- needs room; `sent` of the hub is what waits in the channel of each subscriber.
pub mod Order
pub mod View
pub mod Refinement
pub mod Drain
pub mod Start
pub mod Begun
pub mod Unheard
use nodemux.Common.{
  ℕ, suc, ◌≤◌, ◌<◌, String, true, false, Option, none, some, List, [], ◌∷◌, ◌++◌, map, insert,
  length, ite, ℕ_discrete, String_discrete, lookup, ◌≡◌, done, if◌then◌else◌,
}
use nodemux.Chain.{ChainRef, ChainRef_discrete}
use nodemux.Endpoint.{Block}
use nodemux.Multiplexer.{Multiplexer, Runtime, IsGo, update}
use nodemux.Sync.{ChainStatus, update_status, Answer, Fetched, get_blockhead}
use nodemux.Hub.Channels.{Channels, send, remove_sub}
use nodemux.Hub.Memory.{MemoryChainhub, new_memory_chainhub}

-- `make(chan ChainStatus, 100)` of the hub and `make(chan ChainStatus, 1000)` of the updater.
abbrev pub pub_capacity : ℕ
pub_capacity = 100

abbrev pub upd_capacity : ℕ
upd_capacity = 1000

-- The channel `upd` of the updater.
abbrev pub upd : ℕ
upd = 0

-- `pub_channel` is what waits in the hub's `pub`, `sending` the sends that the hub has still to make for
-- what it took last, and `last_blocks` the variable `lastBlock` of the loop of each endpoint.
pub record System : Type 0 where
  pub multiplexer : Multiplexer
  pub hub : MemoryChainhub
  pub pub_channel : List ChainStatus
  pub sending : List (ℕ × ChainStatus)
  pub last_blocks : ℕ → Option Block

abbrev pub no_statuses : Channels
no_statuses = λ ch. []

-- Nothing has been asked, published or subscribed.
unfoldable pub started : Multiplexer → System
unfolding new_memory_chainhub
started m = record {
  multiplexer = record m { syncing = true };
  hub = new_memory_chainhub no_statuses;
  pub_channel = [];
  sending = [];
  last_blocks = λ addr. none;
}

-- `StartSync` with the loops of the endpoints: nothing is started where it has been before.
unfoldable pub start_sync : Multiplexer → Option System
unfolding started
start_sync m = if m.syncing then none else some (started m)

unfoldable pub stop_sync : Multiplexer → Multiplexer
stop_sync m = if m.syncing then record m { syncing = false } else m

-- What the loop of an endpoint makes of an answer.
unfoldable pub fetched_by : System → ℕ → Answer → Fetched
unfolding get_blockhead
fetched_by s addr answer = get_blockhead (s.multiplexer.heap addr) (s.last_blocks addr) answer

unfoldable pub after_fetch : System → ℕ → Answer → System
unfolding fetched_by update
after_fetch s addr answer =
    let f = fetched_by s addr answer in
    record s {
      multiplexer = record s.multiplexer { heap = update s.multiplexer.heap addr f.endpoint };
      pub_channel = s.pub_channel ++ f.published;
      last_blocks = λ a. ite (ℕ_discrete a addr) f.last_block (s.last_blocks a);
    }

-- The hub takes a status from `pub` and is to send it to every subscriber.
unfoldable pub after_take : System → ChainStatus → List ChainStatus → System
after_take s cs rest = record s {
  hub = record s.hub { snapshots = insert ChainRef_discrete cs.chain cs s.hub.snapshots };
  pub_channel = rest;
  sending = map (λ ch. (ch, cs)) s.hub.subs;
}

unfoldable pub after_send : System → ℕ → ChainStatus → List (ℕ × ChainStatus) → System
unfolding send
after_send s ch cs rest = record s {
  hub = record s.hub { sent = send s.hub.sent ch cs };
  sending = rest;
}

-- The hub takes a subscription and is to send it the snapshots, in the order of their visit.
unfoldable pub after_sub : System → ℕ → List (ChainRef × ChainStatus) → System
after_sub s ch snapshots = record s {
  hub = record s.hub { subs = s.hub.subs ++ ch ∷ [] };
  sending = map (λ e. (ch, e.1)) snapshots;
}

unfoldable pub after_unsub : System → ℕ → System
unfolding remove_sub
after_unsub s ch = record s { hub = record s.hub { subs = remove_sub ch s.hub.subs } }

-- The updater has taken a status from its channel, and `updateStatus` ended with `m`.
unfoldable pub after_update : System → List ChainStatus → Multiplexer → System
after_update s rest m = record s {
  multiplexer = m;
  hub = record s.hub { sent = λ c. ite (ℕ_discrete c upd) rest (s.hub.sent c) };
}

pub data Event : Type 0 where
  fetched : ℕ → Answer → Event
  taken sent updated : Event
  joined left : ℕ → Event

pub data Step (s : System) : Event → System → Type 0 where
  fetch :
      (name : String) (addr : ℕ) (answer : Answer)
      → lookup String_discrete name s.multiplexer.name_index ≡ some addr
      → s.multiplexer.syncing ≡ true
      → length (s.pub_channel ++ (fetched_by s addr answer).published) ≤ pub_capacity
      → Step s (fetched addr answer) (after_fetch s addr answer)
  take :
      (cs : ChainStatus) (rest : List ChainStatus)
      → s.sending ≡ []
      → s.pub_channel ≡ cs ∷ rest
      → Step s taken (after_take s cs rest)
  pass :
      (ch : ℕ) (cs : ChainStatus) (rest : List (ℕ × ChainStatus))
      → s.sending ≡ (ch, cs) ∷ rest
      → length (s.hub.sent ch) < upd_capacity
      → Step s sent (after_send s ch cs rest)
  subscribe :
      (ch : ℕ) (visit : List (ChainRef × ChainStatus) → List (ChainRef × ChainStatus))
      → s.sending ≡ []
      → Step s (joined ch) (after_sub s ch (visit s.hub.snapshots))
  unsubscribe : (ch : ℕ) → s.sending ≡ [] → Step s (left ch) (after_unsub s ch)
  apply :
      (cs : ChainStatus) (rest : List ChainStatus) (r r' : Runtime) (m : Multiplexer)
      → IsGo r
      → IsGo r'
      → s.hub.sent upd ≡ cs ∷ rest
      → update_status r r' s.multiplexer cs ≡ done m
      → Step s updated (after_update s rest m)

-- The events of the steps from `s`, the latest first.
pub data Reach (s : System) : List Event → System → Type 0 where
  start : Reach s [] s
  later :
      {events : List Event} {event : Event} {t u : System}
      → Reach s events t
      → Step t event u
      → Reach s (event ∷ events) u
