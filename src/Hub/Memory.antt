-- ===== src/Hub/Memory.antt =====
-- core/memory_chain_hub.go. The commands and statuses that `Run` receives are the events, in the order
-- in which its `select` takes them.
use nodemux.Common.{ℕ, List, [], ◌∷◌, ◌++◌, map, insert}
use nodemux.Chain.{ChainRef, ChainRef_discrete}
use nodemux.Sync.{ChainStatus}
use nodemux.Hub.Channels.{Channels, broadcast, send_all, remove_sub}

-- `sent` stands for the subscribers' channels.
pub record MemoryChainhub : Type 0 where
  pub subs : List ℕ
  pub snapshots : List (ChainRef × ChainStatus)
  pub sent : Channels

unfoldable pub new_memory_chainhub : Channels → MemoryChainhub
new_memory_chainhub sent = record { subs = []; snapshots = []; sent = sent }

-- `visit` is the order in which the loop visits the snapshots.
unfoldable pub subscribe :
    (List (ChainRef × ChainStatus) → List (ChainRef × ChainStatus))
    → ℕ
    → MemoryChainhub
    → MemoryChainhub
unfolding send_all
subscribe visit ch h = record h {
  subs = h.subs ++ ch ∷ [];
  sent = send_all h.sent ch (map (λ e. e.1) (visit h.snapshots));
}

unfoldable pub unsubscribe : ℕ → MemoryChainhub → MemoryChainhub
unfolding remove_sub
unsubscribe ch h = record h { subs = remove_sub ch h.subs }

-- The case of `Run` for a published status.
unfoldable pub publish : ChainStatus → MemoryChainhub → MemoryChainhub
unfolding broadcast
publish chain_st h = record h {
  snapshots = insert ChainRef_discrete chain_st.chain chain_st h.snapshots;
  sent = broadcast h.sent h.subs chain_st;
}

pub data HubEvent : Type 0 where
  sub unsub : ℕ → HubEvent
  pub_status : ChainStatus → HubEvent

unfoldable pub handle :
    (List (ChainRef × ChainStatus) → List (ChainRef × ChainStatus))
    → HubEvent
    → MemoryChainhub
    → MemoryChainhub
unfolding subscribe unsubscribe publish
handle visit (sub ch) h = subscribe visit ch h
handle visit (unsub ch) h = unsubscribe ch h
handle visit (pub_status chain_st) h = publish chain_st h

-- `Run`, over the events that it takes before its context is done.
unfoldable pub run :
    (List (ChainRef × ChainStatus) → List (ChainRef × ChainStatus))
    → List HubEvent
    → MemoryChainhub
    → MemoryChainhub
unfolding handle
run visit [] h = h
run visit (event ∷ rest) h = run visit rest (handle visit event h)
