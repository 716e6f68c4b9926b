-- ===== src/Hub/Stream.antt =====
-- core/redis_stream_chain_hub.go: the hub that keeps the statuses in a Redis stream. The stream is not
-- part of the repository: what its commands answer is an argument, an error being `none`.
use nodemux.Common.{
  ℕ, ◌+◌, String, Bool, true, Option, none, some, List, [], ◌∷◌, ◌++◌, ltb, lookup, insert,
  String_discrete, if◌then◌else◌,
}
use nodemux.Sync.{ChainStatus}
use nodemux.Hub.Channels.{Channels, send, broadcast, remove_sub}

-- An entry of the stream: its id, and the status under "cst" if there is one that can be decoded.
pub record StreamMessage : Type 0 where
  pub id : String
  pub status : Option ChainStatus

pub record RedisStreamChainhub : Type 0 where
  pub subs : List ℕ
  pub sent : Channels

-- What ends a step of the hub: nothing, or an error, which may be one of the network.
pub data HubError : Type 0 where
  fine network other : HubError

unfoldable pub decode_chain_status : StreamMessage → Option ChainStatus
decode_chain_status xmsg = xmsg.status

-- The loop of `subscribe`, from the latest message back: the first status of each endpoint is sent.
unfoldable pub replay :
    ℕ → List StreamMessage → List (String × Bool) → Channels → Channels × HubError
unfolding send decode_chain_status
replay ch [] seen sent = (sent, fine)
replay ch (xmsg ∷ rest) seen sent = elim (decode_chain_status xmsg) [
  | none ↦ (sent, other)
  | some chain_st ↦ elim (lookup String_discrete chain_st.endpoint_name seen) [
    | some marked ↦ replay ch rest seen sent
    | none ↦
        replay ch rest (insert String_discrete chain_st.endpoint_name true seen)
          (send sent ch chain_st)
  ]
]

-- `revmsgs` is the answer for the last 100 messages, the latest first.
unfoldable pub subscribe :
    Option (List StreamMessage)
    → HubError
    → ℕ
    → RedisStreamChainhub
    → RedisStreamChainhub × HubError
unfolding replay
subscribe none failure ch h = (record h { subs = h.subs ++ ch ∷ [] }, failure)
subscribe (some revmsgs) failure ch h =
    let (sent, err) = replay ch revmsgs [] h.sent in
    (record h { subs = h.subs ++ ch ∷ []; sent = sent }, err)

unfoldable pub unsubscribe : ℕ → RedisStreamChainhub → RedisStreamChainhub
unfolding remove_sub
unsubscribe ch h = record h { subs = remove_sub ch h.subs }

-- The loop of `listen` over the messages of one answer: the id of the last one that was passed on.
unfoldable pub pass_on :
    String → List StreamMessage → RedisStreamChainhub → RedisStreamChainhub × String × HubError
unfolding broadcast decode_chain_status
pass_on last_id [] h = (h, last_id, fine)
pass_on last_id (xmsg ∷ rest) h = elim (decode_chain_status xmsg) [
  | none ↦ (h, last_id, other)
  | some chain_st ↦ pass_on xmsg.id rest (record h { sent = broadcast h.sent h.subs chain_st })
]

-- `handleRedisError`: the failures counted so far, and the error that ends `Run`.
unfoldable pub handle_redis_error : ℕ → HubError → ℕ × HubError
handle_redis_error network_failure fine = (0, fine)
handle_redis_error network_failure other = (network_failure, other)
handle_redis_error network_failure network =
    (network_failure + 1, if ltb 30 (network_failure + 1) then network else fine)
