-- ===== src/Hub/Loops.antt =====
-- core/redis_stream_chain_hub.go: the two goroutines of the stream hub, `Run` and `listen`, with Redis as a
-- parameter. A run is a sequence of what the two do, one at a time: a command that `Run` takes, or a
-- round of the loop of `listen`.
use nodemux.Common.{
  ℕ, String, Bool, false, Option, none, some, List, [], ◌∷◌, is_empty, if◌then◌else◌,
}
use nodemux.Sync.{ChainStatus}
use nodemux.Hub.Stream.{
  StreamMessage, RedisStreamChainhub, HubError, fine, network, other, subscribe, unsubscribe,
  pass_on, handle_redis_error,
}

-- The commands on the stream. An answer is `none` with the error, or there with `fine`. `xrange_n` asks
-- for the entries behind an id, `xrevrange_n` for the latest ones, the latest first; `xadd` adds a
-- status, encoded under "cst", and keeps 1000 entries at most.
pub record StreamRedis : Type 1 where
  pub Store : Type 0
  pub xrevrange_n : Store → ℕ → Option (List StreamMessage) × HubError
  pub xrange_n : Store → String → ℕ → Option (List StreamMessage) × HubError
  pub xadd : Store → ChainStatus → Store × HubError

pub data StreamStep : Type 0 where
  sub unsub : ℕ → StreamStep
  pub_status : ChainStatus → StreamStep
  read : StreamStep

-- The state that the two goroutines share, and the variables of their loops.
pub record StreamHub (redis : StreamRedis) : Type 0 where
  pub store : StreamRedis.Store redis
  pub hub : RedisStreamChainhub
  pub network_failure : ℕ
  pub last_id : String
  pub listening : Bool

module _ (redis : StreamRedis) where
  open redis use {xrevrange_n, xrange_n, xadd}

  -- A command of `Run` that may fail: what it leaves, and its error.
  unfoldable pub counted : StreamHub redis → HubError → StreamHub redis × HubError
  unfolding handle_redis_error
  counted h err =
      let (network_failure, ends) = handle_redis_error h.network_failure err in
      (record h { network_failure = network_failure }, ends)

  unfoldable pub publish_chain_status : ChainStatus → StreamHub redis → StreamHub redis × HubError
  unfolding counted
  publish_chain_status chain_st h =
      let (store, err) = xadd h.store chain_st in counted (record h { store = store }) err

  unfoldable pub subscribe_channel : ℕ → StreamHub redis → StreamHub redis × HubError
  unfolding subscribe counted
  subscribe_channel ch h =
      let (revmsgs, failure) = xrevrange_n h.store 100 in
      let (hub, err) = subscribe revmsgs failure ch h.hub in counted (record h { hub = hub }) err

  -- The first round asks for the latest message, a later one for those behind the last.
  unfoldable pub next_messages : StreamHub redis → Option (List StreamMessage) × HubError
  next_messages h =
      if is_empty h.last_id then xrevrange_n h.store 1 else xrange_n h.store h.last_id 10

  unfoldable pub passed_on :
      StreamHub redis → RedisStreamChainhub × String × HubError → StreamHub redis
  passed_on h (hub, last_id, fine) = record h { hub = hub; last_id = last_id }
  passed_on h (hub, last_id, network) = record h { hub = hub; last_id = last_id; listening = false }
  passed_on h (hub, last_id, other) = record h { hub = hub; last_id = last_id; listening = false }

  -- A round of `listen`. Its error is dropped by `Run`, and the loop has ended.
  unfoldable pub listen_round : StreamHub redis → StreamHub redis
  unfolding next_messages pass_on passed_on
  listen_round h =
      if h.listening
      then (elim (next_messages h).0 [
        | none ↦ record h { listening = false }
        | some xmsgs ↦ passed_on h (pass_on h.last_id xmsgs h.hub)
      ])
      else h

  unfoldable pub handle : StreamStep → StreamHub redis → StreamHub redis × HubError
  unfolding subscribe_channel publish_chain_status listen_round unsubscribe
  handle (sub ch) h = subscribe_channel ch h
  handle (unsub ch) h = (record h { hub = unsubscribe ch h.hub }, fine)
  handle (pub_status chain_st) h = publish_chain_status chain_st h
  handle read h = (listen_round h, fine)

  -- The steps up to the error that ends `Run`, and so the hub.
  unfoldable pub run : List StreamStep → StreamHub redis → StreamHub redis × HubError
  unfolding handle
  run [] h = (h, fine)
  run (step ∷ rest) h =
      let later = run rest (handle step h).0 in
      elim (handle step h).1 [
        | fine ↦ later
        | network ↦ ((handle step h).0, network)
        | other ↦ ((handle step h).0, other)
      ]
