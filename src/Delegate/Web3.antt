-- ===== src/Delegate/Web3.antt =====
-- chains/web3.go: the head of a chain and the routing of a request. Of the results of a message only
-- those that are texts are told apart.
use nodemux.Common.{
  ℕ, String, Option, none, some, List, [], ◌∷◌, map, ite, ℤ, pos, negsuc, eqb_ℤ, wrap_int,
  if◌then◌else◌, String_discrete, lookup, Outcome, done, panic, ◌>>=◌,
}
use nodemux.Chain.{ChainRef}
use nodemux.Endpoint.{Endpoint}
use nodemux.Sync.{Answer, failed, got}
use nodemux.Multiplexer.{Multiplexer, Runtime}
use nodemux.Relay.{broadcast_rpc, default_relay_rpc}
use nodemux.Presence.{presence_cache_match_request}
use nodemux.Cache.{CacheRedis}
use nodemux.Web3.{
  Message, result, error, neither, RpcResult, answer, send_raw_transaction, get_transaction_count,
  block_request,
}
use nodemux.Web3
use nodemux.Delegate.{
  Served, own, cached, called, relayed, no_message, Request, Choices, from_cache, relay_and_keep,
  call_and_keep,
}

unfoldable pub web3_cachable_methods : List (String × ℤ)
web3_cachable_methods =
    ("eth_getBlockByNumber", pos 60)
    ∷ ("eth_getBlockByHash", pos 600)
    ∷ ("eth_getTransactionByHash", pos 600)
    ∷ ("eth_getTransactionByBlockHashAndIndex", pos 30)
    ∷ ("eth_getTransactionByBlockNumberAndIndex", pos 30)
    ∷ ("eth_getTransactionReceipt", pos 10)
    ∷ []

pub record Web3Block : Type 0 where
  pub number : String
  pub hash : String
  pub transactions : List String

unfoldable pub result_of : Message → Option (Option String)
result_of (result value) = some value
result_of (error code) = none
result_of neither = none

-- What one call of a broadcast gave.
unfoldable pub rpc_result : ℕ × Option Message → RpcResult
rpc_result (addr, none) = Web3.failed
rpc_result (addr, some msg) = answer msg

-- `decode` is the decoding of a hexadecimal number, `none` an error.
module _ (decode : String → Option ℕ) where
  -- `Height`: a number that cannot be decoded is a panic.
  unfoldable pub height : Web3Block → Outcome ℤ
  unfolding wrap_int
  height blk = elim (decode blk.number) [ none ↦ panic | some h ↦ done (wrap_int (pos h)) ]

  -- `GetBlockhead`, without the update of the presence cache, of the answer to
  -- "eth_getBlockByNumber", `none` an error.
  unfoldable pub get_blockhead : Option Web3Block → Outcome Answer
  unfolding height
  get_blockhead none = done failed
  get_blockhead (some bt) =
      height bt >>= λ h. done (got (some (record { height = h; hash = bt.hash })))

  -- The transactions that `GetBlockhead` puts into the presence cache: those of a block at another
  -- height than the head.
  unfoldable pub new_transactions : Endpoint → Web3Block → Outcome (List String)
  unfolding height
  new_transactions ep bt = elim ep.blockhead [
    | none ↦ done bt.transactions
    | some head ↦ height bt >>= λ h. done (if eqb_ℤ head.height h then [] else bt.transactions)
  ]

  module _ (redis : CacheRedis) (encode : Option String → Option String)
      (parse : String → Option (Option String)) (key : String → String) (call : ℕ → Option Message)
      (finish : List ℕ → List ℕ) where
    unfoldable pub broadcast_results : Runtime → Multiplexer → ChainRef → String → List RpcResult
    unfolding broadcast_rpc rpc_result
    broadcast_results r m chain method =
        map rpc_result (broadcast_rpc call finish r m chain method (negsuc 9))

    -- Without a result of the broadcast the request is relayed; else `best` is the choice among them.
    unfoldable pub best_or_relay :
        (ℕ → Runtime)
        → Multiplexer
        → ChainRef
        → String
        → List RpcResult
        → Outcome (Option Message)
        → Outcome (Served (Option String) Message)
    unfolding default_relay_rpc
    best_or_relay rs m chain method [] best =
        default_relay_rpc call rs m chain method (negsuc 4) >>= λ reply. done (relayed reply)
    best_or_relay rs m chain method (res ∷ results) best = best >>= λ msg. done (called msg)

    -- The part of `DelegateRPC` after the presence cache.
    unfoldable pub delegate_other :
        Choices
        → Multiplexer
        → Option (CacheRedis.Store redis)
        → ChainRef
        → Request
        → Option ℤ
        → Outcome (Option (CacheRedis.Store redis) × Served (Option String) Message)
    unfolding broadcast_results best_or_relay relay_and_keep result_of send_raw_transaction
        get_transaction_count
    delegate_other ch m c chain reqmsg expire =
        let results = broadcast_results ch.visit m chain reqmsg.method in
        ite (String_discrete reqmsg.method "eth_sendRawTransaction")
          (best_or_relay ch.attempts m chain reqmsg.method results (send_raw_transaction results)
            >>= λ served. done (c, served))
          (ite (String_discrete reqmsg.method "eth_getTransactionCount")
            (best_or_relay ch.attempts m chain reqmsg.method results
                (done (get_transaction_count decode results))
              >>= λ served. done (c, served))
            (relay_and_keep redis encode parse key result_of call ch.attempts m c chain
              reqmsg.method expire (negsuc 1)))

    -- An error of the call that the presence cache led to is dropped.
    unfoldable pub called_or_none : Option Message → Served (Option String) Message
    called_or_none none = no_message
    called_or_none (some msg) = called (some msg)

    unfoldable pub delegate_call :
        Choices
        → Multiplexer
        → Option (CacheRedis.Store redis)
        → ChainRef
        → Request
        → Option ℤ
        → Outcome (Option (CacheRedis.Store redis) × Served (Option String) Message)
    unfolding delegate_other call_and_keep result_of called_or_none presence_cache_match_request
    delegate_call ch m c chain reqmsg expire =
        presence_cache_match_request ch.random m ch.members reqmsg.method reqmsg.first_text
          ("eth_getTransactionByHash" ∷ "eth_getTransactionReceipt" ∷ [])
        >>= λ found. elim found [
          | some addr ↦
              let (c', retmsg) =
                call_and_keep redis encode parse key result_of call m c expire addr in
              done (c', called_or_none retmsg)
          | none ↦ delegate_other ch m c chain reqmsg expire
        ]

    -- `getBlockByNumber`
    unfoldable pub get_block_by_number :
        Choices
        → Multiplexer
        → Option (CacheRedis.Store redis)
        → ChainRef
        → Request
        → Outcome (Option (CacheRedis.Store redis) × Served (Option String) Message)
    unfolding block_request relay_and_keep result_of
    get_block_by_number ch m c chain reqmsg =
        let (height_spec, expire) = block_request decode reqmsg.first_text in
        relay_and_keep redis encode parse key result_of call ch.attempts m c chain reqmsg.method
          (some expire) height_spec

    unfoldable pub delegate_rpc :
        Choices
        → Multiplexer
        → Option (CacheRedis.Store redis)
        → ChainRef
        → Request
        → Outcome (Option (CacheRedis.Store redis) × Served (Option String) Message)
    unfolding from_cache delegate_call get_block_by_number web3_cachable_methods result_of
    delegate_rpc ch m c chain reqmsg =
        let expire = lookup String_discrete reqmsg.method web3_cachable_methods in
        ite (String_discrete reqmsg.method "web3_clientVersion") (done (c, own (some "Web3/1.0.0")))
          (elim (from_cache redis encode parse key result_of call ch.visit m c chain reqmsg.method
            expire (negsuc 9)) [
              | some v ↦ done (c, cached v)
              | none ↦
                  ite (String_discrete reqmsg.method "eth_getBlockByNumber")
                    (get_block_by_number ch m c chain reqmsg)
                    (delegate_call ch m c chain reqmsg expire)
            ])
