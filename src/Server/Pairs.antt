-- ===== src/Server/Pairs.antt =====
-- server/jsonrpcws_relayer.go: the pairs of a client's websocket session and the websocket of an
-- endpoint. What is sent goes through libraries; here it is told to which endpoint it goes.
use nodemux.Common.{
  ℕ, String, Bool, Option, none, some, List, [], ◌∷◌, if◌then◌else◌, negsuc, String_discrete,
  lookup, insert, remove, Outcome, done, ◌>>=◌,
}
use nodemux.Multiplexer.{Multiplexer, Runtime, select_websocket_endpoint}
use nodemux.Factory.{DelegatorFactory, get_rpc_delegator}
use nodemux.Server.{Acc}
use nodemux.Chain.{ChainRef}

-- `wsPairs`: the endpoint of each session.
abbrev pub WsPairs : Type 0
WsPairs = List (String × ℕ)

-- `onClose`, of the client's session, and of the endpoint's websocket as well.
unfoldable pub on_close : String → WsPairs → WsPairs
on_close session pairs = remove String_discrete session pairs

-- What becomes of a message: it goes to an endpoint's websocket, which answers by itself; a delegator
-- answers it; the endpoint's URL has an error; or nothing else is there for it.
pub data Passed (A : Type 0) : Type 0 where
  sent_to : ℕ → Passed A
  delegated : A → Passed A
  url_error : Passed A
  no_upstream : Passed A

module _ {D A : Type 0} (f : DelegatorFactory D) (url_fails : String → Bool)
    (delegate : D → ChainRef → Outcome A) where
  -- With no endpoint to pair with, a request goes to the delegator. `is_request` tells whether it is one.
  unfoldable pub delegate_unpaired : Acc → Bool → Outcome (Passed A)
  unfolding get_rpc_delegator
  delegate_unpaired acc is_request =
      if is_request
      then (get_rpc_delegator f acc.chain.namespace >>= λ delegator.
          delegate delegator acc.chain >>= λ resmsg. done (delegated resmsg))
      else done no_upstream

  -- A new pair with the endpoint at an address.
  unfoldable pub make_pair : Multiplexer → String → WsPairs → ℕ → WsPairs × Passed A
  make_pair m session pairs ep =
      if url_fails (m.heap ep).config.streaming_url
      then (pairs, url_error)
      else (insert String_discrete session ep pairs, sent_to ep)

  -- What follows the search for an endpoint.
  unfoldable pub pair_or :
      Multiplexer → Acc → String → Bool → WsPairs → Option ℕ → Outcome (WsPairs × Passed A)
  unfolding make_pair delegate_unpaired
  pair_or m acc session is_request pairs (some ep) = done (make_pair m session pairs ep)
  pair_or m acc session is_request pairs none =
      delegate_unpaired acc is_request >>= λ passed. done (pairs, passed)

  -- `delegateRPC`: a message of a session with a pair goes to the pair.
  unfoldable pub delegate_rpc :
      Runtime → Multiplexer → Acc → String → Bool → WsPairs → Outcome (WsPairs × Passed A)
  unfolding select_websocket_endpoint pair_or
  delegate_rpc r m acc session is_request pairs = elim (lookup String_discrete session pairs) [
    | some dest_ws ↦ done (pairs, sent_to dest_ws)
    | none ↦
        select_websocket_endpoint r m acc.chain "" (negsuc 1)
        >>= pair_or m acc session is_request pairs
  ]

-- What happens to the relayer: a message of a session that was let through, in the multiplexer as it is
-- then; or the end of a session or of its endpoint's websocket.
pub data WsEvent : Type 0 where
  message : Runtime → Multiplexer → Acc → String → Bool → WsEvent
  closed : String → WsEvent

module _ {D A : Type 0} (f : DelegatorFactory D) (url_fails : String → Bool)
    (delegate : D → ChainRef → Outcome A) where
  -- The pairs after the events, and where each message went.
  unfoldable pub run : List WsEvent → WsPairs → Outcome (WsPairs × List (String × Passed A))
  unfolding delegate_rpc on_close
  run [] pairs = done (pairs, [])
  run (message r m acc session is_request ∷ rest) pairs =
      delegate_rpc f url_fails delegate r m acc session is_request pairs >>= λ (pairs', passed).
      run rest pairs' >>= λ (pairs'', later). done (pairs'', (session, passed) ∷ later)
  run (closed session ∷ rest) pairs = run rest (on_close session pairs)
