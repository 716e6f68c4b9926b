-- ===== src/Server.antt =====
-- server/account.go, server/entrypoint.go, server/jsonrpc_relayer.go, server/restful_relayer.go,
-- server/graphql_relayer.go and server/http_server.go: from the path of a request to its account, its
-- chain and the handler that serves it. Listening, reading and writing are the net/http library's.
pub mod Account
pub mod Pairs
pub mod Sticky
use nodemux.Common.{
  ℕ, String, Bool, true, false, not, ◌&&◌, ◌||◌, Option, none, some, List, [], ◌∷◌, ite,
  if◌then◌else◌, is_empty, String_discrete, lookup, Outcome, done, ◌>>=◌, or_panic,
}
use Prim.Native.String.{◌++◌}
use nodemux.Chain.{ChainRef, split_slash, must_parse_chain}
use nodemux.Endpoint.{strip_slash}
use nodemux.Multiplexer.{Multiplexer, Runtime, select_endpoint_from_http}
use nodemux.Factory.{
  DelegatorFactory, ApiType, no_api, api_jsonrpc, api_rest, api_graph_ql, support_chain,
  get_rpc_delegator, get_rest_delegator, get_graph_ql_delegator,
}
use nodemux.Config.{AccountConfig, EntrypointConfig}
use nodemux.Ratelimit.{Verdict, allowed, refused, failed}
use nodemux.Relay.{Reply, call_endpoint_rpc}

pub record Acc : Type 0 where
  pub name : String
  pub chain : ChainRef
  pub config : AccountConfig

-- A status with no more than a text, or what a handler further in gives.
pub data Response (A : Type 0) : Type 0 where
  status : ℕ → Response A
  served : A → Response A

-- A text up to the first "/", and what follows it.
unfoldable pub segment : String → String × Option String
unfolding split_slash
segment text = elim (split_slash text) [
  | none ↦ (text, none)
  | some (first, rest) ↦ (first, some rest)
]

unfoldable pub is_api : String → Bool
is_api kind = ite (String_discrete kind "jsonrpc-ws") true (
    ite (String_discrete kind "jsonrpc") true
      (ite (String_discrete kind "rest") true (ite (String_discrete kind "graphql") true false)))

-- A segment that is not empty, with a "/" behind it.
unfoldable pub inner_segment : String → Option (String × String)
unfolding segment
inner_segment text =
    let (first, more) = segment text in
    elim more [ none ↦ none | some rest ↦ if is_empty first then none else some (first, rest) ]

-- `accRegex` and its groups: the kind of interface, the account, the namespace and the network.
unfoldable pub acc_regex : String → Option (String × String × String × String)
unfolding strip_slash inner_segment segment is_api
acc_regex path = elim (strip_slash path) [
  | none ↦ none
  | some p ↦ elim (inner_segment p) [
    | none ↦ none
    | some (kind, q) ↦ elim (inner_segment q) [
      | none ↦ none
      | some (account, r) ↦ elim (inner_segment r) [
        | none ↦ none
        | some (namespace, s) ↦
            if is_api kind && not (is_empty (segment s).0)
            then some (kind, account, namespace, (segment s).0)
            else none
      ]
    ]
  ]
]

-- `AccHandler.ServeHTTP`: the account of the request, `none` for status 404.
unfoldable pub find_acc : List (String × AccountConfig) → String → Option Acc
unfolding acc_regex
find_acc accounts path = elim (acc_regex path) [
  | none ↦ none
  | some (kind, account, namespace, network) ↦ elim (lookup String_discrete account accounts) [
    | none ↦ none
    | some acccfg ↦ some (record {
      name = account;
      chain = record { namespace = namespace; network = network };
      config = acccfg;
    })
  ]
]

-- The name that a request counts against.
unfoldable pub account_name : Acc → String
account_name acc = if is_empty acc.config.username then acc.name else acc.config.username

-- `RatelimitHandler.ServeHTTP`, of the verdict of `checkRatelimit`; an error has status 429 too.
unfoldable pub limit_then : {A : Type 0} → Verdict → Outcome (Response A) → Outcome (Response A)
limit_then allowed next = next
limit_then refused next = done (status 429)
limit_then failed next = done (status 429)

-- `relayHandler`: `auth` tells whether the library's check of the authentication lets the request
-- through, which else has status 401.
unfoldable pub relay_handler :
    {A : Type 0}
    → Bool
    → List (String × AccountConfig)
    → (Acc → Verdict)
    → (Acc → Outcome (Response A))
    → String
    → Outcome (Response A)
unfolding find_acc limit_then
relay_handler auth accounts verdict next path =
    if auth
    then (elim (find_acc accounts path) [
      | none ↦ done (status 404)
      | some acc ↦ limit_then (verdict acc) (next acc)
    ])
    else done (status 401)

-- The account of a relayer: the entry point's, or else that of the request.
unfoldable pub acc_or : Option Acc → Acc → Acc
acc_or none context = context
acc_or (some acc) context = acc

-- What an endpoint gave that was called at once, or what the delegator gave.
pub data RpcServed (M A : Type 0) : Type 0 where
  direct : Reply M → RpcServed M A
  delegated : A → RpcServed M A

module _ {D M A : Type 0} (f : DelegatorFactory D) (r : Runtime) (m : Multiplexer)
    (call : ℕ → Option M) where
  -- `JSONRPCRelayer.delegateRPC`: the endpoint that the request names is called, and else the delegator
  -- is asked. `is_request` tells whether the message is a request.
  unfoldable pub delegate_rpc :
      (D → ChainRef → Outcome A) → Acc → Bool → String → String → Outcome (Response (RpcServed M A))
  unfolding get_rpc_delegator select_endpoint_from_http call_endpoint_rpc
  delegate_rpc delegate acc is_request method select_node =
      if not is_request
      then done (status 400)
      else (get_rpc_delegator f acc.chain.namespace >>= λ delegator.
          elim (select_endpoint_from_http r m acc.chain method select_node) [
            | some ep ↦ done (served (direct (call_endpoint_rpc call m ep)))
            | none ↦ delegate delegator acc.chain >>= λ resmsg. done (served (delegated resmsg))
          ])

-- `^/rest/([^/]+/[^/]+/[^/]+)/(.*)$`: the last group.
unfoldable pub rest_regex : String → Option String
unfolding strip_slash inner_segment
rest_regex path = elim (strip_slash path) [
  | none ↦ none
  | some p ↦ elim (inner_segment p) [
    | none ↦ none
    | some (kind, q) ↦ elim (inner_segment q) [
      | none ↦ none
      | some (account, r) ↦ elim (inner_segment r) [
        | none ↦ none
        | some (namespace, s) ↦ elim (inner_segment s) [
          | none ↦ none
          | some (network, rest) ↦ ite (String_discrete kind "rest") (some rest) none
        ]
      ]
    ]
  ]
]

module _ {D : Type 0} (f : DelegatorFactory D) where
  -- The path that a REST request asks the chain for: an entry point's is the whole path.
  unfoldable pub rest_method : Option Acc → String → Option String
  unfolding rest_regex
  rest_method (some acc) path = some path
  rest_method none path = elim (rest_regex path) [ none ↦ none | some rest ↦ some ("/" ++ rest) ]

  -- `RESTRelayer.ServeHTTP`. `reads` tells whether the body can be read, where it is; `delegate` tells
  -- whether the delegator succeeded, and has written the response then.
  unfoldable pub serve_rest :
      (D → ChainRef → String → Outcome Bool)
      → Option Acc
      → Acc
      → Bool
      → String
      → Outcome (Response (Unit {0}))
  unfolding rest_method get_rest_delegator acc_or
  serve_rest delegate own context reads path = elim (rest_method own path) [
    | none ↦ done (status 404)
    | some method ↦ get_rest_delegator f (acc_or own context).chain.namespace >>= λ delegator.
        if not reads
        then done (status 400)
        else (delegate delegator (acc_or own context).chain method >>= λ ok.
            done (if ok then served tt else status 500))
  ]

  -- `GraphQLRelayer.ServeHTTP`
  unfoldable pub serve_graph_ql :
      (D → ChainRef → Outcome Bool) → Option Acc → Acc → Outcome (Response (Unit {0}))
  unfolding get_graph_ql_delegator acc_or
  serve_graph_ql delegate own context =
      get_graph_ql_delegator f (acc_or own context).chain.namespace >>= λ delegator.
      delegate delegator (acc_or own context).chain >>= λ ok.
      done (if ok then served tt else status 500)

  -- The account and the kind of relayer of an entry point, `none` where its chain is not supported. A
  -- missing account and a chain that does not parse are panics.
  unfoldable pub entrypoint_acc :
      {T U : Type 0}
      → List (String × AccountConfig)
      → EntrypointConfig T U
      → Outcome (Option (Acc × ApiType))
  unfolding support_chain must_parse_chain
  entrypoint_acc accounts entry =
      or_panic (lookup String_discrete entry.account accounts) >>= λ acccfg.
      must_parse_chain entry.chain >>= λ chain.
      let (support, rpc_type) = support_chain f chain.namespace in
      done (
        if support
        then some (record { name = entry.account; chain = chain; config = acccfg }, rpc_type)
        else none)
