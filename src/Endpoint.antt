-- ===== src/Endpoint.antt =====
-- core/types.go, core/config.go and core/endpoint.go: an endpoint, its configuration and the tests
-- that decide whether a request may go to it. A nil map, slice or pointer is `none`.
pub mod Availability
pub mod Headers
use Prim.Native.String.{◌++◌}
use Prim.Native.Char.{code}
use text.Mathlib.Text.{starts_with}
use nodemux.Common.{
  ℕ, String, Bool, true, false, not, ◌&&◌, ◌||◌, Option, none, some, List, [], ◌∷◌, ◌==◌,
  if◌then◌else◌, ℤ, pos, ltb_ℤ, leb_ℤ, is_empty, String_discrete, lookup, insert, Outcome, done,
  ◌>>=◌,
}
use nodemux.Chain.{ChainRef, must_parse_chain, to_string}

pub record Block : Type 0 where
  pub height : ℤ
  pub hash : String

-- `options` keeps its keys only: no code of the repository reads a value.
pub record EndpointConfig : Type 0 where
  pub chain : String
  pub url : String
  pub streaming_url : String
  pub headers : Option (List (String × String))
  pub weight : ℤ
  pub skip_methods : Option (List String)
  pub fetch_interval : ℤ
  pub timeout : ℤ
  pub options : Option (List String)

-- `client` is the timeout of the HTTP client that `Connect` makes, in seconds.
pub record Endpoint : Type 0 where
  pub config : EndpointConfig
  pub name : String
  pub url_digest : String
  pub chain : ChainRef
  pub skip_methods : Option (List (String × Bool))
  pub client_version : String
  pub healthy : Bool
  pub blockhead : Option Block
  pub client : Option ℤ
  pub connected : Bool

pub record EndpointInfo : Type 0 where
  pub name : String
  pub url_digest : String
  pub chain : String
  pub healthy : Bool
  pub blockhead : Option Block
  pub client_version : String

-- The loop of `NewEndpoint` over the configured methods.
unfoldable pub mark_methods : List String → List (String × Bool) → List (String × Bool)
mark_methods [] marked = marked
mark_methods (meth ∷ rest) marked = mark_methods rest (insert String_discrete meth true marked)

-- `digest` is the hexadecimal SHA-256 of a text. The chain must parse, or the call panics.
unfoldable pub new_endpoint : (String → String) → String → EndpointConfig → Outcome Endpoint
unfolding mark_methods
new_endpoint digest name epcfg = do
  chain ← must_parse_chain epcfg.chain
  done (record {
    config = epcfg;
    name = name;
    url_digest = digest epcfg.url;
    chain = chain;
    skip_methods = elim epcfg.skip_methods [
      | none ↦ none
      | some methods ↦ some (mark_methods methods [])
    ];
    client_version = "";
    healthy = true;
    blockhead = none;
    client = none;
    connected = true;
  })

unfoldable pub connect : Endpoint → Endpoint
connect ep = elim ep.client [
  | some timeout ↦ ep
  | none ↦ record ep {
    client = some (if leb_ℤ ep.config.timeout (pos 0) then pos 90 else ep.config.timeout);
  }
]

unfoldable pub ends_with_slash : String → Bool
ends_with_slash String.[] = false
ends_with_slash (String.◌∷◌ c String.[]) = code c == b'/'
ends_with_slash (String.◌∷◌ c (String.◌∷◌ d s)) = ends_with_slash (String.◌∷◌ d s)

-- `path[1:]`, where the path begins with "/".
unfoldable pub strip_slash : String → Option String
strip_slash String.[] = none
strip_slash (String.◌∷◌ c s) = if code c == b'/' then some s else none

unfoldable pub full_url : Endpoint → String → String
unfolding ends_with_slash strip_slash
full_url ep path = if is_empty path then ep.config.url else (elim (strip_slash path) [
  | none ↦ ep.config.url ++ path
  | some rest ↦
      if ends_with_slash ep.config.url then ep.config.url ++ rest else ep.config.url ++ path
])

unfoldable pub info : Endpoint → EndpointInfo
info ep = record {
  name = ep.name;
  url_digest = ep.url_digest;
  chain = to_string ep.chain;
  healthy = ep.healthy;
  blockhead = ep.blockhead;
  client_version = ep.client_version;
}

-- `ep.Blockhead == nil || ep.Blockhead.Height < minHeight`
unfoldable pub is_behind : Option Block → ℤ → Bool
is_behind none min_height = true
is_behind (some block) min_height = ltb_ℤ block.height min_height

-- The method is in the endpoint's set of skipped methods; an empty method never is.
unfoldable pub is_skipped : Option (List (String × Bool)) → String → Bool
is_skipped none method = false
is_skipped (some skipped) method =
    not (is_empty method)
    && (elim (lookup String_discrete method skipped) [ none ↦ false | some ok ↦ true ])

unfoldable pub available : Endpoint → String → ℤ → Bool
unfolding is_behind is_skipped
available ep method min_height =
    if not ep.healthy
    then false
    else if ltb_ℤ (pos 0) min_height && is_behind ep.blockhead min_height
    then false
    else not (is_skipped ep.skip_methods method)

-- core/jsonrpc_relayer.go
unfoldable pub has_websocket : Endpoint → Bool
has_websocket ep =
    if is_empty ep.config.streaming_url
    then false
    else starts_with ep.config.streaming_url "wss://" || starts_with ep.config.streaming_url "ws://"
