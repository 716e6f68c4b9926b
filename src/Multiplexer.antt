-- ===== src/Multiplexer.antt =====
-- core/multiplexer.go: the two indexes over the endpoints, and the choice of an endpoint for a call.
-- An endpoint lives at an address of the heap and both indexes hold that address, so that a change
-- of the endpoint is seen through either. The logs and the Prometheus metrics are left out.
pub mod Invariant
pub mod Adding
pub mod Choice
pub mod Selection
pub mod Loading
use nodemux.Common.{
  ℕ, suc, ◌+◌, String, Bool, true, false, ◌&&◌, Option, none, some, List, [], ◌∷◌, if◌then◌else◌,
  ite, ℤ, pos, negsuc, ltb_ℤ, leb_ℤ, add_int, ◌≤ℤ◌, ◌<ℤ◌, ℕ_discrete, String_discrete, is_empty,
  lookup, insert, Outcome, done, panic, ◌>>=◌, or_panic,
}
use mathlib.Core.List.{Permᴰ}
use nodemux.Chain.{ChainRef, ChainRef_discrete, parse_chain, must_parse_chain}
use nodemux.Endpoint.{
  Endpoint, EndpointConfig, EndpointInfo, new_endpoint, info, available, has_websocket,
}
use nodemux.EndpointSet.{Heap, Entry, EndpointSet, new_endpoint_set, weighted_random}
use nodemux.EndpointSet

-- `next` is the first address that is not in use. `syncing` tells whether `cancelSync` is set.
pub record Multiplexer : Type 0 where
  pub heap : Heap
  pub next : ℕ
  pub name_index : List Entry
  pub chain_index : List (ChainRef × EndpointSet)
  pub syncing : Bool

-- What the Go runtime chooses during one call: the answers of `rand.Intn`, and the order in which a
-- loop visits a map.
pub record Runtime : Type 0 where
  pub random : ℤ → ℤ
  pub visit : List Entry → List Entry

-- `rand.Intn(n)` answers within 0 ... n - 1, and a loop over a map visits each entry once.
pub record IsGo (r : Runtime) : Type 0 where
  pub in_range : (lim : ℤ) → pos 0 <ℤ lim → (pos 0 ≤ℤ r.random lim) × (r.random lim <ℤ lim)
  pub visits_all : (items : List Entry) → Permᴰ (r.visit items) items

unfoldable pub update : Heap → ℕ → Endpoint → Heap
update heap addr ep a = ite (ℕ_discrete a addr) ep (heap a)

-- `Reset`, on the memory as it is.
unfoldable pub reset : Multiplexer → Multiplexer
reset m = record m { name_index = []; chain_index = [] }

unfoldable pub get : Multiplexer → String → Option ℕ
get m ep_name = lookup String_discrete ep_name m.name_index

unfoldable pub must_get : Multiplexer → String → Outcome ℕ
unfolding get
must_get m ep_name = or_panic (get m ep_name)

-- The set of a chain, as it is or a new one.
unfoldable pub set_or_new : Option EndpointSet → EndpointSet
unfolding EndpointSet.new_endpoint_set
set_or_new none = new_endpoint_set
set_or_new (some eps) = eps

-- `Add`, of the endpoint at an address.
unfoldable pub add : ℕ → Multiplexer → Multiplexer × Bool
unfolding set_or_new
add addr m = elim (lookup String_discrete (m.heap addr).name m.name_index) [
  | some other ↦ (m, false)
  | none ↦ (
    record m {
      name_index = insert String_discrete (m.heap addr).name addr m.name_index;
      chain_index =
          insert ChainRef_discrete (m.heap addr).chain
            (EndpointSet.add m.heap addr
              (set_or_new (lookup ChainRef_discrete (m.heap addr).chain m.chain_index)))
            m.chain_index;
    },
    true,
  )
]

-- The loop that looks for an available endpoint in sequence.
unfoldable pub first_where : (Endpoint → Bool) → Heap → List Entry → Option ℕ
first_where test heap [] = none
first_where test heap ((name, addr) ∷ rest) =
    if test (heap addr) then some addr else first_where test heap rest

-- The choice that `Select`, `SelectOverHeight` and `SelectWebsocketEndpoint` make within one set: a
-- weighted draw, and if the drawn endpoint fails the test the first one that passes it.
unfoldable pub choose : Runtime → (Endpoint → Bool) → Heap → EndpointSet → Outcome (Option ℕ)
unfolding first_where
choose r test heap eps = elim (weighted_random r.random eps) [
  | none ↦ done none
  | some ep_name ↦ EndpointSet.must_get eps ep_name >>= λ addr.
      if test (heap addr)
      then done (some addr)
      else done (first_where test heap (r.visit eps.items))
]

unfoldable pub select : Runtime → Multiplexer → ChainRef → String → Outcome (Option ℕ)
unfolding choose
select r m chain method = elim (lookup ChainRef_discrete chain m.chain_index) [
  | none ↦ done none
  | some eps ↦ choose r (λ ep. available ep method (pos 0)) m.heap eps
]

-- A specification of 0 or less counts back from the tip.
unfoldable pub height_over : EndpointSet → ℤ → ℤ
height_over eps height_spec =
    if leb_ℤ height_spec (pos 0) then add_int eps.max_tip_height height_spec else height_spec

unfoldable pub select_over_height :
    Runtime → Multiplexer → ChainRef → String → ℤ → Outcome (Option ℕ)
unfolding choose
select_over_height r m chain method height_spec =
    elim (lookup ChainRef_discrete chain m.chain_index) [
      | none ↦ done none
      | some eps ↦ choose r (λ ep. available ep method (height_over eps height_spec)) m.heap eps
    ]

-- Here only a negative specification counts back from the tip.
unfoldable pub websocket_height : EndpointSet → ℤ → ℤ
websocket_height eps height_spec =
    if ltb_ℤ height_spec (pos 0) then add_int eps.max_tip_height height_spec else height_spec

unfoldable pub select_websocket_endpoint :
    Runtime → Multiplexer → ChainRef → String → ℤ → Outcome (Option ℕ)
unfolding choose
select_websocket_endpoint r m chain method height_spec =
    elim (lookup ChainRef_discrete chain m.chain_index) [
      | none ↦ done none
      | some eps ↦
          choose r
            (λ ep. has_websocket ep && available ep method (websocket_height eps height_spec))
            m.heap eps
    ]

unfoldable pub all_where : (Endpoint → Bool) → Heap → List Entry → List ℕ
all_where test heap [] = []
all_where test heap ((name, addr) ∷ rest) =
    if test (heap addr) then addr ∷ all_where test heap rest else all_where test heap rest

-- A nil slice is the empty list: both callers look at its length only.
unfoldable pub all_healthy_endpoints : Runtime → Multiplexer → ChainRef → String → ℤ → List ℕ
unfolding all_where
all_healthy_endpoints r m chain method height =
    elim (lookup ChainRef_discrete chain m.chain_index) [
      | none ↦ []
      | some eps ↦ all_where (λ ep. available ep method height) m.heap (r.visit eps.items)
    ]

unfoldable pub select_endpoint_by_name :
    Runtime → Multiplexer → ChainRef → String → String → Option ℕ
unfolding first_where
select_endpoint_by_name r m chain name method =
    elim (lookup ChainRef_discrete chain m.chain_index) [
      | none ↦ none
      | some eps ↦
          first_where
            (λ ep. available ep method (pos 0) && ite (String_discrete ep.name name) true false)
            m.heap (r.visit eps.items)
    ]

-- `select_node` is the request's header X-Nodemux-Select, empty where it is absent.
unfoldable pub select_endpoint_from_http :
    Runtime → Multiplexer → ChainRef → String → String → Option ℕ
unfolding select_endpoint_by_name
select_endpoint_from_http r m chain method select_node =
    if is_empty select_node then none else select_endpoint_by_name r m chain select_node method

-- The loop of `LoadFromConfig` over the configured endpoints, in the order of the visit. `supported`
-- stands for `SupportChain`, and `digest` for the digest of a URL.
unfoldable pub load_endpoints :
    (String → String)
    → (String → Bool)
    → List (String × EndpointConfig)
    → Multiplexer
    → Outcome Multiplexer
load_endpoints digest supported [] m = done m
load_endpoints digest supported ((name, epcfg) ∷ rest) m = do
  chainref ← must_parse_chain epcfg.chain
  ep ← if supported chainref.namespace then new_endpoint digest name epcfg else panic
  let (m', added) = add m.next (record m { heap = update m.heap m.next ep; next = suc m.next })
  load_endpoints digest supported rest m'

unfoldable pub infos_over : Heap → List Entry → List EndpointInfo
infos_over heap [] = []
infos_over heap ((name, addr) ∷ rest) = info (heap addr) ∷ infos_over heap rest

unfoldable pub list_endpoint_infos : Runtime → Multiplexer → List EndpointInfo
unfolding infos_over
list_endpoint_infos r m = infos_over m.heap (r.visit m.name_index)
