-- ===== src/Sync.antt =====
-- core/sync.go and core/fetch.go: a status that arrives for an endpoint, and the loop that asks an
-- endpoint for its block head. A status carries the chain that its sender saw; the updater only logs
-- it where it differs. Logs and metrics are left out.
pub mod Store
pub mod Head
pub mod Status
pub mod Effect
pub mod Names
use nodemux.Common.{
  ℕ, String, Bool, true, false, ◌&&◌, Option, none, some, List, [], ◌∷◌, ◌++◌, if◌then◌else◌, ite,
  ℤ, ltb_ℤ, eqb_ℤ, add_int, String_discrete, lookup, insert, Outcome, done, ◌>>=◌, or_panic,
}
use nodemux.Chain.{ChainRef, ChainRef_discrete}
use nodemux.Endpoint.{Endpoint, Block}
use nodemux.EndpointSet.{Heap, EndpointSet, reset_weights, reset_max_tip_height}
use nodemux.Multiplexer.{Multiplexer, Runtime, update}
use nodemux.Multiplexer

-- core/types.go
pub record ChainStatus : Type 0 where
  pub endpoint_name : String
  pub chain : ChainRef
  pub blockhead : Option Block
  pub healthy : Bool

unfoldable pub same_health : Bool → Bool → Bool
same_health true b = b
same_health false true = false
same_health false false = true

-- A set written back under its chain; Go writes through the pointer that the index holds.
abbrev pub put_set : Multiplexer → Heap → ChainRef → EndpointSet → Multiplexer
put_set m heap chain eps = record m {
  heap = heap;
  chain_index = insert ChainRef_discrete chain eps m.chain_index;
}

-- The part of `updateStatus` up to the healthy metric. A missing set is a nil pointer.
unfoldable pub update_health : Runtime → Multiplexer → ℕ → Bool → Outcome Multiplexer
unfolding same_health
update_health r m addr healthy =
    if same_health healthy (m.heap addr).healthy
    then done m
    else (let heap' = update m.heap addr (record (m.heap addr) { healthy = healthy }) in
        or_panic (lookup ChainRef_discrete (m.heap addr).chain m.chain_index) >>= λ eps.
        done (put_set m heap' (m.heap addr).chain (reset_weights heap' (r.visit eps.items) eps)))

-- `heightChanged`: the new head lies below the old one.
unfoldable pub height_changed : Option Block → Block → Bool
height_changed none block = false
height_changed (some old) block = ltb_ℤ block.height old.height

unfoldable pub update_tip : Runtime → Heap → Bool → Block → EndpointSet → EndpointSet
update_tip r heap changed block eps =
    if changed
    then reset_max_tip_height heap (r.visit eps.items) eps
    else if ltb_ℤ eps.max_tip_height block.height
    then record eps { max_tip_height = block.height }
    else eps

-- The rest of `updateStatus`, for a status with a block.
unfoldable pub update_head : Runtime → Multiplexer → ℕ → Block → Outcome Multiplexer
unfolding height_changed update_tip
update_head r m addr block =
    let heap' = update m.heap addr (record (m.heap addr) { blockhead = some block }) in
    or_panic (lookup ChainRef_discrete (m.heap addr).chain m.chain_index) >>= λ eps. done (
      put_set m heap' (m.heap addr).chain
        (update_tip r heap' (height_changed (m.heap addr).blockhead block) block eps))

-- `r` is the runtime's choice for the loop of `resetWeights`, `r'` for that of `resetMaxTipHeight`.
unfoldable pub update_status : Runtime → Runtime → Multiplexer → ChainStatus → Outcome Multiplexer
unfolding update_health update_head
update_status r r' m cs = elim (Multiplexer.get m cs.endpoint_name) [
  | none ↦ done m
  | some addr ↦ update_health r m addr cs.healthy >>= λ m'. elim cs.blockhead [
    | none ↦ done m'
    | some block ↦ update_head r' m' addr block
  ]
]

-- The loop of `RunUpdator` over the statuses that arrive before it is stopped, with the runtime's
-- choices for each.
unfoldable pub run_updator :
    List (ChainStatus × Runtime × Runtime) → Multiplexer → Outcome Multiplexer
run_updator [] m = done m
run_updator ((cs, r, r') ∷ rest) m = update_status r r' m cs >>= λ m'. run_updator rest m'

-- core/fetch.go
unfoldable pub block_is_equal : Option Block → Option Block → Bool
block_is_equal none b = false
block_is_equal (some a) none = false
block_is_equal (some a) (some b) =
    eqb_ℤ a.height b.height && ite (String_discrete a.hash b.hash) true false

-- What a delegator's `GetBlockhead` answers: an error, or a block that may be nil.
pub data Answer : Type 0 where
  failed : Answer
  got : Option Block → Answer

unfoldable pub unhealthy_status : Endpoint → ChainStatus
unhealthy_status ep = record {
  endpoint_name = ep.name;
  chain = ep.chain;
  blockhead = none;
  healthy = false;
}

-- `UpdateBlock`: the status that it publishes.
unfoldable pub update_block : Endpoint → Block → ChainStatus
update_block ep block = record {
  endpoint_name = ep.name;
  chain = ep.chain;
  blockhead = some block;
  healthy = true;
}

unfoldable pub update_block_if_changed : Endpoint → Block → List ChainStatus
unfolding block_is_equal update_block
update_block_if_changed ep block =
    if block_is_equal ep.blockhead (some block) then [] else update_block ep block ∷ []

-- The endpoint afterwards, the statuses published, and the block to compare the next answer with.
pub record Fetched : Type 0 where
  pub endpoint : Endpoint
  pub published : List ChainStatus
  pub last_block : Option Block

unfoldable pub get_blockhead : Endpoint → Option Block → Answer → Fetched
unfolding block_is_equal unhealthy_status update_block
get_blockhead ep last_block failed = record {
  endpoint = record ep { connected = false };
  published = unhealthy_status ep ∷ [];
  last_block = none;
}
get_blockhead ep last_block (got none) = record { endpoint = ep; published = []; last_block = none }
get_blockhead ep last_block (got (some block)) = record {
  endpoint = record ep { connected = true };
  published = if block_is_equal last_block (some block) then [] else update_block ep block ∷ [];
  last_block = some block;
}

-- The seconds that the loop sleeps after an answer.
unfoldable pub sleep_time : Endpoint → Answer → ℤ
sleep_time ep failed = add_int ep.config.fetch_interval ep.config.fetch_interval
sleep_time ep (got block) = ep.config.fetch_interval

-- The loop of `syncEndpoint` over the answers that it gets before it is stopped: the statuses that it
-- publishes, in order.
unfoldable pub sync_rounds : Endpoint → Option Block → List Answer → List ChainStatus
unfolding get_blockhead
sync_rounds ep last_block [] = []
sync_rounds ep last_block (answer ∷ rest) =
    let f = get_blockhead ep last_block answer in
    f.published ++ sync_rounds f.endpoint f.last_block rest
