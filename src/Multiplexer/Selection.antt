-- ===== src/Multiplexer/Selection.antt =====
-- What the choice of an endpoint promises.
use nodemux.Common.{◌≤◌, ℤ, pos, String, some, lookup, max_int, ◌≡◌, ◌&&◌, arith}
use nodemux.Chain.{ChainRef, ChainRef_discrete}
use nodemux.Endpoint.{available, has_websocket}
use nodemux.Endpoint.Availability.{available_iff}
use nodemux.EndpointSet.{EndpointSet}
use nodemux.EndpointSet.Weights.{total}
use nodemux.Multiplexer.{
  Multiplexer, Runtime, IsGo, select, select_over_height, height_over, select_websocket_endpoint,
  websocket_height,
}
use nodemux.Multiplexer.Invariant.{Inv}
use nodemux.Multiplexer.Choice.{IsChoice, NeedsHealth, choose-IsChoice}

available-NeedsHealth :
    (method : String) (height : ℤ) → NeedsHealth (λ ep. available ep method height)
available-NeedsHealth method height ep h =
    let parts = (available_iff ep method height).0 h in parts.0

websocket-NeedsHealth :
    (method : String) (height : ℤ)
    → NeedsHealth (λ ep. has_websocket ep && available ep method height)
websocket-NeedsHealth method height ep h = available-NeedsHealth method height ep (ground arith)

-- `SelectOverHeight` on a chain that is known, in a multiplexer that is in order and whose weights add
-- up to an `int`: it does not panic; what it returns is an endpoint of the chain, available for the
-- method at the height; and it returns none only if no endpoint of the chain is, however the draw
-- falls.
pub select_over_height-IsChoice :
    (r : Runtime) (m : Multiplexer) (chain : ChainRef) (method : String) (height_spec : ℤ)
    (s : EndpointSet)
    → IsGo r
    → Inv m
    → lookup ChainRef_discrete chain m.chain_index ≡ some s
    → total m.heap s.items ≤ max_int
    → IsChoice
        (λ ep. available ep method (height_over s height_spec))
        m.heap
        s.items
        (select_over_height r m chain method height_spec)
unfolding select_over_height
select_over_height-IsChoice r m chain method height_spec s go v known small =
    rw (known, select_over_height)
      (choose-IsChoice r _ m.heap m.name_index chain s go
        (available-NeedsHealth method (height_over s height_spec)) (v.sets chain s known) small)

-- `Select` on a chain that is known, in a multiplexer that is in order and whose weights add up to an
-- `int`: it does not panic; what it returns is an endpoint of the chain, available for the method; and
-- it returns none only if no endpoint of the chain is.
pub select-IsChoice :
    (r : Runtime) (m : Multiplexer) (chain : ChainRef) (method : String) (s : EndpointSet)
    → IsGo r
    → Inv m
    → lookup ChainRef_discrete chain m.chain_index ≡ some s
    → total m.heap s.items ≤ max_int
    → IsChoice (λ ep. available ep method (pos 0)) m.heap s.items (select r m chain method)
unfolding select
select-IsChoice r m chain method s go v known small =
    rw (known, select)
      (choose-IsChoice r _ m.heap m.name_index chain s go (available-NeedsHealth method (pos 0))
        (v.sets chain s known) small)

-- `SelectWebsocketEndpoint` on a chain that is known, in a multiplexer that is in order and whose
-- weights add up to an `int`: it does not panic; what it returns is an endpoint of the chain that
-- streams and is available for the method at the height; and it returns none only if no endpoint of
-- the chain is.
pub select_websocket_endpoint-IsChoice :
    (r : Runtime) (m : Multiplexer) (chain : ChainRef) (method : String) (height_spec : ℤ)
    (s : EndpointSet)
    → IsGo r
    → Inv m
    → lookup ChainRef_discrete chain m.chain_index ≡ some s
    → total m.heap s.items ≤ max_int
    → IsChoice
        (λ ep. has_websocket ep && available ep method (websocket_height s height_spec))
        m.heap
        s.items
        (select_websocket_endpoint r m chain method height_spec)
unfolding select_websocket_endpoint
select_websocket_endpoint-IsChoice r m chain method height_spec s go v known small =
    rw (known, select_websocket_endpoint)
      (choose-IsChoice r _ m.heap m.name_index chain s go
        (websocket-NeedsHealth method (websocket_height s height_spec)) (v.sets chain s known)
        small)
