-- ===== src/Relay/Broadcast.antt =====
-- Which endpoints a broadcast calls.
use nodemux.Common.{
  ℕ, String, Bool, false, Option, List, ℤ, pos, ltb_ℤ, lookup, ◌≡◌, refl, ap, inl, inr, map,
  Option-cases,
}
use nodemux.Chain.{ChainRef, ChainRef_discrete}
use nodemux.Endpoint.{Endpoint, available}
use nodemux.EndpointSet.{Heap, Entry}
use nodemux.Multiplexer.{Multiplexer, Runtime, all_where, all_healthy_endpoints}
use nodemux.Relay.{broadcast_rpc}

available_low :
    (ep : Endpoint) (method : String) (height : ℤ)
    → ltb_ℤ (pos 0) height ≡ false
    → available ep method height ≡ available ep method (pos 0)
unfolding available
available_low ep method height low = rw low refl

all_where-alike :
    (t u : Endpoint → Bool) (heap : Heap) (items : List Entry)
    → ((ep : Endpoint) → t ep ≡ u ep)
    → all_where t heap items ≡ all_where u heap items
all_where-alike t u heap items same = ap (λ f. all_where f heap items) (λ i ep. same ep i)

-- A broadcast over a height of 0 or less calls the same endpoints as one over the height 0: it does not
-- count back from the tip.
pub broadcast_rpc_low :
    {M : Type 0} (call : ℕ → Option M) (finish : List ℕ → List ℕ) (r : Runtime) (m : Multiplexer)
    (chain : ChainRef) (method : String) (height : ℤ)
    → ltb_ℤ (pos 0) height ≡ false
    → broadcast_rpc call finish r m chain method height
      ≡ broadcast_rpc call finish r m chain method (pos 0)
unfolding broadcast_rpc all_healthy_endpoints
broadcast_rpc_low call finish r m chain method height low =
    elim (Option-cases (lookup ChainRef_discrete chain m.chain_index)) [
      | inl e ↦ rw (e, broadcast_rpc, all_healthy_endpoints) refl
      | inr (s, e) ↦
          rw (e, broadcast_rpc, all_healthy_endpoints)
            (ap (λ eps. map (λ addr. (addr, call addr)) (finish eps))
              (all_where-alike (λ ep. available ep method height)
                (λ ep. available ep method (pos 0)) m.heap (r.visit s.items)
                (λ ep. available_low ep method height low)))
    ]
