-- ===== src/System/Order.antt =====
-- What holds at every point of a run: the indexes of the multiplexer are in order.
use nodemux.Common.{
  ℕ, Option, none, some, List, [], ◌∷◌, All, All-imp, ◌≡◌, refl, sym, ap, ◌∙◌, subst, done-inj,
  lookup,
}
use nodemux.Chain.{ChainRef_discrete}
use nodemux.Endpoint.{Endpoint, Block}
use nodemux.EndpointSet.{Entry, Weight, append_weight}
use nodemux.Multiplexer.{Multiplexer, update}
use nodemux.Multiplexer.Invariant.{Inv}
use nodemux.Sync.{Answer, failed, got, get_blockhead}
use nodemux.Sync.Store.{
  update-SameKeys, update_keeps, IsOwned-alike, weights_over-alike, IsTip-alike,
}
use nodemux.Sync.Status.{update_status-Inv}
use nodemux.System.{
  System, Step, fetch, take, pass, subscribe, unsubscribe, apply, Event, Reach, start, later,
  fetched_by, after_fetch, after_take, after_send, after_sub, after_unsub, after_update,
}

-- The endpoint is the same but for the fields that neither the indexes nor the tables depend on.
pub record Alike (ep ep' : Endpoint) : Type 0 where
  pub name : ep'.name ≡ ep.name
  pub chain : ep'.chain ≡ ep.chain
  pub healthy : ep'.healthy ≡ ep.healthy
  pub blockhead : ep'.blockhead ≡ ep.blockhead
  pub weight : (us : List Weight) → append_weight us ep' ≡ append_weight us ep

pub get_blockhead-Alike :
    (ep : Endpoint) (last_block : Option Block) (answer : Answer)
    → Alike ep (get_blockhead ep last_block answer).endpoint
unfolding get_blockhead append_weight
get_blockhead-Alike ep last_block failed = record {
  name = refl;
  chain = refl;
  healthy = refl;
  blockhead = refl;
  weight = λ us. refl;
}
get_blockhead-Alike ep last_block (got none) = record {
  name = refl;
  chain = refl;
  healthy = refl;
  blockhead = refl;
  weight = λ us. refl;
}
get_blockhead-Alike ep last_block (got (some block)) = record {
  name = refl;
  chain = refl;
  healthy = refl;
  blockhead = refl;
  weight = λ us. refl;
}

-- An endpoint replaced by one that is alike leaves a multiplexer in order.
update-Alike-Inv :
    (m : Multiplexer) (addr : ℕ) (ep : Endpoint)
    → Alike (m.heap addr) ep
    → Inv m
    → Inv (record m { heap = update m.heap addr ep })
update-Alike-Inv m addr ep same v =
    let heap' = update m.heap addr ep in
    let keys = update-SameKeys m.heap addr ep same.name same.chain in
    record {
      sets = λ chain s e.
          let old = v.sets chain s e in
          record {
            owned = IsOwned-alike m.heap heap' m.name_index chain s.items keys old.owned;
            tip =
                IsTip-alike m.heap heap' s.items s.max_tip_height
                  (All-imp _ _ s.items
                    (λ x o. update_keeps (λ p. p.blockhead) m.heap addr ep x.1 same.blockhead)
                    old.owned)
                  old.tip;
            order = old.order;
            visited = old.visited;
            built =
                old.built ∙ sym (weights_over-alike m.heap heap' [] old.order (every old.order));
          };
      listed = λ name a e.
          let l = v.listed name a e in
          record {
            named = keys.names a ∙ l.named;
            used = l.used;
            home = l.home;
            found = ap (λ c. lookup ChainRef_discrete c m.chain_index) (keys.chains a) ∙ l.found;
            held = l.held;
          };
    }
  where
    every :
        (order : List Entry)
        → All
            (λ e.
              (us : List Weight)
              → append_weight us (update m.heap addr ep e.1) ≡ append_weight us (m.heap e.1))
            order
    every [] = tt
    every (e ∷ order) =
        (λ us. update_keeps (append_weight us) m.heap addr ep e.1 (same.weight us), every order)

-- Every step leaves the multiplexer in order.
pub Step-Inv :
    {s u : System} {event : Event} → Step s event u → Inv s.multiplexer → Inv u.multiplexer
unfolding after_fetch fetched_by after_take after_send after_sub after_unsub after_update
Step-Inv {s} (fetch name addr answer known syncing room) v =
    update-Alike-Inv s.multiplexer addr (fetched_by s addr answer).endpoint
      (get_blockhead-Alike (s.multiplexer.heap addr) (s.last_blocks addr) answer) v
Step-Inv (take cs rest idle head) v = v
Step-Inv (pass ch cs rest next room) v = v
Step-Inv (subscribe ch visit idle) v = v
Step-Inv (unsubscribe ch idle) v = v
Step-Inv {s} (apply cs rest r r' m go go' head result) v =
    let (m', e, v') = update_status-Inv r r' s.multiplexer cs go go' v in
    subst Inv (done-inj (sym e ∙ result)) v'

-- Whatever the loops, the hub and the updater do, in any order, the multiplexer stays in order.
pub Reach-Inv :
    {s t : System} {events : List Event} → Reach s events t → Inv s.multiplexer → Inv t.multiplexer
Reach-Inv start v = v
Reach-Inv (later before step) v = Step-Inv step (Reach-Inv before v)
