-- ===== src/Sync/Status.antt =====
-- A status and the invariant of the indexes, the tips and the weight tables.
use mathlib.Core.List.Permᴰ
use nodemux.Common.{
  ℕ, String, Bool, Option, none, some, List, [], ◌∷◌, All, Any, All-imp, All-perm,
  lookup-insert_self, String_discrete, lookup, ◌≡◌, refl, sym, ◌∙◌, inl, inr, Bool-cases,
  Option-cases, done, ◌>>=◌,
}
use nodemux.Chain.{ChainRef_discrete}
use nodemux.Endpoint.{Endpoint, Block}
use nodemux.EndpointSet.{EndpointSet, append_weight, reset_weights}
use nodemux.Multiplexer.{Multiplexer, Runtime, IsGo, update}
use nodemux.Multiplexer
use nodemux.Multiplexer.Invariant.{Inv, lookup-Any, SetInv, IsListed}
use nodemux.Sync.{
  ChainStatus, same_health, update_health, height_changed, update_tip, update_head, update_status,
  run_updator, put_set,
}
use nodemux.Sync.Head.{new_heap, update_tip-IsTip, update_tip_keeps}
use nodemux.Sync.Store.{
  update_keeps, update-SameKeys, IsOwned-alike, weights_over-alike, IsTip-alike, SetInv-elsewhere,
  put_set-Inv,
}

-- What an invariant multiplexer knows of an endpoint that a name leads to: the set of its chain.
pub record Located (m : Multiplexer) (addr : ℕ) : Type 0 where
  pub home : EndpointSet
  pub found : lookup ChainRef_discrete (m.heap addr).chain m.chain_index ≡ some home
  pub inside : Any (λ e. e.1 ≡ addr) home.items

pub IsListed-Located :
    (m : Multiplexer) (name : String) (addr : ℕ) → IsListed m name addr → Located m addr
IsListed-Located m name addr l = record {
  home = l.home;
  found = l.found;
  inside = lookup-Any name addr l.home.items l.held;
}

-- A located endpoint stays located when its set is put back with the same entries.
put_set-Located :
    (m : Multiplexer) (addr : ℕ) (ep : Endpoint) (s : EndpointSet)
    → ep.chain ≡ (m.heap addr).chain
    → Any (λ e. e.1 ≡ addr) s.items
    → Located (put_set m (update m.heap addr ep) (m.heap addr).chain s) addr
put_set-Located m addr ep s same inside = record {
  home = s;
  found =
      rw (update_keeps (λ x. x.chain) m.heap addr ep addr same)
        (lookup-insert_self ChainRef_discrete (m.heap addr).chain s m.chain_index);
  inside = inside;
}

module _ (r : Runtime) (go : IsGo r) (m : Multiplexer) (addr : ℕ) (v : Inv m)
    (l : Located m addr) where
  reset-SetInv :
      (healthy : Bool)
      → let heap' = update m.heap addr (record (m.heap addr) { healthy = healthy }) in
        SetInv heap' m.name_index
          (m.heap addr).chain
          (reset_weights heap' (r.visit l.home.items) l.home)
  unfolding reset_weights
  reset-SetInv healthy =
      let ep = record (m.heap addr) { healthy = healthy } in
      let old = v.sets (m.heap addr).chain l.home l.found in
      record {
        owned =
            IsOwned-alike m.heap (update m.heap addr ep) m.name_index (m.heap addr).chain
              l.home.items (update-SameKeys m.heap addr ep refl refl) old.owned;
        tip =
            IsTip-alike m.heap (update m.heap addr ep) l.home.items l.home.max_tip_height
              (All-imp _ _ l.home.items
                (λ e o. update_keeps (λ x. x.blockhead) m.heap addr ep e.1 refl) old.owned)
              old.tip;
        order = r.visit l.home.items;
        visited = go.visits_all l.home.items;
        built = refl;
      }

  -- A change of health leaves the invariant, and the updater does not panic.
  pub update_health-Inv :
      (healthy : Bool)
      → (m' : Multiplexer) × (update_health r m addr healthy ≡ done m')
        × Inv m'
        × (m'.name_index ≡ m.name_index)
        × Located m' addr
  unfolding update_health reset_weights
  update_health-Inv healthy = elim (Bool-cases (same_health healthy (m.heap addr).healthy)) [
    | inl same ↦ (m, rw same refl, v, refl, l)
    | inr differs ↦
        let ep = record (m.heap addr) { healthy = healthy } in
        let heap' = update m.heap addr ep in
        let s' = reset_weights heap' (r.visit l.home.items) l.home in
        (
          put_set m heap' (m.heap addr).chain s',
          rw (differs, l.found) refl,
          put_set-Inv m heap' (m.heap addr).chain l.home s' v l.found refl
              (update-SameKeys m.heap addr ep refl refl) (reset-SetInv healthy)
              (λ c t other old.
                SetInv-elsewhere m.heap m.name_index c t addr ep refl refl other old),
          refl,
          put_set-Located m addr ep s' refl l.inside,
        )
  ]

module _ (r : Runtime) (go : IsGo r) (m : Multiplexer) (addr : ℕ) (v : Inv m)
    (l : Located m addr) where
  head-SetInv :
      (block : Block)
      → SetInv (new_heap m.heap addr block) m.name_index (m.heap addr).chain (
          update_tip r
            (new_heap m.heap addr block)
            (height_changed (m.heap addr).blockhead block)
            block
            l.home)
  head-SetInv block =
      let ep = record (m.heap addr) { blockhead = some block } in
      let heap' = new_heap m.heap addr block in
      let old = v.sets (m.heap addr).chain l.home l.found in
      let changed = height_changed (m.heap addr).blockhead block in
      let (items, weights) = update_tip_keeps r heap' changed block l.home in
      record {
        owned = rw items (
            IsOwned-alike m.heap heap' m.name_index (m.heap addr).chain l.home.items
              (update-SameKeys m.heap addr ep refl refl) old.owned);
        tip = rw items (update_tip-IsTip r m.heap addr block l.home go l.inside old.tip);
        order = old.order;
        visited = rw items old.visited;
        built =
            weights
            ∙ old.built
            ∙ sym (
                weights_over-alike m.heap heap' [] old.order (
                  All-imp _ _ old.order
                    (λ e o us.
                      update_keeps (append_weight us) m.heap addr ep e.1
                        (unfold append_weight in refl))
                    (All-perm _ (Permᴰ.symm old.visited) old.owned)));
      }

  -- A new head leaves the invariant, and the updater does not panic.
  pub update_head-Inv :
      (block : Block) → (m' : Multiplexer) × (update_head r m addr block ≡ done m') × Inv m'
  unfolding update_head
  update_head-Inv block =
      let ep = record (m.heap addr) { blockhead = some block } in
      let heap' = new_heap m.heap addr block in
      let changed = height_changed (m.heap addr).blockhead block in
      let s' = update_tip r heap' changed block l.home in
      (
        put_set m heap' (m.heap addr).chain s',
        rw l.found refl,
        put_set-Inv m heap' (m.heap addr).chain l.home s' v l.found
            (update_tip_keeps r heap' changed block l.home).0
            (update-SameKeys m.heap addr ep refl refl) (head-SetInv block)
            (λ c t other old. SetInv-elsewhere m.heap m.name_index c t addr ep refl refl other old),
      )

update_by :
    (r r' : Runtime) (m : Multiplexer) (addr : ℕ) (healthy : Bool) (head : Option Block)
    → IsGo r
    → IsGo r'
    → Inv m
    → Located m addr
    → (m' : Multiplexer) × ((update_health r m addr healthy >>= λ n. elim head [
      | none ↦ done n
      | some block ↦ update_head r' n addr block
    ])
        ≡ done m')
      × Inv m'
update_by r r' m addr healthy none go go' v l =
    let (m', e, v', names, l') = update_health-Inv r go m addr v l healthy in (m', rw e refl, v')
update_by r r' m addr healthy (some block) go go' v l =
    let (m', e, v', names, l') = update_health-Inv r go m addr v l healthy in
    let (n, e', w) = update_head-Inv r' go' m' addr v' l' block in (n, rw e e', w)

-- Taking in any status leaves a multiplexer that is in order in order, and does not panic, whatever the
-- status says and whether its endpoint is known or not.
pub update_status-Inv :
    (r r' : Runtime) (m : Multiplexer) (cs : ChainStatus)
    → IsGo r
    → IsGo r'
    → Inv m
    → (m' : Multiplexer) × (update_status r r' m cs ≡ done m') × Inv m'
unfolding update_status Multiplexer.get
update_status-Inv r r' m cs go go' v =
    elim (Option-cases (lookup String_discrete cs.endpoint_name m.name_index)) [
      | inl e ↦ (m, rw (e, update_status) refl, v)
      | inr (addr, e) ↦
          let l = IsListed-Located m cs.endpoint_name addr (v.listed cs.endpoint_name addr e) in
          let (m', done', v') = update_by r r' m addr cs.healthy cs.blockhead go go' v l in
          (m', rw (e, update_status) done', v')
    ]

-- Taking in any sequence of statuses leaves a multiplexer that is in order in order, and does not
-- panic.
pub run_updator-Inv :
    (inbox : List (ChainStatus × Runtime × Runtime)) (m : Multiplexer)
    → All (λ x. IsGo x.1 × IsGo x.2) inbox
    → Inv m
    → (m' : Multiplexer) × (run_updator inbox m ≡ done m') × Inv m'
unfolding run_updator
run_updator-Inv [] m go v = (m, refl, v)
run_updator-Inv ((cs, r, r') ∷ rest) m go v =
    let (m', e, v') = update_status-Inv r r' m cs go.0.0 go.0.1 v in
    let (n, e', w) = run_updator-Inv rest m' go.1 v' in (n, rw e e', w)
