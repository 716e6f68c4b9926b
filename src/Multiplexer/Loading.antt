-- ===== src/Multiplexer/Loading.antt =====
-- `LoadFromConfig` and the invariant of the indexes.
use mathlib.Core.List.Permᴰ
use nodemux.Common.{
  Option-cases, Bool-cases, inl, inr, ℕ, suc, ◌<◌, String, Bool, true, none, some, List, [], ◌∷◌,
  All, All-imp, All-perm, lookup, ◌≡◌, refl, sym, ap, ◌∙◌, done, arith, ℕ_discrete, if_neg,
}
use nodemux.Chain.{ChainRef, ChainRef_discrete, parse_chain, must_parse_chain}
use nodemux.Endpoint.{Endpoint, EndpointConfig, new_endpoint, mark_methods}
use nodemux.EndpointSet.{Heap, Entry, EndpointSet, append_weight}
use nodemux.Multiplexer.{Multiplexer, update, add, load_endpoints}
use nodemux.Multiplexer.Invariant.{Inv, SetInv, IsOwned}
use nodemux.Multiplexer.Adding.{add-Inv}
use nodemux.Sync.Store.{update_self, weights_over-alike, IsTip-alike}

-- A set whose endpoints are the same in two heaps.
SetInv-same :
    (heap heap' : Heap) (names : List Entry) (chain : ChainRef) (s : EndpointSet)
    → All (λ e. heap' e.1 ≡ heap e.1) s.items
    → SetInv heap names chain s
    → All (IsOwned heap' names chain) s.items
    → SetInv heap' names chain s
SetInv-same heap heap' names chain s same v owned = record {
  owned = owned;
  tip =
      IsTip-alike heap heap' s.items s.max_tip_height
        (All-imp _ _ s.items (λ e p. ap (λ x. x.blockhead) p) same) v.tip;
  order = v.order;
  visited = v.visited;
  built =
      v.built
      ∙ sym (
          weights_over-alike heap heap' [] v.order (
            All-imp _ _ v.order (λ e p ws. ap (append_weight ws) p)
              (All-perm _ (Permᴰ.symm v.visited) same)));
}

module _ (m : Multiplexer) (ep : Endpoint) (v : Inv m) where
  abbrev allocated : Multiplexer
  allocated = record m { heap = update m.heap m.next ep; next = suc m.next }

  kept : (addr : ℕ) → addr < m.next → update m.heap m.next ep addr ≡ m.heap addr
  unfolding update
  kept addr used = if_neg (ℕ_discrete addr m.next) (λ p. omega arith) ep (m.heap addr)

  kept_owned :
      (chain : ChainRef) (e : Entry)
      → IsOwned m.heap m.name_index chain e
      → update m.heap m.next ep e.1 ≡ m.heap e.1
  kept_owned chain e o = kept e.1 ((v.listed e.0 e.1 o.2).used)

  -- An endpoint at a new address leaves a multiplexer in order.
  allocated-Inv : Inv allocated
  allocated-Inv = record {
    sets = λ chain s e.
        let old = v.sets chain s e in
        SetInv-same m.heap (update m.heap m.next ep) m.name_index chain s
          (All-imp _ _ s.items (kept_owned chain) old.owned) old
          (All-imp _ _ s.items
            (λ x o.
              let k = kept_owned chain x o in
              (ap (λ y. y.name) k ∙ o.0, ap (λ y. y.chain) k ∙ o.1, o.2))
            old.owned);
    listed = λ name addr e.
        let l = v.listed name addr e in
        let k = kept addr l.used in
        record {
          named = ap (λ y. y.name) k ∙ l.named;
          used = omega (arith, l.used);
          home = l.home;
          found = ap (λ y. lookup ChainRef_discrete y.chain m.chain_index) k ∙ l.found;
          held = l.held;
        };
  }

-- The chain of an entry parses, and its namespace is supported.
abbrev pub IsLoadable : (String → Bool) → String × EndpointConfig → Type 0
IsLoadable supported entry =
    (chain : ChainRef) × (parse_chain entry.1.chain ≡ some chain)
    × (supported chain.namespace ≡ true)

abbrev pub made_endpoint : (String → String) → String → EndpointConfig → ChainRef → Endpoint
made_endpoint digest name epcfg chain = record {
  config = epcfg;
  name = name;
  url_digest = digest epcfg.url;
  chain = chain;
  skip_methods = elim epcfg.skip_methods [
    | none ↦ none
    | some methods ↦ some (mark_methods methods [])
  ];
  client_version = "";
  healthy = true;
  blockhead = none;
  client = none;
  connected = true;
}

new_endpoint_done :
    (digest : String → String) (name : String) (epcfg : EndpointConfig) (chain : ChainRef)
    → parse_chain epcfg.chain ≡ some chain
    → (ep : Endpoint) × (new_endpoint digest name epcfg ≡ done ep) × (ep.blockhead ≡ none)
unfolding new_endpoint must_parse_chain
new_endpoint_done digest name epcfg chain e =
    (made_endpoint digest name epcfg chain, rw (e, new_endpoint) refl, refl)

load_endpoints-cons :
    (digest : String → String) (supported : String → Bool) (name : String) (epcfg : EndpointConfig)
    (rest : List (String × EndpointConfig)) (m : Multiplexer) (chain : ChainRef) (ep : Endpoint)
    → parse_chain epcfg.chain ≡ some chain
    → supported chain.namespace ≡ true
    → new_endpoint digest name epcfg ≡ done ep
    → load_endpoints digest supported ((name, epcfg) ∷ rest) m
      ≡ load_endpoints digest supported rest
          (add m.next (record m { heap = update m.heap m.next ep; next = suc m.next })).0
unfolding load_endpoints must_parse_chain
load_endpoints-cons digest supported name epcfg rest m chain ep e yes_supported made =
    rw (e, load_endpoints) (rw (yes_supported, made) refl)

-- If the chain of each configured endpoint parses and its namespace is supported, `LoadFromConfig` does
-- not panic, and leaves a multiplexer that is in order in order, whatever the names are.
pub load_endpoints-Inv :
    (digest : String → String) (supported : String → Bool)
    (entries : List (String × EndpointConfig)) (m : Multiplexer)
    → All (IsLoadable supported) entries
    → Inv m
    → (m' : Multiplexer) × (load_endpoints digest supported entries m ≡ done m') × Inv m'
load_endpoints-Inv digest supported [] m loadable v = (m, unfold load_endpoints in refl, v)
load_endpoints-Inv digest supported ((name, epcfg) ∷ rest) m loadable v =
    let (chain, e, yes_supported) = loadable.0 in
    let (ep, made, bare) = new_endpoint_done digest name epcfg chain e in
    let grown : Multiplexer = record m { heap = update m.heap m.next ep; next = suc m.next } in
    let v' =
      add-Inv grown m.next (omega arith)
        (ap (λ x. x.blockhead) (update_self m.heap m.next ep) ∙ bare) (allocated-Inv m ep v) in
    let (m', loaded, w) =
      load_endpoints-Inv digest supported rest (add m.next grown).0 loadable.1 v' in
    (
      m',
      load_endpoints-cons digest supported name epcfg rest m chain ep e yes_supported made ∙ loaded,
      w,
    )

-- `LoadFromConfig` panics at a chain that does not parse, or that is not supported.
pub load_endpoints-IsLoadable :
    (digest : String → String) (supported : String → Bool)
    (entries : List (String × EndpointConfig)) (m m' : Multiplexer)
    → load_endpoints digest supported entries m ≡ done m'
    → All (IsLoadable supported) entries
unfolding load_endpoints must_parse_chain
load_endpoints-IsLoadable digest supported [] m m' h = tt
load_endpoints-IsLoadable digest supported ((name, epcfg) ∷ rest) m m' h =
    elim (Option-cases (parse_chain epcfg.chain)) [
      | inl e ↦ absurd (cc (rw (e, load_endpoints) at h))
      | inr (chain, e) ↦ elim (Bool-cases (supported chain.namespace)) [
        | inr no_support ↦ absurd (cc (rw (e, load_endpoints, no_support) at h))
        | inl yes_supported ↦
            let (ep, made, bare) = new_endpoint_done digest name epcfg chain e in
            let grown : Multiplexer = record m {
              heap = update m.heap m.next ep;
              next = suc m.next;
            } in
            (
              (chain, e, yes_supported),
              load_endpoints-IsLoadable digest supported rest (add m.next grown).0 m' (
                  sym (
                    load_endpoints-cons digest supported name epcfg rest m chain ep e yes_supported
                      made)
                  ∙ h),
            )
      ]
    ]
