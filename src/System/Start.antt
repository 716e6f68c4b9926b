-- ===== src/System/Start.antt =====
-- From the configuration to every point of a run.
use nodemux.Common.{
  ℕ, String, Option, some, List, All, lookup, ◌≡◌, ap, subst, done, done-inj, Outcome-cases, arith,
  Bool-cases, inl, inr,
}
use nodemux.Endpoint.{EndpointConfig}
use nodemux.EndpointSet.{Heap}
use nodemux.Multiplexer.{Multiplexer, load_endpoints}
use nodemux.Multiplexer.Invariant.{Inv}
use nodemux.Multiplexer.Loading.{IsLoadable, load_endpoints-Inv}
use nodemux.Factory.{DelegatorFactory, support_chain}
use nodemux.Config.{NodemuxConfig}
use nodemux.Clients.{Url, Clients, redis_client}
use nodemux.Instance.{Chainhub, memory_hub, new_clients, new_multiplexer, multiplexer_from_config}
use nodemux.System.{System, Event, Reach, started, start_sync}
use nodemux.System.Order.{Reach-Inv}

pub new_multiplexer-Inv : (heap : Heap) (next : ℕ) → Inv (new_multiplexer heap next)
unfolding new_multiplexer lookup
new_multiplexer-Inv heap next = record {
  sets = λ chain s e. absurd (ground arith);
  listed = λ name a e. absurd (ground arith);
}

pub started-Inv : (m : Multiplexer) → Inv m → Inv (started m).multiplexer
unfolding started
started-Inv m v = record {
  sets = v.sets;
  listed = λ name a e.
      let l = v.listed name a e in
      record { named = l.named; used = l.used; home = l.home; found = l.found; held = l.held };
}

start_sync-Inv : (m : Multiplexer) (s : System) → start_sync m ≡ some s → Inv m → Inv s.multiplexer
unfolding start_sync
start_sync-Inv m s h v = elim (Bool-cases m.syncing) [
  | inl on ↦ absurd (cc (rw (on, start_sync) at h))
  | inr off ↦
      subst (λ x. Inv x.multiplexer) (some-inj (rw (off, start_sync) at h)) (started-Inv m v)
]
  where
    some-inj : {a b : System} → ◌≡◌ {A = Option System} (some a) (some b) → a ≡ b
    some-inj e = cc

pub made_from :
    {D : Type 0} (parse_url : String → Option Url) (digest : String → String)
    (visit : List (String × EndpointConfig) → List (String × EndpointConfig))
    (f : DelegatorFactory D) (cfg : NodemuxConfig) (heap : Heap) (next : ℕ) (loaded m : Multiplexer)
    (hub : Chainhub) (clients : Clients)
    → load_endpoints digest
        (λ namespace. (support_chain f namespace).0)
        (visit cfg.endpoints)
        (new_multiplexer heap next)
      ≡ done loaded
    → multiplexer_from_config parse_url digest visit f cfg heap next ≡ done (m, hub, clients)
    → loaded ≡ m
unfolding multiplexer_from_config
made_from parse_url digest visit f cfg heap next loaded m hub clients e h =
    elim (Outcome-cases (redis_client parse_url "default" (new_clients cfg))) [
      | inl p ↦ absurd (cc (rw (e, multiplexer_from_config, p) at h))
      | inr (found, p) ↦ ap (λ x. x.0) (done-inj (rw (e, multiplexer_from_config, p) at h))
    ]

-- A multiplexer that is made from a configuration whose chains parse and are supported, and whose sync
-- is started on the memory hub, is in order at every point of every run.
pub configured_run-Inv :
    {D : Type 0} (parse_url : String → Option Url) (digest : String → String)
    (visit : List (String × EndpointConfig) → List (String × EndpointConfig))
    (f : DelegatorFactory D) (cfg : NodemuxConfig) (heap : Heap) (next : ℕ) (m : Multiplexer)
    (clients : Clients) {s t : System} {events : List Event}
    → All (IsLoadable (λ namespace. (support_chain f namespace).0)) (visit cfg.endpoints)
    → multiplexer_from_config parse_url digest visit f cfg heap next ≡ done (m, memory_hub, clients)
    → start_sync m ≡ some s
    → Reach s events t
    → Inv t.multiplexer
configured_run-Inv parse_url digest visit f cfg heap next m clients {s} loadable made begun run =
    let (loaded, e, v) =
      load_endpoints-Inv digest (λ namespace. (support_chain f namespace).0) (visit cfg.endpoints)
        (new_multiplexer heap next) loadable (new_multiplexer-Inv heap next) in
    let same =
      made_from parse_url digest visit f cfg heap next loaded m memory_hub clients e made in
    Reach-Inv run (start_sync-Inv m s begun (subst Inv same v))
