-- ===== src/Command/Serving.antt =====
-- What serves after any number of changes of the configuration.
use nodemux.Common.{
  bind-done, done-inj, subst, Bool, ℕ, String, true, Option, none, some, List, [], ◌∷◌, All,
  All-imp, ◌≡◌, refl, done,
}
use nodemux.Endpoint.{EndpointConfig}
use nodemux.EndpointSet.{Heap}
use nodemux.Multiplexer.{Multiplexer, load_endpoints}
use nodemux.Multiplexer.Invariant.{Inv}
use nodemux.Multiplexer.Loading.{IsLoadable, load_endpoints-Inv, load_endpoints-IsLoadable}
use nodemux.Factory.{DelegatorFactory, set_config, support_chain}
use nodemux.Factory.Registration.{is_among}
use nodemux.Chains.{Delegator, install_adaptors}
use nodemux.Chains.Installed.{installed_with, install_adaptors-installed_with}
use nodemux.Config.{NodemuxConfig}
use nodemux.Clients.{Url, Clients, RedisClient, redis_client}
use nodemux.Instance.{Chainhub, hub_of, new_clients, new_multiplexer, multiplexer_from_config}
use nodemux.System.Start.{new_multiplexer-Inv, made_from}
use nodemux.Command.{
  Process, WatchEvent, written, other_event, watch_error, begin_sync, replace_instance,
  serve_config, watch_event, watch_config,
}
use nodemux.Command.Replacing.{
  IsStopped, begin_sync-syncing, begin_sync-Inv, replace_instance-IsStopped,
  instance-replace_instance,
}

-- The last configuration that the file held and that was not refused.
unfoldable pub last_written : NodemuxConfig → List WatchEvent → NodemuxConfig
last_written cfg [] = cfg
last_written cfg (written none ∷ rest) = last_written cfg rest
last_written cfg (written (some new) ∷ rest) = last_written new rest
last_written cfg (other_event ∷ rest) = last_written cfg rest
last_written cfg (watch_error ∷ rest) = last_written cfg rest

module _ (parse_url : String → Option Url) (digest : String → String)
    (visit : List (String × EndpointConfig) → List (String × EndpointConfig)) where
  -- The chains of the endpoints parse, their namespaces are among those that are installed or that the
  -- configuration adds for a delegator, and the store for the statuses is opened without a panic, or
  -- there is none.
  pub record IsUsable (cfg : NodemuxConfig) : Type 0 where
    pub loadable :
        All
          (IsLoadable (λ name. is_among name (installed_with cfg.extra_chains)))
          (visit cfg.endpoints)
    pub clients : Clients
    pub store : Option RedisClient
    pub opened : redis_client parse_url "default" (new_clients cfg) ≡ done (clients, store)

  -- The instance is what `MultiplexerFromConfig` makes of the configuration, its sync goes on, it is in
  -- order, and all the instances before it are stopped.
  pub record IsServing (cfg : NodemuxConfig) (p : Process) : Type 0 where
    pub before : DelegatorFactory Delegator
    pub heap : Heap
    pub next : ℕ
    pub m : Multiplexer
    pub hub : Chainhub
    pub clients : Clients
    pub registered : p.factory ≡ install_adaptors (set_config cfg.extra_chains before)
    pub made :
        multiplexer_from_config parse_url digest visit p.factory cfg heap next
        ≡ done (m, hub, clients)
    pub instance_is : p.instance' ≡ some (begin_sync m)
    pub syncing : (begin_sync m).syncing ≡ true
    pub in_order : Inv (begin_sync m)
    pub stopped : All IsStopped p.retired

  made_of :
      (cfg : NodemuxConfig) (before : DelegatorFactory Delegator) (heap : Heap) (next : ℕ)
      → IsUsable cfg
      → (m : Multiplexer) × (hub : Chainhub) × (clients : Clients) × (multiplexer_from_config
            parse_url digest visit
            (install_adaptors (set_config cfg.extra_chains before))
            cfg
            heap
            next
          ≡ done (m, hub, clients))
        × Inv m
  unfolding multiplexer_from_config set_config
  made_of cfg before heap next u =
      let f = install_adaptors (set_config cfg.extra_chains before) in
      let supports = install_adaptors-installed_with (set_config cfg.extra_chains before) in
      let (m, loaded, v) =
        load_endpoints-Inv digest (λ namespace. (support_chain f namespace).0) (visit cfg.endpoints)
          (new_multiplexer heap next)
          (All-imp _ _ (visit cfg.endpoints) (λ e l. (l.0, l.1, supports l.0.namespace l.2))
            u.loadable)
          (new_multiplexer-Inv heap next) in
      (m, hub_of u.store, u.clients, rw (loaded, multiplexer_from_config, u.opened) refl, v)

  made-IsServing :
      (cfg : NodemuxConfig) (p : Process) (m : Multiplexer) (hub : Chainhub) (clients : Clients)
      → All IsStopped p.retired
      → multiplexer_from_config parse_url digest visit
          (install_adaptors (set_config cfg.extra_chains p.factory))
          cfg
          p.heap
          p.next
        ≡ done (m, hub, clients)
      → Inv m
      → IsServing cfg (
          replace_instance
            (record p { factory = install_adaptors (set_config cfg.extra_chains p.factory) })
            m)
  made-IsServing cfg p m hub clients stopped made v =
      let f = install_adaptors (set_config cfg.extra_chains p.factory) in
      let p' : Process = record p { factory = f } in
      record {
        before = p.factory;
        heap = p.heap;
        next = p.next;
        m = m;
        hub = hub;
        clients = clients;
        registered = unfold replace_instance in refl;
        made = unfold replace_instance in made;
        instance_is = instance-replace_instance p' m;
        syncing = begin_sync-syncing m;
        in_order = begin_sync-Inv m v;
        stopped = replace_instance-IsStopped p' m stopped;
      }

  pub serve_config-IsServing :
      (cfg : NodemuxConfig) (p : Process)
      → All IsStopped p.retired
      → IsUsable cfg
      → (q : Process) × (serve_config parse_url digest visit cfg p ≡ done q) × IsServing cfg q
  unfolding serve_config
  serve_config-IsServing cfg p stopped u =
      let (m, hub, clients, made, v) = made_of cfg p.factory p.heap p.next u in
      let f = install_adaptors (set_config cfg.extra_chains p.factory) in
      (
        replace_instance (record p { factory = f }) m,
        rw (made, serve_config) refl,
        made-IsServing cfg p m hub clients stopped made v,
      )

  -- What is made is in order, whatever the configuration is.
  made-Inv :
      (f : DelegatorFactory Delegator) (cfg : NodemuxConfig) (heap : Heap) (next : ℕ)
      (m : Multiplexer) (hub : Chainhub) (clients : Clients)
      → multiplexer_from_config parse_url digest visit f cfg heap next ≡ done (m, hub, clients)
      → Inv m
  unfolding multiplexer_from_config
  made-Inv f cfg heap next m hub clients made =
      let supports : String → Bool = λ namespace. (support_chain f namespace).0 in
      let fresh = new_multiplexer heap next in
      let load = load_endpoints digest supports (visit cfg.endpoints) fresh in
      let (loaded, e, rest) = bind-done load _ (m, hub, clients) made in
      let fit = load_endpoints-IsLoadable digest supports (visit cfg.endpoints) fresh loaded e in
      let (again, e', v) =
        load_endpoints-Inv digest supports (visit cfg.endpoints) fresh fit
          (new_multiplexer-Inv heap next) in
      subst Inv (made_from parse_url digest visit f cfg heap next again m hub clients e' made) v

  serve_config-done :
      (cfg : NodemuxConfig) (p q : Process)
      → All IsStopped p.retired
      → serve_config parse_url digest visit cfg p ≡ done q
      → IsServing cfg q
  unfolding serve_config
  serve_config-done cfg p q stopped h =
      let f = install_adaptors (set_config cfg.extra_chains p.factory) in
      let make = multiplexer_from_config parse_url digest visit f cfg p.heap p.next in
      let ((m, hub, clients), made, e) = bind-done make _ q h in
      subst (IsServing cfg) (done-inj e) (
        made-IsServing cfg p m hub clients stopped made
          (made-Inv f cfg p.heap p.next m hub clients made))

  abbrev pub IsFit : WatchEvent → Type 0
  IsFit (written none) = Unit {0}
  IsFit (written (some cfg)) = IsUsable cfg
  IsFit other_event = Unit {0}
  IsFit watch_error = Unit {0}

  -- From a process that serves a configuration, and whatever is written to its file after that that is
  -- refused or usable: the loop that watches the file does not panic, and then the process serves the
  -- last configuration that was not refused. A configuration is usable if the chains of its endpoints
  -- parse, their namespaces are installed or added by it to those of a delegator, and its store
  -- "default" is opened without a panic, or there is none.
  pub watch_config-IsServing :
      (events : List WatchEvent) (cfg : NodemuxConfig) (p : Process)
      → IsServing cfg p
      → All IsFit events
      → (q : Process) × (watch_config parse_url digest visit events p ≡ done q)
        × IsServing (last_written cfg events) q
  unfolding watch_config watch_event last_written
  watch_config-IsServing [] cfg p s fit = (p, refl, s)
  watch_config-IsServing (written none ∷ rest) cfg p s fit =
      watch_config-IsServing rest cfg p s fit.1
  watch_config-IsServing (written (some new) ∷ rest) cfg p s fit =
      let (q, served, s') = serve_config-IsServing new p s.stopped fit.0 in
      let (last, ran, s'') = watch_config-IsServing rest new q s' fit.1 in
      (last, rw (served, watch_config, watch_event) ran, s'')
  watch_config-IsServing (other_event ∷ rest) cfg p s fit =
      watch_config-IsServing rest cfg p s fit.1
  watch_config-IsServing (watch_error ∷ rest) cfg p s fit =
      watch_config-IsServing rest cfg p s fit.1

  -- From a process that serves a configuration, whatever is written to its file after that, usable or
  -- not: unless the loop that watches the file panics, the process then serves the last configuration
  -- that was not refused.
  pub watch_config-last_written :
      (events : List WatchEvent) (cfg : NodemuxConfig) (p q : Process)
      → IsServing cfg p
      → watch_config parse_url digest visit events p ≡ done q
      → IsServing (last_written cfg events) q
  unfolding watch_config watch_event last_written
  watch_config-last_written [] cfg p q s h = subst (IsServing cfg) (done-inj h) s
  watch_config-last_written (written none ∷ rest) cfg p q s h =
      watch_config-last_written rest cfg p q s h
  watch_config-last_written (written (some new) ∷ rest) cfg p q s h =
      let (served, e, later) = bind-done (serve_config parse_url digest visit new p) _ q h in
      watch_config-last_written rest new served q (serve_config-done new p served s.stopped e) later
  watch_config-last_written (other_event ∷ rest) cfg p q s h =
      watch_config-last_written rest cfg p q s h
  watch_config-last_written (watch_error ∷ rest) cfg p q s h =
      watch_config-last_written rest cfg p q s h
