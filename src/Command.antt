-- ===== src/Command.antt =====
-- server/command.go: the start of the server, and the loop that takes in a new configuration when its file
-- is written. What a file holds is an argument: the configuration, or `none` where it is refused.
pub mod Replacing
pub mod Serving
use nodemux.Common.{
  ℕ, String, Option, none, some, List, [], ◌∷◌, is_empty, if◌then◌else◌, Outcome, done, ◌>>=◌,
}
use nodemux.Endpoint.{EndpointConfig}
use nodemux.EndpointSet.{Heap}
use nodemux.Multiplexer.{Multiplexer}
use nodemux.Factory.{DelegatorFactory, set_config}
use nodemux.Chains.{Delegator, install_adaptors}
use nodemux.Config.{NodemuxConfig}
use nodemux.Clients.{Url}
use nodemux.Instance.{multiplexer_from_config, set_multiplexer}
use nodemux.System.{start_sync}

-- The delegator factory, the one instance, those that it has been before, and the memory.
pub record Process : Type 0 where
  pub factory : DelegatorFactory Delegator
  pub instance' : Option Multiplexer
  pub retired : List Multiplexer
  pub heap : Heap
  pub next : ℕ

pub data WatchEvent : Type 0 where
  written : Option NodemuxConfig → WatchEvent
  other_event watch_error : WatchEvent

unfoldable pub bind_of : Option String → String → String
bind_of none flag = ""
bind_of (some configured) flag = if is_empty flag then configured else flag

-- `StartHTTPServer`
unfoldable pub listen_at : String → String
listen_at bind = if is_empty bind then "127.0.0.1:9000" else bind

-- `b.StartSync`, on the multiplexer itself.
unfoldable pub begin_sync : Multiplexer → Multiplexer
unfolding start_sync
begin_sync m = elim (start_sync m) [ none ↦ m | some s ↦ s.multiplexer ]

unfoldable pub retire : Option Multiplexer → List Multiplexer → List Multiplexer
retire none retired = retired
retire (some old) retired = old ∷ retired

unfoldable pub replace_instance : Process → Multiplexer → Process
unfolding set_multiplexer retire begin_sync
replace_instance p m =
    let (old, instance') = set_multiplexer p.instance' (begin_sync m) in
    record p { instance' = instance'; retired = retire old p.retired; heap = m.heap; next = m.next }

-- `visit` is the order in which the configured endpoints are visited.
module _ (parse_url : String → Option Url) (digest : String → String)
    (visit : List (String × EndpointConfig) → List (String × EndpointConfig)) where
  -- The delegators, the multiplexer and its start, for a configuration. The start of the server sets the
  -- instance before it begins the sync, `watchConfig` after; the multiplexer is the same one.
  unfoldable pub serve_config : NodemuxConfig → Process → Outcome Process
  unfolding install_adaptors multiplexer_from_config replace_instance set_config
  serve_config cfg p =
      let factory = install_adaptors (set_config cfg.extra_chains p.factory) in
      multiplexer_from_config parse_url digest visit factory cfg p.heap p.next
      >>= λ (m, hub, clients). done (replace_instance (record p { factory = factory }) m)

  -- The loop of `watchConfig`.
  unfoldable pub watch_event : WatchEvent → Process → Outcome Process
  unfolding serve_config
  watch_event (written none) p = done p
  watch_event (written (some nbcfg)) p = serve_config nbcfg p
  watch_event other_event p = done p
  watch_event watch_error p = done p

  unfoldable pub watch_config : List WatchEvent → Process → Outcome Process
  unfolding watch_event
  watch_config [] p = done p
  watch_config (event ∷ rest) p = watch_event event p >>= λ q. watch_config rest q
