-- ===== src/Tests/Commands.antt =====
-- A process whose configuration is written anew.
use nodemux.Common.{true, none, some, List, [], ◌∷◌, ◌≡◌, refl, String_discrete, lookup, done}
use nodemux.Factory.{registered_chains, new_delegator_factory}
use nodemux.Factory.Registration.{is_among}
use nodemux.Chains.{namespace, rpc_registrations, rest_registrations}
use nodemux.Chains.Names.{names_with}
use nodemux.Chains.Installed.{installed_with}
use nodemux.Clients.{redis_client}
use nodemux.Instance.{new_clients}
use nodemux.Chain.{parse_chain}
use nodemux.Command.{serve_config, Process, WatchEvent, written, other_event, watch_config}
use nodemux.Command.Serving.{
  IsUsable, IsServing, serve_config-IsServing, last_written, watch_config-IsServing,
  watch_config-last_written,
}
use nodemux.Tests.{eosio}
use nodemux.Tests.Runs.{configured, no_url, one_heap, no_clients}

configured_opened : redis_client no_url "default" (new_clients configured) ≡ done (no_clients, none)
unfolding redis_client new_clients lookup String_discrete
configured_opened = refl

eosio_installed : is_among "eosio" (installed_with none) ≡ true
unfolding is_among names_with namespace registered_chains rpc_registrations rest_registrations
    String_discrete
eosio_installed = refl

eosio_parsed : parse_chain "eosio/mainnet" ≡ some eosio
unfolding parse_chain
eosio_parsed = refl

abbrev usable : IsUsable no_url (λ url. "") (λ es. es) configured
usable = record {
  loadable = ((eosio, eosio_parsed, eosio_installed), tt);
  clients = no_clients;
  store = none;
  opened = configured_opened;
}

abbrev fresh : Process
fresh = record {
  factory = new_delegator_factory;
  instance' = none;
  retired = [];
  heap = one_heap;
  next = 0;
}

abbrev begun :
    (q : Process) × (serve_config no_url (λ url. "") (λ es. es) configured fresh ≡ done q)
    × IsServing no_url (λ url. "") (λ es. es) configured q
begun = serve_config-IsServing no_url (λ url. "") (λ es. es) configured fresh tt usable

abbrev events : List WatchEvent
events = other_event ∷ written none ∷ written (some configured) ∷ []

watch_config-IsServing_example :
    (q : Process) × (watch_config no_url (λ url. "") (λ es. es) events begun.0 ≡ done q)
    × IsServing no_url (λ url. "") (λ es. es) (last_written configured events) q
watch_config-IsServing_example =
    watch_config-IsServing no_url (λ url. "") (λ es. es) events configured begun.0 begun.2
      (tt, (tt, (usable, tt)))

abbrev ended :
    (q : Process) × (watch_config no_url (λ url. "") (λ es. es) events begun.0 ≡ done q)
    × IsServing no_url (λ url. "") (λ es. es) (last_written configured events) q
ended =
    watch_config-IsServing no_url (λ url. "") (λ es. es) events configured begun.0 begun.2
      (tt, (tt, (usable, tt)))

watch_config-last_written_example :
    IsServing no_url (λ url. "") (λ es. es) (last_written configured events) ended.0
watch_config-last_written_example =
    watch_config-last_written no_url (λ url. "") (λ es. es) events configured begun.0 ended.0
      begun.2 ended.1
