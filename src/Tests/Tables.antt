-- ===== src/Tests/Tables.antt =====
-- Runs of the registration of delegators, of the checks of a configuration and of the choice among the
-- members of a transaction's set.
use nodemux.Common.{
  String, Bool, true, false, none, some, [], ◌∷◌, ◌≡◌, refl, String_discrete, ◌↔◌, pos, All,
}
use nodemux.Factory.{new_delegator_factory, support_chain}
use nodemux.Factory.Registration.{is_among}
use nodemux.Config.{NodemuxConfig, ServerConfig, validate_values, validate_server}
use nodemux.Config.Checks.{
  IsComplete, IsPassed, IsMetrics, IsAccount, IsEntrypoint, validate_values_iff,
  validate_server_iff,
}
use nodemux.Chains.{install_adaptors, rpc_registrations, rest_registrations}
use nodemux.Chains.Names.{names_of}
use nodemux.Chains.Installed.{installed, install_adaptors-support}
use nodemux.Presence.{among_members}
use nodemux.Presence.Members.{IsMember, among_members-IsMember}
use nodemux.Tests.{config_of, two}

tron_grid-among : is_among "tron-grid" installed ≡ true
unfolding is_among names_of rpc_registrations rest_registrations String_discrete
tron_grid-among = refl

install_adaptors-support_example :
    (support_chain (install_adaptors new_delegator_factory) "tron-grid").0 ≡ true
install_adaptors-support_example =
    install_adaptors-support new_delegator_factory "tron-grid" tron_grid-among

abbrev never : String → Bool
never url = false

abbrev plain : NodemuxConfig
plain = record {
  version = "";
  extra_chains = none;
  endpoints = ("tron01", config_of (pos 150)) ∷ [];
  stores = ("default", "redis://127.0.0.1/1") ∷ [];
}

validate_values_iff_example : ((validate_values never plain).1 ≡ none) ↔ (
    All (λ store. never store.1 ≡ false) plain.stores
    × All (λ entry. IsComplete never entry.1) plain.endpoints)
validate_values_iff_example = validate_values_iff never plain

abbrev server : ServerConfig String String
server = record {
  bind = "127.0.0.1:9000";
  tls_config = none;
  admin = none;
  metrics = none;
  auth_config = some "token";
  entrypoints =
      record {
        account = "a";
        chain = "eosio/mainnet";
        bind = ":80";
        auth_config = none;
        tls_config = none;
      }
      ∷ [];
  ratelimit = record { ip = pos 0; user = pos 0 };
  accounts = ("a", record { username = ""; ratelimit = record { ip = pos 5; user = pos 7 } }) ∷ [];
}

validate_server_iff_example : ((validate_server never never server).1 ≡ none) ↔ (
    IsPassed never server.tls_config
    × (IsPassed never server.auth_config
        × (IsMetrics never never server.metrics
            × (All IsAccount server.accounts × All (IsEntrypoint never never) server.entrypoints))))
validate_server_iff_example = validate_server_iff never never server

among_members-IsMember_example :
    IsMember two
      ("tron09" ∷ "tron02" ∷ [])
      (among_members (λ lim. 0) two ("tron09" ∷ "tron02" ∷ []))
among_members-IsMember_example =
    among_members-IsMember (λ lim. 0) two ("tron09" ∷ "tron02" ∷ []) (λ lim h. h)
