-- ===== src/Tests/Runs.antt =====
-- Runs of the loops, the hub and the updater over the two endpoints.
use nodemux.Common.{
  String, Option, pos, done, false, some, none, List, [], ◌∷◌, ◌≡◌, refl, arith, ℕ_discrete,
}
use nodemux.Chain.{parse_chain, must_parse_chain}
use nodemux.Endpoint.{new_endpoint}
use nodemux.EndpointSet.{Heap}
use nodemux.Multiplexer.{Multiplexer, add}
use nodemux.Multiplexer.Loading.{made_endpoint}
use nodemux.Config.{NodemuxConfig}
use nodemux.Factory.{
  DelegatorFactory, new_delegator_factory, register_rpc, registered_chains, register_all,
  support_chain,
}
use nodemux.Clients.{Url, Clients, redis_client}
use nodemux.Instance.{multiplexer_from_config, memory_hub}
use nodemux.System.Start.{started-Inv, configured_run-Inv}
use nodemux.Multiplexer.{update}
use nodemux.Multiplexer.Invariant.{Inv}
use nodemux.Sync.{got, failed, get_blockhead, block_is_equal, update_block, unhealthy_status}
use nodemux.Hub.Delivery.{count}
use nodemux.Hub.Memory.{new_memory_chainhub}
use nodemux.System.{
  subscribe, joined, System, Event, fetched, taken, fetch, take, Reach, start, later, started,
  start_sync, after_sub, after_fetch, fetched_by, after_take, upd,
}
use nodemux.System.Order.{Reach-Inv}
use nodemux.System.View.{shown, view, in_flight}
use nodemux.System.Refinement.{latest}
use nodemux.System.Drain.{Quiet}
use nodemux.System.Begun.{subscribed_run-view, subscribed_run-settles}
use nodemux.System.Unheard.{IsCompared, Reach-unheard}
use nodemux.Tests.{two, two-Inv, steady, steady-IsGo, model, eosio, config_of, endpoint_of}
use nodemux.Tests.Updates.{head_seven}

-- The updater has subscribed.
abbrev begun : System
begun = after_sub (started two) upd []

abbrev asked : System
asked = after_fetch (after_fetch begun 0 (got (some head_seven))) 1 failed

abbrev on_the_way : System
on_the_way =
    after_take asked (update_block (two.heap 0) head_seven) (unhealthy_status (two.heap 1) ∷ [])

abbrev run_so_far : List Event
run_so_far = taken ∷ fetched 1 failed ∷ fetched 0 (got (some head_seven)) ∷ []

ran : Reach begun run_so_far on_the_way
unfolding after_fetch fetched_by get_blockhead block_is_equal after_sub started model update
    new_memory_chainhub update_block unhealthy_status ℕ_discrete
ran =
    later
      (later (later start (fetch "tron01" 0 (got (some head_seven)) refl refl (omega arith)))
        (fetch "tron02" 1 failed refl refl (omega arith)))
      (take _ _ refl refl)

begun-Inv : Inv begun.multiplexer
unfolding after_sub started
begun-Inv = record {
  sets = two-Inv.sets;
  listed = λ name a e.
      let l = two-Inv.listed name a e in
      record { named = l.named; used = l.used; home = l.home; found = l.found; held = l.held };
}

Reach-Inv_example : Inv on_the_way.multiplexer
Reach-Inv_example = Reach-Inv ran begun-Inv

subscribed_run-view_example : view on_the_way "tron01" 0 ≡ latest 0 (shown (two.heap 0)) run_so_far
unfolding model
subscribed_run-view_example =
    subscribed_run-view two "tron01" 0 two-Inv refl ran (tt, (tt, (tt, tt)))

subscribed_run-settles_example :
    (u : System) × Quiet on_the_way u
    × (in_flight u ≡ [])
    × (shown (u.multiplexer.heap 0) ≡ latest 0 (shown (two.heap 0)) run_so_far)
unfolding model
subscribed_run-settles_example =
    subscribed_run-settles two "tron01" 0 two-Inv refl steady steady-IsGo ran (tt, (tt, (tt, tt)))

-- The statuses of both endpoints are taken before the updater is subscribed: it is sent the one snapshot
-- of their chain.
abbrev early : System
early = after_fetch (after_fetch (started two) 0 (got (some head_seven))) 1 failed

abbrev taken_early : System
taken_early =
    after_take
      (after_take early (update_block (two.heap 0) head_seven) (unhealthy_status (two.heap 1) ∷ []))
      (unhealthy_status (two.heap 1)) []

abbrev missed : System
missed = after_sub taken_early upd taken_early.hub.snapshots

missed_ran :
    Reach
      (started two)
      (joined upd ∷ taken ∷ taken ∷ fetched 1 failed ∷ fetched 0 (got (some head_seven)) ∷ [])
      missed
unfolding after_fetch fetched_by get_blockhead block_is_equal after_sub after_take started model
    update new_memory_chainhub update_block unhealthy_status ℕ_discrete
missed_ran =
    later
      (later
        (later
          (later (later start (fetch "tron01" 0 (got (some head_seven)) refl refl (omega arith)))
            (fetch "tron02" 1 failed refl refl (omega arith)))
          (take _ _ refl refl))
        (take _ _ refl refl))
      (subscribe upd (λ s. s) refl)

missed-IsCompared : IsCompared "tron01" 0 head_seven missed
unfolding after_sub after_take after_fetch fetched_by started model count new_memory_chainhub
    ℕ_discrete get_blockhead block_is_equal
missed-IsCompared = record {
  inv = Reach-Inv missed_ran (started-Inv two two-Inv);
  known = refl;
  once = refl;
  last = refl;
}

Reach-unheard_example :
    IsCompared "tron01" 0 head_seven (after_fetch missed 0 (got (some head_seven)))
    × (view (after_fetch missed 0 (got (some head_seven))) "tron01" 0 ≡ view missed "tron01" 0)
unfolding after_sub after_take after_fetch fetched_by started model new_memory_chainhub
    get_blockhead block_is_equal ℕ_discrete
Reach-unheard_example =
    Reach-unheard (later start (fetch "tron01" 0 (got (some head_seven)) refl refl (omega arith)))
      missed-IsCompared ((λ p. refl), tt)

abbrev pub configured : NodemuxConfig
configured = record {
  version = "";
  extra_chains = none;
  endpoints = ("tron01", config_of (pos 150)) ∷ [];
  stores = [];
}

abbrev registered : DelegatorFactory String
registered = register_rpc (λ d. d) "eosio" ("eosio" ∷ []) new_delegator_factory

abbrev pub no_url : String → Option Url
no_url url = none

abbrev pub one_heap : Heap
one_heap = λ addr. endpoint_of "" (pos 1)

abbrev pub no_clients : Clients
no_clients = record { stores = some []; redis_clients = []; connected = 0 }

abbrev made : Multiplexer
made =
    (add 0 (record {
      heap = update one_heap 0 (made_endpoint (λ url. "") "tron01" (config_of (pos 150)) eosio);
      next = 1;
      name_index = [];
      chain_index = [];
      syncing = false;
    })).0

made_so :
    multiplexer_from_config no_url (λ url. "") (λ es. es) registered configured one_heap 0
    ≡ done (made, memory_hub, no_clients)
unfolding multiplexer_from_config model registered_chains register_rpc register_all
    new_delegator_factory support_chain redis_client must_parse_chain new_endpoint
made_so = refl

configured_run-Inv_example : Inv (after_fetch (started made) 0 failed).multiplexer
unfolding model start_sync parse_chain support_chain register_rpc new_delegator_factory update
    ℕ_discrete fetched_by
configured_run-Inv_example =
    configured_run-Inv no_url (λ url. "") (λ es. es) registered configured one_heap 0 made
      no_clients ((eosio, refl, refl), tt) made_so refl
      (later start (fetch "tron01" 0 failed refl refl (omega arith)))
