-- ===== src/Tests.antt =====
-- Concrete endpoints and multiplexers, on which the other modules of this folder run the model and
-- apply its theorems.
pub mod Core
pub mod Updates
pub mod Hubs
pub mod Streams
pub mod Commands
pub mod Tables
pub mod Replies
pub mod Runs
pub mod Stores
pub mod Servers
use mathlib.Core.List.{Permᴰ}
use mathlib.Core.List.Permᴰ
use nodemux.Common.{
  ℕ, zero, suc, ℤ, pos, negsuc, String, Bool, true, false, Option, none, some, List, [], ◌∷◌, ◌≡◌,
  refl, lookup, insert, String_discrete, arith,
}
use nodemux.Chain.{ChainRef, ChainRef_discrete}
use nodemux.Endpoint.{Endpoint, EndpointConfig, Block}
use nodemux.EndpointSet.{Heap, Entry, EndpointSet}
use nodemux.EndpointSet
use nodemux.Multiplexer.{Multiplexer, Runtime, IsGo, add}
use nodemux.Multiplexer.Invariant.{Inv}
use nodemux.Multiplexer.Adding.{add-Inv}

abbrev pub eosio : ChainRef
eosio = record { namespace = "eosio"; network = "mainnet" }

abbrev pub config_of : ℤ → EndpointConfig
config_of weight = record {
  chain = "eosio/mainnet";
  url = "http://127.0.0.1:8899/aa/bb/";
  streaming_url = "";
  headers = none;
  weight = weight;
  skip_methods = none;
  fetch_interval = pos 0;
  timeout = pos 0;
  options = none;
}

abbrev pub endpoint_of : String → ℤ → Endpoint
endpoint_of name weight = record {
  config = config_of weight;
  name = name;
  url_digest = "";
  chain = eosio;
  skip_methods = none;
  client_version = "";
  healthy = true;
  blockhead = none;
  client = none;
  connected = true;
}

-- The endpoints of the repository's test of weights.
abbrev pub two_heap : Heap
two_heap = elim [ zero ↦ endpoint_of "tron01" (pos 150) | suc n ↦ endpoint_of "tron02" (pos 60) ]

abbrev pub empty : Multiplexer
empty = record { heap = two_heap; next = 2; name_index = []; chain_index = []; syncing = false }

abbrev pub one : Multiplexer
one = (add 0 empty).0

abbrev pub two : Multiplexer
two = (add 1 one).0

pub model : Unit {0}
unfolding add lookup insert EndpointSet.add String_discrete ChainRef_discrete
    EndpointSet.new_endpoint_set
model = tt

empty-Inv : Inv empty
unfolding lookup
empty-Inv = record {
  sets = λ chain s e. absurd (ground arith);
  listed = λ name a e. absurd (ground arith);
}

pub one-Inv : Inv one
one-Inv = add-Inv empty 0 (omega arith) refl empty-Inv

pub two-Inv : Inv two
unfolding add lookup
two-Inv = add-Inv one 1 (omega arith) refl one-Inv

abbrev pub steady : Runtime
steady = record { random = λ lim. pos 0; visit = λ items. items }

pub steady-IsGo : IsGo steady
steady-IsGo = record {
  in_range = λ lim h. (omega arith, h);
  visits_all = λ items. Permᴰ.refl items;
}
