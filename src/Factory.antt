-- ===== src/Factory.antt =====
-- core/delegator_factory.go: the delegators that serve a namespace. A delegator is a value of the type
-- `D`, and all that is used of it here is its namespace.
pub mod Registration
use nodemux.Common.{
  ℕ, String, Bool, true, false, Option, none, some, List, [], ◌∷◌, ◌++◌, String_discrete, lookup,
  insert, Outcome, done, panic, or_panic,
}

pub data ApiType : Type 0 where
  no_api api_jsonrpc api_rest api_graph_ql : ApiType

-- `extra_chains` is what the configuration adds, `none` with no configuration or no such entry in it.
pub record DelegatorFactory (D : Type 0) : Type 0 where
  pub extra_chains : Option (List (String × List String))
  pub rpc_delegators : List (String × D)
  pub rest_delegators : List (String × D)
  pub graph_delegators : List (String × D)

module _ {D : Type 0} where
  unfoldable pub new_delegator_factory : DelegatorFactory D
  new_delegator_factory = record {
    extra_chains = none;
    rpc_delegators = [];
    rest_delegators = [];
    graph_delegators = [];
  }

  -- `SetConfig`, of the configuration's ExtraChains.
  unfoldable pub set_config :
      Option (List (String × List String)) → DelegatorFactory D → DelegatorFactory D
  set_config extra f = record f { extra_chains = extra }

  unfoldable pub registered_chains : DelegatorFactory D → String → List String → List String
  registered_chains f namespace chains = elim f.extra_chains [
    | none ↦ chains
    | some extra ↦ elim (lookup String_discrete namespace extra) [
      | none ↦ chains
      | some extra_chains ↦ chains ++ extra_chains
    ]
  ]

  unfoldable pub support_chain : DelegatorFactory D → String → Bool × ApiType
  support_chain f namespace = elim (lookup String_discrete namespace f.rpc_delegators) [
    | some delegator ↦ (true, api_jsonrpc)
    | none ↦ elim (lookup String_discrete namespace f.rest_delegators) [
      | some delegator ↦ (true, api_rest)
      | none ↦ elim (lookup String_discrete namespace f.graph_delegators) [
        | some delegator ↦ (true, api_graph_ql)
        | none ↦ (false, no_api)
      ]
    ]
  ]

  unfoldable pub get_blockhead_delegator : DelegatorFactory D → String → Outcome D
  get_blockhead_delegator f chain = elim (lookup String_discrete chain f.rpc_delegators) [
    | some delegator ↦ done delegator
    | none ↦ elim (lookup String_discrete chain f.rest_delegators) [
      | some delegator ↦ done delegator
      | none ↦ or_panic (lookup String_discrete chain f.graph_delegators)
    ]
  ]

  -- The loop of the three registrations.
  unfoldable pub register_all : D → List String → List (String × D) → List (String × D)
  register_all delegator [] table = table
  register_all delegator (chain ∷ rest) table =
      register_all delegator rest (insert String_discrete chain delegator table)

  module _ (namespace_of : D → String) where
    unfoldable pub register_rpc : D → List String → DelegatorFactory D → DelegatorFactory D
    unfolding registered_chains register_all
    register_rpc delegator chains f = record f {
      rpc_delegators =
          register_all delegator (registered_chains f (namespace_of delegator) chains)
            f.rpc_delegators;
    }

    unfoldable pub register_rest : D → List String → DelegatorFactory D → DelegatorFactory D
    unfolding registered_chains register_all
    register_rest delegator chains f = record f {
      rest_delegators =
          register_all delegator (registered_chains f (namespace_of delegator) chains)
            f.rest_delegators;
    }

    unfoldable pub register_graph_ql : D → List String → DelegatorFactory D → DelegatorFactory D
    unfolding registered_chains register_all
    register_graph_ql delegator chains f = record f {
      graph_delegators =
          register_all delegator (registered_chains f (namespace_of delegator) chains)
            f.graph_delegators;
    }

  unfoldable pub get_rpc_delegator : DelegatorFactory D → String → Outcome D
  get_rpc_delegator f chain = or_panic (lookup String_discrete chain f.rpc_delegators)

  unfoldable pub get_rest_delegator : DelegatorFactory D → String → Outcome D
  get_rest_delegator f chain = or_panic (lookup String_discrete chain f.rest_delegators)

  unfoldable pub get_graph_ql_delegator : DelegatorFactory D → String → Outcome D
  get_graph_ql_delegator f chain = or_panic (lookup String_discrete chain f.graph_delegators)
