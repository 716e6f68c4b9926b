-- ===== src/Chains/Relays.antt =====
-- `DelegateRPC`, `DelegateREST` and `DelegateGraphQL` of the chains that have no cache: a default relay,
-- at a height of the chain's own.
use nodemux.Common.{ℕ, String, Option, none, some, ℤ, negsuc, ite, String_discrete, Outcome, done}
use nodemux.Chain.{ChainRef}
use nodemux.Multiplexer.{Multiplexer, Runtime}
use nodemux.Relay.{Reply, default_relay_rpc, default_pipe_rest, default_pipe_graph_ql}

module _ {M : Type 0} (call : ℕ → Option M) (rs : ℕ → Runtime) (m : Multiplexer)
    (chain : ChainRef) where
  unfoldable pub casper_rpc : String → Outcome (Reply M)
  unfolding default_relay_rpc
  casper_rpc method = default_relay_rpc call rs m chain method (negsuc 2)

  unfoldable pub conflux_rpc : String → Outcome (Reply M)
  unfolding default_relay_rpc
  conflux_rpc method = default_relay_rpc call rs m chain method (negsuc 4)

  unfoldable pub eosrpc_rpc : String → Outcome (Reply M)
  unfolding default_relay_rpc
  eosrpc_rpc method = default_relay_rpc call rs m chain method (negsuc 299)

  unfoldable pub filecoin_rpc : String → Outcome (Reply M)
  unfolding default_relay_rpc
  filecoin_rpc method = default_relay_rpc call rs m chain method (negsuc 2)

  unfoldable pub handshake_rpc : String → Outcome (Reply M)
  unfolding default_relay_rpc
  handshake_rpc method = default_relay_rpc call rs m chain method (negsuc 1)

  unfoldable pub monero_rpc : String → Outcome (Reply M)
  unfolding default_relay_rpc
  monero_rpc method = default_relay_rpc call rs m chain method (negsuc 2)

  unfoldable pub near_rpc : String → Outcome (Reply M)
  unfolding default_relay_rpc
  near_rpc method = default_relay_rpc call rs m chain method (negsuc 2)

  unfoldable pub polkadot_rpc : String → Outcome (Reply M)
  unfolding default_relay_rpc
  polkadot_rpc method = default_relay_rpc call rs m chain method (negsuc 1)

  unfoldable pub starcoin_rpc : String → Outcome (Reply M)
  unfolding default_relay_rpc
  starcoin_rpc method = default_relay_rpc call rs m chain method (negsuc 2)

  unfoldable pub sui_rpc : String → Outcome (Reply M)
  unfolding default_relay_rpc
  sui_rpc method = default_relay_rpc call rs m chain method (negsuc 2)

  unfoldable pub algorand_rest : String → Outcome (Option (Option M))
  unfolding default_pipe_rest
  algorand_rest path = default_pipe_rest call rs m chain path (negsuc 4)

  unfoldable pub aptos_rest : String → Outcome (Option (Option M))
  unfolding default_pipe_rest
  aptos_rest path = default_pipe_rest call rs m chain path (negsuc 1)

  unfoldable pub cosmos_rest : String → Outcome (Option (Option M))
  unfolding default_pipe_rest
  cosmos_rest path = default_pipe_rest call rs m chain path (negsuc 1)

  unfoldable pub kadena_rest : String → Outcome (Option (Option M))
  unfolding default_pipe_rest
  kadena_rest path = default_pipe_rest call rs m chain path (negsuc 29)

  unfoldable pub ripple_rest : String → Outcome (Option (Option M))
  unfolding default_pipe_rest
  ripple_rest path = default_pipe_rest call rs m chain path (negsuc 9)

  unfoldable pub substrate_rest : String → Outcome (Option (Option M))
  unfolding default_pipe_rest
  substrate_rest path = default_pipe_rest call rs m chain path (negsuc 1)

  unfoldable pub tron_rest : String → Outcome (Option (Option M))
  unfolding default_pipe_rest
  tron_rest path = default_pipe_rest call rs m chain path (negsuc 29)

  -- The height is the block that the body of "get_block" asks for, `none` where it does not decode; what
  -- reads the body ends with an error, `none` outside, where that fails.
  unfoldable pub eosapi_rest : String → Option (Option ℤ) → Outcome (Option (Option M))
  unfolding default_pipe_rest
  eosapi_rest path body =
      ite (String_discrete path "/v1/chain/get_block")
        (elim body [
          | none ↦ done (some none)
          | some none ↦ default_pipe_rest call rs m chain path (negsuc 199)
          | some (some required_height) ↦ default_pipe_rest call rs m chain path required_height
        ])
        (default_pipe_rest call rs m chain path (negsuc 199))

  unfoldable pub cardano_graph_ql : Outcome (Option (Option M))
  unfolding default_pipe_graph_ql
  cardano_graph_ql = default_pipe_graph_ql call rs m chain (negsuc 9)

  unfoldable pub fantom_graph_ql : Outcome (Option (Option M))
  unfolding default_pipe_graph_ql
  fantom_graph_ql = default_pipe_graph_ql call rs m chain (negsuc 9)

  unfoldable pub mina_graph_ql : Outcome (Option (Option M))
  unfolding default_pipe_graph_ql
  mina_graph_ql = default_pipe_graph_ql call rs m chain (negsuc 9)
