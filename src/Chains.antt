-- ===== src/Chains.antt =====
-- chains/install.go and chains/namespaces.go: the delegators of the chains, and the namespaces that they
-- serve. A delegator has no state but for the tokens of web3, which Web3.Subscription models.
pub mod Heads
pub mod Relays
pub mod Names
pub mod Installed
use nodemux.Common.{String, List, [], ◌∷◌}
use nodemux.Factory.{DelegatorFactory, register_rpc, register_rest, register_graph_ql}

-- The types of delegators, in the order of the file of their namespaces.
pub data Delegator : Type 0 where
  algorand aptos bitcoin casper cardano conflux cosmos eosapi eosrpc fantom filecoin : Delegator
  handshake kadena mina monero near polkadot ripple solana starcoin substrate sui : Delegator
  tron web3 : Delegator

-- `Namespace`
unfoldable pub namespace : Delegator → String
namespace algorand = "algorand"
namespace aptos = "aptos"
namespace bitcoin = "bitcoin"
namespace casper = "casper"
namespace cardano = "cardano"
namespace conflux = "conflux"
namespace cosmos = "cosmos"
namespace eosapi = "eosio"
namespace eosrpc = "eosio-rpc"
namespace fantom = "fantom"
namespace filecoin = "filecoin"
namespace handshake = "handshake"
namespace kadena = "kadena"
namespace mina = "mina"
namespace monero = "monero"
namespace near = "near"
namespace polkadot = "polkadot"
namespace ripple = "ripple"
namespace solana = "solana"
namespace starcoin = "starcoin"
namespace substrate = "substrate"
namespace sui = "sui"
namespace tron = "tron"
namespace web3 = "web3"

abbrev pub Registration : Type 0
Registration = List (Delegator × List String)

-- The calls of `RegisterRPC`, in their order.
unfoldable pub rpc_registrations : Registration
rpc_registrations =
    (
      web3,
      "ethereum" ∷ "binance-chain" ∷ "polygon" ∷ "okex-token" ∷ "huobi-token" ∷ "ethereum-classic"
          ∷ "cardano-kevm" ∷ "fantom-web3" ∷ "base" ∷ "avax" ∷ "arb" ∷ "optimism" ∷ "x-layer" ∷ [],
    )
    ∷ (
      bitcoin,
      "bitcoin" ∷ "litecoin" ∷ "dogecoin" ∷ "bitcoin-cash" ∷ "omnicore" ∷ "dashcoin" ∷ "zcash" ∷ [],
    )
    ∷ (monero, "monero" ∷ [])
    ∷ (filecoin, "filecoin" ∷ [])
    ∷ (handshake, "handshake" ∷ [])
    ∷ (casper, "casper" ∷ [])
    ∷ (solana, "solana" ∷ [])
    ∷ (starcoin, "starcoin" ∷ [])
    ∷ (conflux, "conflux" ∷ [])
    ∷ (polkadot, "polkadot" ∷ "kusama" ∷ [])
    ∷ (near, "near" ∷ [])
    ∷ (sui, "sui" ∷ "benfen" ∷ [])
    ∷ (eosrpc, "eosio-rpc" ∷ "enu" ∷ [])
    ∷ []

unfoldable pub rest_registrations : Registration
rest_registrations =
    (ripple, "ripple" ∷ [])
    ∷ (tron, "tron-full" ∷ "tron-grid" ∷ [])
    ∷ (eosapi, "eosio" ∷ "enu" ∷ [])
    ∷ (cosmos, "cosmos" ∷ "luna" ∷ [])
    ∷ (algorand, "algorand" ∷ [])
    ∷ (kadena, "kadena" ∷ [])
    ∷ (substrate, "substrate" ∷ [])
    ∷ (aptos, "aptos" ∷ [])
    ∷ []

unfoldable pub graph_registrations : Registration
graph_registrations = (fantom, "fantom" ∷ []) ∷ (cardano, "cardano" ∷ []) ∷ (mina, "mina" ∷ []) ∷ []

-- A number of calls of one of the three, in a row.
unfoldable pub register_each :
    (Delegator → List String → DelegatorFactory Delegator → DelegatorFactory Delegator)
    → Registration
    → DelegatorFactory Delegator
    → DelegatorFactory Delegator
register_each register [] factory = factory
register_each register ((delegator, chains) ∷ rest) factory =
    register_each register rest (register delegator chains factory)

unfoldable pub install_adaptors : DelegatorFactory Delegator → DelegatorFactory Delegator
unfolding register_each register_rpc register_rest register_graph_ql namespace rpc_registrations
    rest_registrations graph_registrations
install_adaptors factory = register_each (register_graph_ql namespace) graph_registrations (
    register_each (register_rest namespace) rest_registrations
      (register_each (register_rpc namespace) rpc_registrations factory))
