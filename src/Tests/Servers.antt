-- ===== src/Tests/Servers.antt =====
-- Runs of the server's handlers, of the websocket pairs and of a broadcast.
use Prim.Native.String.{◌++◌}
use nodemux.Common.{
  ℕ, String, Bool, true, false, some, List, [], ◌∷◌, pos, negsuc, All, String_discrete, lookup,
  Outcome, done, panic, ◌≡◌, ◌≢◌, refl, ap, arith, is_empty, remove,
}
use nodemux.Chain.{ChainRef}
use nodemux.Chain.Text.{has_slash}
use nodemux.Factory.{DelegatorFactory, new_delegator_factory}
use nodemux.Config.{AccountConfig}
use nodemux.Ratelimit.{Verdict, allowed}
use nodemux.Relay.{broadcast_rpc}
use nodemux.Relay.Broadcast.{broadcast_rpc_low}
use nodemux.Server.{Acc, Response, served, is_api, find_acc, relay_handler}
use nodemux.Server.Account.{relay_handler-served, find_acc-path}
use nodemux.Server.Pairs.{WsPairs, sent_to, WsEvent, message, closed, run}
use nodemux.Server.Sticky.{IsWith, run-sticky}
use nodemux.Tests.{two, steady, model, eosio}

abbrev account : AccountConfig
account = record { username = ""; ratelimit = record { ip = pos 0; user = pos 0 } }

abbrev accounts : List (String × AccountConfig)
accounts = ("bob", account) ∷ []

abbrev bob : Acc
bob = record { name = "bob"; chain = eosio; config = account }

abbrev let_through : Acc → Verdict
let_through acc = allowed

abbrev give_seven : Acc → Outcome (Response ℕ)
give_seven acc = done (served 7)

served_seven :
    relay_handler true accounts let_through give_seven "/jsonrpc/bob/eosio/mainnet"
    ≡ done (served 7)
unfolding relay_handler model is_empty
served_seven = refl

relay_handler-served_example :
    (true ≡ true)
    × (acc : Acc) × (find_acc accounts "/jsonrpc/bob/eosio/mainnet" ≡ some acc)
    × (let_through acc ≡ allowed)
    × (give_seven acc ≡ done (served 7))
relay_handler-served_example =
    relay_handler-served true accounts let_through give_seven "/jsonrpc/bob/eosio/mainnet" 7
      served_seven

find_acc-path_example :
    find_acc accounts
      ("/" ++ "rest" ++ "/" ++ "bob" ++ "/" ++ "eosio" ++ "/" ++ "mainnet" ++ "/" ++ "v1/chain")
    ≡ some bob
unfolding is_api has_slash is_empty model
find_acc-path_example =
    find_acc-path accounts "rest" "bob" "eosio" "mainnet" "v1/chain" account refl refl refl refl
      refl refl refl refl refl refl

abbrev no_delegators : DelegatorFactory String
no_delegators = new_delegator_factory

abbrev never : String → Bool
never url = false

abbrev no_answer : String → ChainRef → Outcome ℕ
no_answer d chain = panic

abbrev pairs : WsPairs
pairs = ("s1", 1) ∷ ("", 0) ∷ []

abbrev first_session : String
first_session = "s1"

abbrev second_session : String
second_session = ""

abbrev pairs_after : WsPairs
pairs_after = ("s1", 1) ∷ []

abbrev ws_events : List WsEvent
ws_events = message steady two bob "s1" true ∷ closed "" ∷ message steady two bob "s1" false ∷ []

ran :
    run no_delegators never no_answer ws_events pairs
    ≡ done (("s1", 1) ∷ [], ("s1", sent_to 1) ∷ ("s1", sent_to 1) ∷ [])
unfolding run model remove
ran = refl

other_session : second_session ≢ first_session
unfolding is_empty
other_session e = ground (arith, ap is_empty e)

run-sticky_example :
    (lookup String_discrete "s1" pairs_after ≡ some 1)
    × All (IsWith {A = ℕ} "s1" 1) (("s1", sent_to 1) ∷ ("s1", sent_to 1) ∷ [])
unfolding model
run-sticky_example =
    run-sticky no_delegators never no_answer "s1" ws_events pairs pairs_after
      (("s1", sent_to 1) ∷ ("s1", sent_to 1) ∷ []) 1 (tt, (other_session, (tt, tt))) refl ran

broadcast_rpc_low_example :
    broadcast_rpc (λ addr. some addr) (λ eps. eps) steady two eosio "" (negsuc 9)
    ≡ broadcast_rpc (λ addr. some addr) (λ eps. eps) steady two eosio "" (pos 0)
broadcast_rpc_low_example =
    broadcast_rpc_low (λ addr. some addr) (λ eps. eps) steady two eosio "" (negsuc 9) refl
