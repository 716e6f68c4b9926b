-- ===== src/Chains/Heads.antt =====
-- The `GetBlockhead` of the chains that have no cache: what each makes of the answer of an endpoint, as
-- it is decoded, or of an error, `none`. The bodies of the requests are left out.
use text.Mathlib.Text.{starts_with}
use nodemux.Common.{
  ℕ, String, Option, none, some, List, [], ◌∷◌, ite, if◌then◌else◌, ℤ, pos, ltb_ℤ, wrap_int, atoi,
  String_discrete, Outcome, done, or_panic, ◌>>=◌,
}
use nodemux.Sync.{Answer, failed, got}

-- A block of a height and a hash.
abbrev pub block : ℤ → String → Answer
block height hash = got (some (record { height = height; hash = hash }))

-- A decoded number and a hash, which most answers come down to.
pub record Numbered : Type 0 where
  pub number : ℤ
  pub hash : String

-- The same with the number as a text.
pub record Spelled : Type 0 where
  pub number : String
  pub hash : String

unfoldable pub algorand_head : Option ℤ → Answer
algorand_head none = failed
algorand_head (some last_round) = block last_round ""

unfoldable pub aptos_height : String → Outcome ℤ
unfolding atoi
aptos_height block_height = or_panic (atoi block_height)

unfoldable pub aptos_head : Option String → Outcome Answer
unfolding aptos_height
aptos_head none = done failed
aptos_head (some block_height) = aptos_height block_height >>= λ h. done (block h "")

unfoldable pub cardano_head : Option (List Numbered) → Answer
cardano_head none = failed
cardano_head (some []) = got none
cardano_head (some (first ∷ blocks)) = block first.number first.hash

unfoldable pub casper_head : Option Numbered → Answer
casper_head none = failed
casper_head (some bt) = block bt.number bt.hash

unfoldable pub conflux_head : Option ℤ → Answer
conflux_head none = failed
conflux_head (some height) = block height ""

unfoldable pub cosmos_height : String → Outcome ℤ
unfolding atoi
cosmos_height height = or_panic (atoi height)

unfoldable pub cosmos_head : Option Spelled → Outcome Answer
unfolding cosmos_height
cosmos_head none = done failed
cosmos_head (some res) = cosmos_height res.number >>= λ h. done (block h res.hash)

unfoldable pub eosapi_head : Option Numbered → Answer
eosapi_head none = failed
eosapi_head (some info) = block info.number info.hash

unfoldable pub eosrpc_head : Option Numbered → Answer
eosrpc_head none = failed
eosrpc_head (some info) = block info.number info.hash

unfoldable pub filecoin_head : Option ℤ → Answer
filecoin_head none = failed
filecoin_head (some height) = block height ""

-- A tip: its status, its height and its hash.
pub record HandshakeBlockhead : Type 0 where
  pub status : String
  pub height : ℤ
  pub hash : String

-- The first tip that is active.
unfoldable pub active_tip : List HandshakeBlockhead → Answer
active_tip [] = got none
active_tip (ct ∷ chaintips) =
    ite (String_discrete ct.status "active") (block ct.height ct.hash) (active_tip chaintips)

unfoldable pub handshake_head : Option (List HandshakeBlockhead) → Answer
unfolding active_tip
handshake_head none = failed
handshake_head (some chaintips) = active_tip chaintips

unfoldable pub max_cut : ℤ → List Numbered → ℤ
max_cut max_height [] = max_height
max_cut max_height (b ∷ hashes) =
    max_cut (if ltb_ℤ max_height b.number then b.number else max_height) hashes

-- `cut` holds the blocks of the chains of the cut, in the order of the visit.
unfoldable pub kadena_head : Option (List Numbered) → Answer
unfolding max_cut
kadena_head none = failed
kadena_head (some cut) = block (max_cut (pos 0) cut) ""

unfoldable pub mina_head : Option (List Numbered) → Answer
mina_head none = failed
mina_head (some []) = got none
mina_head (some (blk ∷ best_chain)) = block blk.number blk.hash

unfoldable pub monero_head : Option ℤ → Answer
monero_head none = failed
monero_head (some height) = block height ""

unfoldable pub near_head : Option Numbered → Answer
near_head none = failed
near_head (some bt) = block bt.number bt.hash

unfoldable pub ripple_head : Option ℤ → Answer
ripple_head none = failed
ripple_head (some ledger_index) = block ledger_index ""

-- Here a number that cannot be read is an error.
unfoldable pub starcoin_head : Option Spelled → Answer
unfolding atoi
starcoin_head none = failed
starcoin_head (some bt) = elim (atoi bt.number) [ none ↦ failed | some h ↦ block h bt.hash ]

unfoldable pub sui_head : Option String → Answer
unfolding atoi
sui_head none = failed
sui_head (some seq_string) = elim (atoi seq_string) [ none ↦ failed | some seq ↦ block seq "" ]

unfoldable pub tron_head : Option Numbered → Answer
tron_head none = failed
tron_head (some res) = block res.number res.hash

-- `decode` is the decoding of a hexadecimal number.
module _ (decode : String → Option ℕ) where
  unfoldable pub fantom_height : String → Outcome ℤ
  unfolding wrap_int
  fantom_height number = or_panic (decode number) >>= λ h. done (wrap_int (pos h))

  unfoldable pub fantom_head : Option Spelled → Outcome Answer
  unfolding fantom_height
  fantom_head none = done failed
  fantom_head (some res) = fantom_height res.number >>= λ h. done (block h res.hash)

  unfoldable pub polkadot_height : String → Outcome ℤ
  unfolding wrap_int
  polkadot_height number = or_panic (decode number) >>= λ h. done (wrap_int (pos h))

  unfoldable pub polkadot_head : Option String → Outcome Answer
  unfolding polkadot_height
  polkadot_head none = done failed
  polkadot_head (some number) = polkadot_height number >>= λ h. done (block h "")

  unfoldable pub substrate_height : String → Outcome ℤ
  unfolding wrap_int atoi
  substrate_height number =
      if starts_with number "0x"
      then (or_panic (decode number) >>= λ h. done (wrap_int (pos h)))
      else or_panic (atoi number)

  unfoldable pub substrate_head : Option Spelled → Outcome Answer
  unfolding substrate_height
  substrate_head none = done failed
  substrate_head (some res) = substrate_height res.number >>= λ h. done (block h res.hash)
