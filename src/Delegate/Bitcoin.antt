-- ===== src/Delegate/Bitcoin.antt =====
-- chains/bitcoin.go: the head of a chain and the routing of a request.
use nodemux.Common.{
  ℕ, String, Option, none, some, List, [], ◌∷◌, if◌then◌else◌, ite, ℤ, pos, negsuc, ltb_ℤ,
  String_discrete, lookup, Outcome, done, ◌>>=◌,
}
use nodemux.Chain.{ChainRef}
use nodemux.Sync.{Answer, failed, got}
use nodemux.Multiplexer.{Multiplexer}
use nodemux.Presence.{presence_cache_match_request}
use nodemux.Cache.{CacheRedis}
use nodemux.Delegate.{
  Served, cached, called, Request, Choices, from_cache, relay_and_keep, call_and_keep,
}

-- The seconds that the reply to a method is kept.
unfoldable pub bitcoin_cachable_methods : List (String × ℤ)
bitcoin_cachable_methods =
    ("gettransaction", pos 300)
    ∷ ("getrawtransaction", pos 600)
    ∷ ("decoderawtransaction", pos 600)
    ∷ ("getchaintips", pos 3)
    ∷ ("getblockchaininfo", pos 3)
    ∷ ("getnetworkinfo", pos 5)
    ∷ ("getblock", pos 10)
    ∷ ("getblockheader", pos 10)
    ∷ ("getblockhash", pos 10)
    ∷ ("getblockcount", pos 5)
    ∷ []

pub record BitcoinBlockchainInfo : Type 0 where
  pub blocks : ℤ
  pub best_blockhash : String

-- `info` is the answer to "getblockchaininfo", `none` an error.
unfoldable pub get_blockhead : Option BitcoinBlockchainInfo → Answer
get_blockhead none = failed
get_blockhead (some info) = got (some (record { height = info.blocks; hash = info.best_blockhash }))

-- The first parameter, if it is a positive number.
unfoldable pub find_block_height : Option ℤ → Option ℤ
find_block_height none = none
find_block_height (some height) = if ltb_ℤ (pos 0) height then some height else none

unfoldable pub height_spec : Request → ℤ
unfolding find_block_height
height_spec reqmsg =
    ite (String_discrete reqmsg.method "getblockhash")
      (elim (find_block_height reqmsg.first_number) [ none ↦ negsuc 0 | some h ↦ h ])
      (ite (String_discrete reqmsg.method "getchaintips") (pos 0)
        (ite (String_discrete reqmsg.method "getblockchaininfo") (pos 0) (negsuc 0)))

module _ (redis : CacheRedis) {V M : Type 0} (encode : V → Option String)
    (decode : String → Option V) (key : String → String) (result_of : M → Option V)
    (call : ℕ → Option M) where
  -- The part after the look into the cache, whose seconds are `expire`.
  unfoldable pub delegate_call :
      Choices
      → Multiplexer
      → Option (CacheRedis.Store redis)
      → ChainRef
      → Request
      → Option ℤ
      → Outcome (Option (CacheRedis.Store redis) × Served V M)
  unfolding call_and_keep relay_and_keep height_spec
  delegate_call ch m c chain reqmsg expire =
      presence_cache_match_request ch.random m ch.members reqmsg.method reqmsg.first_text
        ("gettransaction" ∷ "getrawtransaction" ∷ [])
      >>= λ found. elim found [
        | some addr ↦
            let (c', retmsg) =
              call_and_keep redis encode decode key result_of call m c expire addr in
            done (c', called retmsg)
        | none ↦
            relay_and_keep redis encode decode key result_of call ch.attempts m c chain
              reqmsg.method expire (height_spec reqmsg)
      ]

  unfoldable pub delegate_rpc :
      Choices
      → Multiplexer
      → Option (CacheRedis.Store redis)
      → ChainRef
      → Request
      → Outcome (Option (CacheRedis.Store redis) × Served V M)
  unfolding from_cache delegate_call bitcoin_cachable_methods
  delegate_rpc ch m c chain reqmsg =
      let expire = lookup String_discrete reqmsg.method bitcoin_cachable_methods in
      elim (from_cache redis encode decode key result_of call ch.visit m c chain reqmsg.method
        expire (negsuc 1)) [
          | some v ↦ done (c, cached v)
          | none ↦ delegate_call ch m c chain reqmsg expire
        ]
