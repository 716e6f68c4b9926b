-- ===== src/Delegate/Solana.antt =====
-- chains/solana.go: the head of a chain and the routing of a request.
use nodemux.Common.{
  ℕ, String, Option, none, some, List, [], ◌∷◌, ℤ, pos, negsuc, String_discrete, lookup, Outcome,
  done,
}
use nodemux.Chain.{ChainRef}
use nodemux.Sync.{Answer, failed, got}
use nodemux.Multiplexer.{Multiplexer}
use nodemux.Cache.{CacheRedis}
use nodemux.Delegate.{Served, cached, Request, Choices, from_cache, relay_and_keep}

unfoldable pub solana_cachable_methods : List (String × ℤ)
solana_cachable_methods =
    ("getBlock", pos 60) ∷ ("getSlot", pos 4) ∷ ("getTransaction", pos 600) ∷ []

-- `slot` is the answer to "getSlot", `none` an error; a head has no hash.
unfoldable pub get_blockhead : Option ℤ → Answer
get_blockhead none = failed
get_blockhead (some slot) = got (some (record { height = slot; hash = "" }))

module _ (redis : CacheRedis) {V M : Type 0} (encode : V → Option String)
    (decode : String → Option V) (key : String → String) (result_of : M → Option V)
    (call : ℕ → Option M) where
  unfoldable pub delegate_rpc :
      Choices
      → Multiplexer
      → Option (CacheRedis.Store redis)
      → ChainRef
      → Request
      → Outcome (Option (CacheRedis.Store redis) × Served V M)
  unfolding from_cache relay_and_keep solana_cachable_methods
  delegate_rpc ch m c chain reqmsg =
      let expire = lookup String_discrete reqmsg.method solana_cachable_methods in
      elim (from_cache redis encode decode key result_of call ch.visit m c chain reqmsg.method
        expire (negsuc 59)) [
          | some v ↦ done (c, cached v)
          | none ↦
              relay_and_keep redis encode decode key result_of call ch.attempts m c chain
                reqmsg.method expire (negsuc 59)
        ]
