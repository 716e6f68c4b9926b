-- ===== src/Tests/Replies.antt =====
-- Runs of the choice among the replies of several endpoints.
use nodemux.Common.{
  ℕ, String, Option, none, some, List, [], ◌∷◌, ◌≡◌, refl, negsuc, inl, inr, ite, String_discrete,
}
use nodemux.Web3.{
  Message, RpcResult, result, error, failed, answer, send_raw_transaction, get_transaction_count,
  nonce_of,
}
use nodemux.Web3.Nonces.{IsHighest, get_transaction_count-IsHighest}
use nodemux.Web3.Replies.{IsBest, send_raw_transaction-IsBest}

-- A decoder that knows two numbers.
abbrev decode : String → Option ℕ
decode text =
    ite (String_discrete text "0x5") (some 5) (ite (String_discrete text "0x9") (some 9) none)

abbrev replies : List RpcResult
replies =
    failed
    ∷ answer (error (negsuc 31999))
    ∷ answer (result (some "0x5"))
    ∷ answer (result (some "0x9"))
    ∷ []

get_transaction_count-IsHighest_example :
    (msg : Message) × (get_transaction_count decode replies ≡ some msg)
    × IsHighest decode msg replies
unfolding nonce_of String_discrete
get_transaction_count-IsHighest_example =
    get_transaction_count-IsHighest decode replies (inr (inr (inl (5, refl))))

send_raw_transaction-IsBest_example : IsBest replies (send_raw_transaction replies)
send_raw_transaction-IsBest_example = send_raw_transaction-IsBest replies (tt, (tt, (tt, (tt, tt))))
