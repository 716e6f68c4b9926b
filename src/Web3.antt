-- ===== src/Web3.antt =====
-- chains/web3.go: which reply is taken where a request goes to all endpoints, and the height that a
-- request asks for. Decoding of a hexadecimal number is a library's, the parameter `decode`.
pub mod Nonces
pub mod Replies
pub mod Subscription
use text.Mathlib.Text.{starts_with}
use nodemux.Common.{
  ℕ, String, Bool, true, false, Option, none, some, List, [], ◌∷◌, if◌then◌else◌, ℤ, pos, negsuc,
  leb_ℤ, eqb_ℤ, wrap_int, ltb, is_empty, Outcome, done, panic, ◌>>=◌,
}

-- A message: a result, which may be a text, an error with its code, or neither.
pub data Message : Type 0 where
  result : Option String → Message
  error : ℤ → Message
  neither : Message

-- `RPCResult`: the call failed, or it gave a message or a nil one.
pub data RpcResult : Type 0 where
  failed missing : RpcResult
  answer : Message → RpcResult

unfoldable pub is_result : Message → Bool
is_result (result value) = true
is_result (error code) = false
is_result neither = false

unfoldable pub is_error : Message → Bool
is_error (result value) = false
is_error (error code) = true
is_error neither = false

unfoldable pub is_known : Message → Bool
is_known (result value) = false
is_known (error code) = eqb_ℤ code (negsuc 31999)
is_known neither = false

-- The first message of a call that did not fail which passes the test; a nil message has no method to
-- ask.
unfoldable pub first_message : (Message → Bool) → List RpcResult → Outcome (Option Message)
first_message test [] = done none
first_message test (failed ∷ rest) = first_message test rest
first_message test (missing ∷ rest) = panic
first_message test (answer msg ∷ rest) =
    if test msg then done (some msg) else first_message test rest

-- The same where nil messages are skipped.
unfoldable pub first_present : (Message → Bool) → List RpcResult → Option Message
first_present test [] = none
first_present test (failed ∷ rest) = first_present test rest
first_present test (missing ∷ rest) = first_present test rest
first_present test (answer msg ∷ rest) = if test msg then some msg else first_present test rest

unfoldable pub or_next :
    Outcome (Option Message) → Outcome (Option Message) → Outcome (Option Message)
or_next first next = first >>= λ found. elim found [ some msg ↦ done (some msg) | none ↦ next ]

-- The loops of `sendRawTransaction`; `none` is the error of the first call.
unfoldable pub send_raw_transaction : List RpcResult → Outcome (Option Message)
unfolding first_message first_present or_next is_result is_known is_error
send_raw_transaction results = or_next (first_message is_result results) (
    or_next (first_message is_known results)
      (or_next (first_message is_error results) (done (first_present (λ msg. true) results))))

module _ (decode : String → Option ℕ) where
  -- The nonce that a message tells.
  unfoldable pub nonce_of : Message → Option ℕ
  nonce_of (result none) = none
  nonce_of (result (some text)) = decode text
  nonce_of (error code) = none
  nonce_of neither = none

  -- `maxResMsg == nil || nonce > maxNonce`
  unfoldable pub raise_nonce : Option (ℕ × Message) → Message → Option (ℕ × Message)
  unfolding nonce_of
  raise_nonce best msg = elim (nonce_of msg) [
    | none ↦ best
    | some nonce ↦ elim best [
      | none ↦ some (nonce, msg)
      | some (top, held) ↦ if ltb top nonce then some (nonce, msg) else some (top, held)
    ]
  ]

  unfoldable pub max_nonce : Option (ℕ × Message) → List RpcResult → Option (ℕ × Message)
  unfolding raise_nonce
  max_nonce best [] = best
  max_nonce best (failed ∷ rest) = max_nonce best rest
  max_nonce best (missing ∷ rest) = max_nonce best rest
  max_nonce best (answer msg ∷ rest) = max_nonce (raise_nonce best msg) rest

  -- The loops of `getTransactionCount`.
  unfoldable pub get_transaction_count : List RpcResult → Option Message
  unfolding max_nonce first_present is_error
  get_transaction_count results = elim (max_nonce none results) [
    | some (nonce, msg) ↦ some msg
    | none ↦ elim (first_present is_error results) [
      | some msg ↦ some msg
      | none ↦ first_present (λ msg. true) results
    ]
  ]

  -- `findBlockHeight`, of the first argument, `none` where the arguments cannot be decoded. The number
  -- is converted to an `int`.
  unfoldable pub find_block_height : Option String → Option ℤ
  unfolding wrap_int
  find_block_height none = none
  find_block_height (some height) =
      if is_empty height
      then none
      else if starts_with height "0x"
      then (elim (decode height) [ none ↦ none | some h ↦ some (wrap_int (pos h)) ])
      else some (pos 0)

  -- The height that `getBlockByNumber` relays over, and the seconds that it keeps the reply.
  unfoldable pub block_request : Option String → ℤ × ℤ
  unfolding find_block_height
  block_request height =
      let height_spec : ℤ = elim (find_block_height height) [ none ↦ negsuc 1 | some h ↦ h ] in
      (height_spec, if leb_ℤ height_spec (pos 0) then pos 4 else pos 30)
