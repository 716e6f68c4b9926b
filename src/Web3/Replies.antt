-- ===== src/Web3/Replies.antt =====
-- The reply that is taken for a transaction that all endpoints are sent.
use nodemux.Common.{
  ℕ, ◌≤◌, Bool, true, false, Option, none, some, List, [], ◌∷◌, if◌then◌else◌, All, Any, All-imp,
  All-both, ◌≡◌, refl, ◌⊎◌, inl, inr, Bool-cases, Outcome, done, panic, arith,
}
use nodemux.Web3.{
  Message, RpcResult, failed, missing, answer, is_result, is_known, is_error, first_message,
  first_present, send_raw_transaction, or_next,
}
use nodemux.Web3.Nonces.{Gives}

-- How good a message is: a result, the error that the transaction is known, another error, neither.
unfoldable pub rank : Message → ℕ
rank msg = if is_result msg then 0 else if is_known msg then 1 else if is_error msg then 2 else 3

abbrev pub IsNoBetter : ℕ → RpcResult → Type 0
IsNoBetter k failed = Unit {0}
IsNoBetter k missing = Unit {0}
IsNoBetter k (answer msg) = k ≤ rank msg

-- The message of the result, if it has one, fails the test.
abbrev pub Fails : (Message → Bool) → RpcResult → Type 0
Fails test failed = Unit {0}
Fails test missing = Unit {0}
Fails test (answer msg) = test msg ≡ false

abbrev pub IsPresent : RpcResult → Type 0
IsPresent missing = ⊥
IsPresent failed = Unit {0}
IsPresent (answer msg) = Unit {0}

-- The best of the replies, or none where every call failed.
abbrev pub IsBest : List RpcResult → Outcome (Option Message) → Type 0
IsBest results panic = ⊥
IsBest results (done none) = All (λ r. r ≡ failed) results
IsBest results (done (some msg)) = Any (Gives msg) results × All (IsNoBetter (rank msg)) results

-- A walk finds a reply that passes the test, or none passes it.
first_message_cases :
    (test : Message → Bool) (results : List RpcResult)
    → All IsPresent results
    → ((first_message test results ≡ done none) × All (Fails test) results)
      ⊎ ((msg : Message) × (first_message test results ≡ done (some msg))
          × (test msg ≡ true)
          × Any (Gives msg) results)
unfolding first_message
first_message_cases test [] here = inl (refl, tt)
first_message_cases test (failed ∷ rest) here = elim (first_message_cases test rest here.1) [
  | inl (e, h) ↦ inl (e, (tt, h))
  | inr (msg, e, hit, any) ↦ inr (msg, e, hit, inr any)
]
first_message_cases test (missing ∷ rest) here = absurd here.0
first_message_cases test (answer msg ∷ rest) here = elim (Bool-cases (test msg)) [
  | inl hit ↦ inr (msg, rw hit refl, hit, inl refl)
  | inr miss ↦ elim (first_message_cases test rest here.1) [
    | inl (e, h) ↦ inl (rw miss e, (miss, h))
    | inr (other, e, hit, any) ↦ inr (other, rw miss e, hit, inr any)
  ]
]

first_present_cases :
    (results : List RpcResult)
    → All IsPresent results
    → ((first_present (λ msg. true) results ≡ none) × All (λ r. r ≡ failed) results)
      ⊎ ((msg : Message) × (first_present (λ msg. true) results ≡ some msg)
          × Any (Gives msg) results)
unfolding first_present
first_present_cases [] here = inl (refl, tt)
first_present_cases (failed ∷ rest) here = elim (first_present_cases rest here.1) [
  | inl (e, h) ↦ inl (e, (refl, h))
  | inr (msg, e, any) ↦ inr (msg, e, inr any)
]
first_present_cases (missing ∷ rest) here = absurd here.0
first_present_cases (answer msg ∷ rest) here = inr (msg, refl, inl refl)

-- A rank that no message with a property goes below.
IsNoBetter-All :
    (k : ℕ) (P : RpcResult → Type 0) (results : List RpcResult)
    → ((msg : Message) → P (answer msg) → k ≤ rank msg)
    → All P results
    → All (IsNoBetter k) results
IsNoBetter-All k P results low all = All-imp P (IsNoBetter k) results at all
  where
    at : (r : RpcResult) → P r → IsNoBetter k r
    at failed p = tt
    at missing p = tt
    at (answer msg) p = low msg p

both_fail :
    (t u : Message → Bool) (results : List RpcResult)
    → All (Fails t) results
    → All (Fails u) results
    → All (λ r. Fails t r × Fails u r) results
both_fail t u results = All-both _ _ _ results (λ r p q. (p, q))

rank_result : (msg : Message) → is_result msg ≡ true → rank msg ≡ 0
unfolding rank
rank_result msg h = rw h refl

rank_known : (msg : Message) → is_known msg ≡ true → rank msg ≤ 1
unfolding rank
rank_known msg h = ground arith

rank_error : (msg : Message) → is_error msg ≡ true → rank msg ≤ 2
unfolding rank
rank_error msg h = ground arith

rank_le : (msg : Message) → rank msg ≤ 3
unfolding rank
rank_le msg = ground arith

rank_no_result : (msg : Message) → is_result msg ≡ false → 1 ≤ rank msg
unfolding rank
rank_no_result msg h = ground arith

rank_no_known : (msg : Message) → is_result msg ≡ false → is_known msg ≡ false → 2 ≤ rank msg
unfolding rank
rank_no_known msg h h' = ground arith

rank_no_error :
    (msg : Message)
    → is_result msg ≡ false
    → is_known msg ≡ false
    → is_error msg ≡ false
    → 3 ≤ rank msg
unfolding rank
rank_no_error msg h h' h'' = ground arith

-- If no call gave a nil message without an error, `sendRawTransaction` does not panic and takes the best
-- reply there is: a result before the error that the transaction is known, that before another error,
-- and that before any other message; it takes none only if every call failed.
pub send_raw_transaction-IsBest :
    (results : List RpcResult)
    → All IsPresent results
    → IsBest results (send_raw_transaction results)
unfolding send_raw_transaction or_next
send_raw_transaction-IsBest results here = elim (first_message_cases is_result results here) [
  | inr (msg, e, hit, any) ↦ rw e (
    any,
    IsNoBetter-All (rank msg) IsPresent results (λ m p. omega (arith, rank_result msg hit)) here,
  )
  | inl (e, no_result) ↦ elim (first_message_cases is_known results here) [
    | inr (msg, e', hit, any) ↦
        rw (e, e')
          (
            any,
            IsNoBetter-All (rank msg) (Fails is_result) results
                (λ m p. omega (arith, rank_known msg hit, rank_no_result m p)) no_result,
          )
    | inl (e', no_known) ↦ elim (first_message_cases is_error results here) [
      | inr (msg, e'', hit, any) ↦
          rw (e, e', e'')
            (
              any,
              IsNoBetter-All (rank msg) (λ r. Fails is_result r × Fails is_known r) results
                  (λ m p. omega (arith, rank_error msg hit, rank_no_known m p.0 p.1))
                  (both_fail is_result is_known results no_result no_known),
            )
      | inl (e'', no_error) ↦ elim (first_present_cases results here) [
        | inl (f, all) ↦ rw (e, e', e'', f) all
        | inr (msg, f, any) ↦
            rw (e, e', e'', f)
              (
                any,
                IsNoBetter-All (rank msg)
                    (λ r. (Fails is_result r × Fails is_known r) × Fails is_error r) results
                    (λ m p. omega (arith, rank_le msg, rank_no_error m p.0.0 p.0.1 p.1))
                    (All-both _ _ _ results (λ r p q. (p, q))
                      (both_fail is_result is_known results no_result no_known) no_error),
              )
      ]
    ]
  ]
]
