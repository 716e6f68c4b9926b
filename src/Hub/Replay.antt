-- ===== src/Hub/Replay.antt =====
-- What a subscriber of the stream hub is sent first, and how the hub counts network failures.
use nodemux.Common.{
  ℕ, zero, suc, ◌+◌, ◌≤◌, String, Bool, true, Option, none, some, List, [], ◌∷◌, ◌++◌, append_assoc,
  append-nil, ite, ℕ_discrete, String_discrete, take, replicate, lookup, insert, lookup-insert_self,
  lookup-insert_ne, ltb, if◌then◌else◌, ◌≡◌, ◌≢◌, refl, sym, ap, ◌∙◌, inl, inr, Option-cases,
  Bool-cases, arith,
}
use mathlib.Core.Logic.{if_pos, if_neg}
use nodemux.Sync.{ChainStatus}
use nodemux.Hub.Channels.{Channels, send}
use nodemux.Hub.Stream.{
  StreamMessage, HubError, fine, network, other, decode_chain_status, replay, handle_redis_error,
}

-- The statuses up to the first message that cannot be decoded.
unfoldable pub decoded : List StreamMessage → List ChainStatus
decoded [] = []
decoded (xmsg ∷ rest) = elim xmsg.status [ none ↦ [] | some status ↦ status ∷ decoded rest ]

-- The statuses of one endpoint, in order.
unfoldable pub of_endpoint : String → List ChainStatus → List ChainStatus
of_endpoint name [] = []
of_endpoint name (status ∷ rest) =
    ite (String_discrete status.endpoint_name name) (status ∷ of_endpoint name rest)
      (of_endpoint name rest)

-- The first status of an endpoint, if it has not been seen.
unfoldable pub first_unseen : Option Bool → List ChainStatus → List ChainStatus
first_unseen none statuses = take 1 statuses
first_unseen (some marked) statuses = []

of_endpoint-append :
    (name : String) (xs ys : List ChainStatus)
    → of_endpoint name (xs ++ ys) ≡ of_endpoint name xs ++ of_endpoint name ys
unfolding of_endpoint
of_endpoint-append name [] ys = refl
of_endpoint-append name (x ∷ xs) ys = ground (arith, of_endpoint-append name xs ys)

of_endpoint-hit :
    (name : String) (status : ChainStatus) (rest : List ChainStatus)
    → status.endpoint_name ≡ name
    → of_endpoint name (status ∷ rest) ≡ status ∷ of_endpoint name rest
unfolding of_endpoint
of_endpoint-hit name status rest p =
    if_pos (String_discrete status.endpoint_name name) p (status ∷ of_endpoint name rest)
      (of_endpoint name rest)

of_endpoint-miss :
    (name : String) (status : ChainStatus) (rest : List ChainStatus)
    → status.endpoint_name ≢ name
    → of_endpoint name (status ∷ rest) ≡ of_endpoint name rest
unfolding of_endpoint
of_endpoint-miss name status rest p =
    if_neg (String_discrete status.endpoint_name name) p (status ∷ of_endpoint name rest)
      (of_endpoint name rest)

first_unseen-nil : (marked : Option Bool) → first_unseen marked [] ≡ []
unfolding first_unseen
first_unseen-nil none = refl
first_unseen-nil (some m) = refl

module _ (name : String) (status : ChainStatus) (seen : List (String × Bool)) where
  -- What is still to come of the endpoint does not change with a status that is passed over.
  first_unseen-known :
      (marked : Bool) (rest : List ChainStatus)
      → lookup String_discrete status.endpoint_name seen ≡ some marked
      → first_unseen (lookup String_discrete name seen) (of_endpoint name rest)
        ≡ first_unseen (lookup String_discrete name seen) (of_endpoint name (status ∷ rest))
  unfolding first_unseen of_endpoint
  first_unseen-known marked rest known = elim (String_discrete status.endpoint_name name) [
    | yes p ↦
        let here : lookup String_discrete name seen ≡ some marked = cc (known, p) in rw here refl
    | no p ↦ rw (of_endpoint-miss name status rest p) refl
  ]

  -- A status that is sent is the first of its endpoint, and marks it.
  first_unseen-fresh :
      (rest : List ChainStatus)
      → lookup String_discrete status.endpoint_name seen ≡ none
      → of_endpoint name (status ∷ [])
          ++ first_unseen
              (lookup String_discrete name (insert String_discrete status.endpoint_name true seen))
              (of_endpoint name rest)
        ≡ first_unseen (lookup String_discrete name seen) (of_endpoint name (status ∷ rest))
  unfolding of_endpoint first_unseen
  first_unseen-fresh rest fresh = elim (String_discrete status.endpoint_name name) [
    | yes p ↦
        let here : lookup String_discrete name seen ≡ none = cc (fresh, p) in
        let stored = lookup-insert_self String_discrete status.endpoint_name true seen in
        let marked : lookup String_discrete name
              (insert String_discrete status.endpoint_name true seen)
            ≡ some true =
          cc (stored, p) in
        rw (here, marked, of_endpoint-hit name status [] p, of_endpoint-hit name status rest p) refl
    | no p ↦
        let kept =
          lookup-insert_ne String_discrete status.endpoint_name name true seen (λ e. p (sym e)) in
        rw (kept, of_endpoint-miss name status [] p, of_endpoint-miss name status rest p) refl
  ]

-- After the replay into a channel, beside what the channel held before, an endpoint that was not marked
-- has its first status there, and only this one; a marked one has none.
replay-first_unseen :
    (ch : ℕ) (name : String) (messages : List StreamMessage) (seen : List (String × Bool))
    (sent : Channels)
    → of_endpoint name ((replay ch messages seen sent).0 ch)
      ≡ of_endpoint name (sent ch)
        ++ first_unseen (lookup String_discrete name seen) (of_endpoint name (decoded messages))
unfolding replay decode_chain_status decoded of_endpoint send
replay-first_unseen ch name [] seen sent =
    rw (first_unseen-nil (lookup String_discrete name seen)) (sym (append-nil _))
replay-first_unseen ch name (xmsg ∷ rest) seen sent = elim (Option-cases xmsg.status) [
  | inl e ↦ rw e (rw (first_unseen-nil (lookup String_discrete name seen)) (sym (append-nil _)))
  | inr (status, e) ↦ elim (Option-cases (lookup String_discrete status.endpoint_name seen)) [
    | inl fresh ↦
        rw (e, fresh, replay, decoded)
          (replay-first_unseen ch name rest (insert String_discrete status.endpoint_name true seen)
              (send sent ch status)
            ∙ rw
                (
                  if_pos (ℕ_discrete ch ch) refl,
                  of_endpoint-append name (sent ch) (status ∷ []),
                  append_assoc,
                )
                (ap (λ x. of_endpoint name (sent ch) ++ x)
                  (first_unseen-fresh name status seen (decoded rest) fresh)))
    | inr (marked, known) ↦
        rw (e, known, replay, decoded)
          (replay-first_unseen ch name rest seen sent
            ∙ ap (λ x. of_endpoint name (sent ch) ++ x)
                (first_unseen-known name status seen marked (decoded rest) known))
  ]
]

-- A channel that has received nothing is sent, of each endpoint, the first status that the answer
-- holds of it, and no other: the answer begins with the latest message, so this is the latest status.
-- The replay reaches as far as the messages can be decoded.
pub replay-latest :
    (ch : ℕ) (name : String) (messages : List StreamMessage) (sent : Channels)
    → sent ch ≡ []
    → of_endpoint name ((replay ch messages [] sent).0 ch)
      ≡ take 1 (of_endpoint name (decoded messages))
unfolding lookup first_unseen of_endpoint
replay-latest ch name messages sent bare =
    replay-first_unseen ch name messages [] sent ∙ rw bare refl

-- The errors of a hub that keeps running, one per command.
unfoldable pub count_errors : ℕ → List HubError → Option ℕ
unfolding handle_redis_error
count_errors n [] = some n
count_errors n (err ∷ rest) = elim (handle_redis_error n err).1 [
  | fine ↦ count_errors (handle_redis_error n err).0 rest
  | network ↦ none
  | other ↦ none
]

-- The hub keeps running through 30 network failures in a row, counted from `n`, and gives up at the
-- next one.
pub count_errors-network :
    (n k : ℕ)
    → n ≤ 30
    → count_errors n (replicate k network) ≡ (if ltb 30 (n + k) then none else some (n + k))
unfolding count_errors handle_redis_error
count_errors-network n zero h = ground arith
count_errors-network n (suc k) h = elim (Bool-cases (ltb 30 (n + 1))) [
  | inl e ↦ let past : ltb 30 (n + suc k) ≡ true = ground arith in ground arith
  | inr e ↦
      let same : n + 1 + k ≡ n + suc k = omega arith in
      let later = count_errors-network (n + 1) k (ground arith) in ground (arith, same, later)
]
