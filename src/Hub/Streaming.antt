-- ===== src/Hub/Streaming.antt =====
-- Publishers and the listener of the stream hub together, against the memory hub.
use nodemux.Common.{
  true, ℕ, zero, suc, ◌+◌, ◌*◌, ◌≤◌, List, [], ◌∷◌, ◌++◌, append_assoc, append-nil, length,
  length-append, take, drop, map, replicate, All, ◌≡◌, refl, sym, ap, ◌∙◌, arith,
}
use nodemux.Chain.{ChainRef}
use nodemux.Sync.{ChainStatus}
use nodemux.Hub.Channels.{Channels}
use nodemux.Hub.Memory
use nodemux.Hub.Memory.{MemoryChainhub}
use nodemux.Hub.Stream.{RedisStreamChainhub, fine}
use nodemux.Hub.Loops.{
  StreamRedis, StreamStep, sub, unsub, pub_status, read, StreamHub, publish_chain_status,
  listen_round, handle, run,
}
use nodemux.Hub.Listening.{
  IsStreamRedis, broadcast_all, broadcast_all-append, with_sent, IsListening, publish-IsListening,
  listen_round-IsListening,
}

-- The statuses that the steps publish.
unfoldable pub published : List StreamStep → List ChainStatus
published [] = []
published (sub ch ∷ rest) = published rest
published (unsub ch ∷ rest) = published rest
published (pub_status status ∷ rest) = status ∷ published rest
published (read ∷ rest) = published rest

-- No command of a subscriber.
abbrev pub IsSteady : StreamStep → Type 0
IsSteady (sub ch) = ⊥
IsSteady (unsub ch) = ⊥
IsSteady (pub_status status) = Unit {0}
IsSteady read = Unit {0}

-- What is not read yet after the steps.
unfoldable left : List StreamStep → List ChainStatus → List ChainStatus
left [] pending = pending
left (sub ch ∷ rest) pending = left rest pending
left (unsub ch ∷ rest) pending = left rest pending
left (pub_status status ∷ rest) pending = left rest (pending ++ status ∷ [])
left (read ∷ rest) pending = left rest (drop 10 pending)

take-drop : {A : Type 0} (n : ℕ) (xs : List A) → take n xs ++ drop n xs ≡ xs
take-drop zero xs = refl
take-drop (suc n) [] = refl
take-drop (suc n) (x ∷ xs) = ap (λ ys. x ∷ ys) (take-drop n xs)

length-drop : {A : Type 0} (n k : ℕ) (xs : List A) → length xs ≤ n + k → length (drop n xs) ≤ k
length-drop zero k xs h = omega (arith, h)
length-drop (suc n) k [] h = omega arith
length-drop (suc n) k (x ∷ xs) h = length-drop n k xs (omega (arith, h))

left-reads :
    (n : ℕ) (pending : List ChainStatus)
    → length pending ≤ 10 * n
    → left (replicate n read) pending ≡ []
unfolding left
left-reads zero [] h = refl
left-reads zero (status ∷ rest) h = absurd (omega (arith, h))
left-reads (suc n) pending h =
    left-reads n (drop 10 pending) (length-drop 10 (10 * n) pending (omega (arith, h)))

left-drained :
    (steps : List StreamStep) (n : ℕ) (pending : List ChainStatus)
    → length pending + length (published steps) ≤ 10 * n
    → left (steps ++ replicate n read) pending ≡ []
unfolding left published
left-drained [] n pending h = left-reads n pending (omega (arith, h))
left-drained (sub ch ∷ rest) n pending h = left-drained rest n pending h
left-drained (unsub ch ∷ rest) n pending h = left-drained rest n pending h
left-drained (pub_status status ∷ rest) n pending h =
    left-drained rest n (pending ++ status ∷ [])
      (omega (arith, h, length-append pending (status ∷ [])))
left-drained (read ∷ rest) n pending h =
    left-drained rest n (drop 10 pending)
      (omega (arith, h, length-drop 10 (length pending) pending (omega arith)))

published-reads :
    (steps : List StreamStep) (n : ℕ) → published (steps ++ replicate n read) ≡ published steps
unfolding published
published-reads [] zero = refl
published-reads [] (suc n) = published-reads [] n
published-reads (sub ch ∷ rest) n = published-reads rest n
published-reads (unsub ch ∷ rest) n = published-reads rest n
published-reads (pub_status status ∷ rest) n = ap (λ x. status ∷ x) (published-reads rest n)
published-reads (read ∷ rest) n = published-reads rest n

IsSteady-reads :
    (steps : List StreamStep) (n : ℕ)
    → All IsSteady steps
    → All IsSteady (steps ++ replicate n read)
IsSteady-reads [] zero ok = tt
IsSteady-reads [] (suc n) ok = (tt, IsSteady-reads [] n tt)
IsSteady-reads (step ∷ rest) n ok = (ok.0, IsSteady-reads rest n ok.1)

-- The memory hub is told the same statuses, in the same order.
memory_run-broadcast_all :
    (visit : List (ChainRef × ChainStatus) → List (ChainRef × ChainStatus))
    (statuses : List ChainStatus) (mem : MemoryChainhub)
    → (Memory.run visit (map Memory.pub_status statuses) mem).sent
      ≡ broadcast_all mem.sent mem.subs statuses
unfolding Memory.run Memory.handle Memory.publish broadcast_all
memory_run-broadcast_all visit [] mem = refl
memory_run-broadcast_all visit (status ∷ rest) mem =
    memory_run-broadcast_all visit rest (Memory.publish status mem)

-- What a round takes off the pending statuses, it has sent.
moved :
    (hub' hub : RedisStreamChainhub) (pending later rest : List ChainStatus) (sent : Channels)
    → hub' ≡ with_sent hub (broadcast_all hub.sent hub.subs (take 10 pending))
    → broadcast_all sent hub'.subs rest
      ≡ broadcast_all hub'.sent hub'.subs (drop 10 pending ++ later)
    → broadcast_all sent hub.subs rest ≡ broadcast_all hub.sent hub.subs (pending ++ later)
moved hub' hub pending later rest sent passed e =
    rw passed at e
    ∙ sym (broadcast_all-append hub.sent hub.subs (take 10 pending) (drop 10 pending ++ later))
    ∙ ap (broadcast_all hub.sent hub.subs) (
        sym (append_assoc (take 10 pending) (drop 10 pending) later)
        ∙ ap (λ x. x ++ later) (take-drop 10 pending))

module _ (redis : StreamRedis) (law : IsStreamRedis redis) where
  open law use {entries}

  -- The steps end without an error, the listener goes on, and what the channels have been sent and what
  -- is left to send are together what is published.
  run-IsListening :
      (steps : List StreamStep) (h : StreamHub redis) (pending : List ChainStatus)
      → IsListening redis law h pending
      → All IsSteady steps
      → length (entries h.store) + length (published steps) ≤ 1000
      → let out = run redis steps h in
        (out.1 ≡ fine)
        × (out.0.listening ≡ true)
        × (broadcast_all out.0.hub.sent h.hub.subs (left steps pending)
            ≡ broadcast_all h.hub.sent h.hub.subs (pending ++ published steps))
  unfolding run handle left published
  run-IsListening [] h pending l ok room =
      (refl, l.on, ap (broadcast_all h.hub.sent h.hub.subs) (sym (append-nil pending)))
  run-IsListening (sub ch ∷ rest) h pending l ok room = absurd ok.0
  run-IsListening (unsub ch ∷ rest) h pending l ok room = absurd ok.0
  run-IsListening (pub_status status ∷ rest) h pending l ok room =
      let (l', goes, same, grown) =
        publish-IsListening redis law h pending status l (omega (arith, room)) in
      let h' = (publish_chain_status redis status h).0 in
      let (ends, listens, sent) =
        run-IsListening rest h' (pending ++ status ∷ []) l' ok.1 (omega (arith, room, grown)) in
      rw (goes, run)
        (
          ends,
          listens,
          sent
              ∙ ap (broadcast_all h.hub.sent h.hub.subs)
                  (append_assoc pending (status ∷ []) (published rest)),
        )
  run-IsListening (read ∷ rest) h pending l ok room =
      let (l', passed, kept) = listen_round-IsListening redis law h pending l in
      let h' = listen_round redis h in
      let (ends, listens, sent) =
        run-IsListening rest h' (drop 10 pending) l' ok.1 (rw kept room) in
      (
        ends,
        listens,
        moved (listen_round redis h).hub h.hub pending (published rest)
            (left rest (drop 10 pending)) (run redis rest h').0.hub.sent passed sent,
      )

  -- From a listener that goes on and has passed on all that the stream holds, which is one message at
  -- least: whatever is published, and however the rounds of the listener fall between, once a tenth as
  -- many rounds have followed as there are statuses, `Run` has not ended, the listener goes on, and every
  -- channel has been sent what the memory hub sends it for the same statuses. No channel is subscribed
  -- or taken off meanwhile, the stream does not pass 1000 messages, and Redis has no errors.
  pub run-memory :
      (visit : List (ChainRef × ChainStatus) → List (ChainRef × ChainStatus))
      (steps : List StreamStep) (n : ℕ) (h : StreamHub redis) (mem : MemoryChainhub)
      → IsListening redis law h []
      → All IsSteady steps
      → length (entries h.store) + length (published steps) ≤ 1000
      → length (published steps) ≤ 10 * n
      → mem.subs ≡ h.hub.subs
      → mem.sent ≡ h.hub.sent
      → let out = run redis (steps ++ replicate n read) h in
        (out.1 ≡ fine)
        × (out.0.listening ≡ true)
        × (out.0.hub.sent ≡ (Memory.run visit (map Memory.pub_status (published steps)) mem).sent)
  unfolding broadcast_all
  run-memory visit steps n h mem l ok room enough same_subs same_sent =
      let all = published-reads steps n in
      let (ends, listens, sent) =
        run-IsListening (steps ++ replicate n read) h [] l (IsSteady-reads steps n ok)
          (omega (arith, room, ap length all)) in
      let sent' = rw (left-drained steps n [] (omega (arith, enough)), all) at sent in
      (
        ends,
        listens,
        sent'
            ∙ sym (
                memory_run-broadcast_all visit (published steps) mem
                ∙ rw (same_subs, same_sent) refl),
      )
