-- ===== src/Hub/Listening.antt =====
-- What the subscribers of the stream hub receive, on a Redis that answers every command.
use nodemux.Common.{
  String, ℕ, zero, suc, ◌<◌, true, false, some, List, [], ◌∷◌, ◌++◌, append_assoc, length,
  length-append, take, drop, is_empty, ◌≡◌, refl, sym, ap, ◌∙◌, arith,
}
use nodemux.Sync.{ChainStatus}
use nodemux.Hub.Channels.{Channels, broadcast}
use nodemux.Hub.Stream.{
  StreamMessage, RedisStreamChainhub, fine, decode_chain_status, pass_on, handle_redis_error,
}
use nodemux.Hub.Loops.{
  StreamRedis, StreamHub, counted, publish_chain_status, next_messages, passed_on, listen_round,
}

-- Redis as documented, with no errors: `entries` are the messages of the stream, in order.
pub record IsStreamRedis (redis : StreamRedis) : Type 0 where
  pub entries : StreamRedis.Store redis → List StreamMessage
  pub behind :
      (s : StreamRedis.Store redis) (before : List StreamMessage) (m : StreamMessage)
      (rest : List StreamMessage) (n : ℕ)
      → entries s ≡ before ++ m ∷ rest
      → (redis.xrange_n s m.id n).0 ≡ some (take n rest)
  pub named :
      (s : StreamRedis.Store redis) (before : List StreamMessage) (m : StreamMessage)
      (rest : List StreamMessage)
      → entries s ≡ before ++ m ∷ rest
      → is_empty m.id ≡ false
  pub added :
      (s : StreamRedis.Store redis) (status : ChainStatus)
      → length (entries s) < 1000
      → ((redis.xadd s status).1 ≡ fine)
        × ((m : StreamMessage) × ((m.status ≡ some status)
              × (entries (redis.xadd s status).0 ≡ entries s ++ m ∷ [])))

-- The messages carry the statuses.
abbrev Carries : List StreamMessage → List ChainStatus → Type 0
Carries [] [] = Unit {0}
Carries [] (status ∷ rest) = ⊥
Carries (m ∷ messages) [] = ⊥
Carries (m ∷ messages) (status ∷ rest) = (m.status ≡ some status) × Carries messages rest

Carries-append :
    (xs : List StreamMessage) (ss : List ChainStatus) (m : StreamMessage) (status : ChainStatus)
    → Carries xs ss
    → m.status ≡ some status
    → Carries (xs ++ m ∷ []) (ss ++ status ∷ [])
Carries-append [] [] m status c e = (e, tt)
Carries-append [] (s ∷ ss) m status c e = absurd c
Carries-append (x ∷ xs) [] m status c e = absurd c
Carries-append (x ∷ xs) (s ∷ ss) m status c e = (c.0, Carries-append xs ss m status c.1 e)

-- The channels once each of the subscribed ones is sent each of the statuses.
unfoldable pub broadcast_all : Channels → List ℕ → List ChainStatus → Channels
unfolding broadcast
broadcast_all sent subs [] = sent
broadcast_all sent subs (status ∷ rest) = broadcast_all (broadcast sent subs status) subs rest

pub broadcast_all-append :
    (sent : Channels) (subs : List ℕ) (xs ys : List ChainStatus)
    → broadcast_all sent subs (xs ++ ys) ≡ broadcast_all (broadcast_all sent subs xs) subs ys
unfolding broadcast_all
broadcast_all-append sent subs [] ys = refl
broadcast_all-append sent subs (x ∷ xs) ys = broadcast_all-append (broadcast sent subs x) subs xs ys

-- A hub whose channels hold `sent`.
abbrev pub with_sent : RedisStreamChainhub → Channels → RedisStreamChainhub
with_sent hub sent = record hub { sent = sent }

-- Where the listener stands once it has passed on `n` messages.
record Passed (n : ℕ) (unread : List StreamMessage) (pending : List ChainStatus)
    (hub : RedisStreamChainhub) (messages : List StreamMessage) (last_id : String) : Type 0 where
  before : List StreamMessage
  last : StreamMessage
  held : messages ≡ before ++ last ∷ drop n unread
  passes :
      pass_on last_id (take n unread) hub
      ≡ (with_sent hub (broadcast_all hub.sent hub.subs (take n pending)), last.id, fine)
  carried : Carries (drop n unread) (drop n pending)

pass_on-cons :
    (last_id : String) (m : StreamMessage) (rest : List StreamMessage) (hub : RedisStreamChainhub)
    (status : ChainStatus)
    → m.status ≡ some status
    → pass_on last_id (m ∷ rest) hub
      ≡ pass_on m.id rest (with_sent hub (broadcast hub.sent hub.subs status))
unfolding pass_on decode_chain_status
pass_on-cons last_id m rest hub status e = rw (e, pass_on) refl

pass_on-Passed :
    (n : ℕ) (unread : List StreamMessage) (pending : List ChainStatus) (hub : RedisStreamChainhub)
    (before : List StreamMessage) (last : StreamMessage)
    → Carries unread pending
    → Passed n unread pending hub (before ++ last ∷ unread) last.id
unfolding pass_on broadcast_all decode_chain_status
pass_on-Passed zero unread pending hub before last c = record {
  before = before;
  last = last;
  held = refl;
  passes = refl;
  carried = c;
}
pass_on-Passed (suc n) [] [] hub before last c = record {
  before = before;
  last = last;
  held = refl;
  passes = refl;
  carried = c;
}
pass_on-Passed (suc n) [] (status ∷ rest) hub before last c = absurd c
pass_on-Passed (suc n) (m ∷ messages) [] hub before last c = absurd c
pass_on-Passed (suc n) (m ∷ messages) (status ∷ rest) hub before last c =
    let later =
      pass_on-Passed n messages rest (with_sent hub (broadcast hub.sent hub.subs status))
        (before ++ last ∷ []) m c.1 in
    record {
      before = later.before;
      last = later.last;
      held = sym (append_assoc before (last ∷ []) (m ∷ messages)) ∙ later.held;
      passes = pass_on-cons last.id m (take n messages) hub status c.0 ∙ later.passes;
      carried = later.carried;
    }

module _ (redis : StreamRedis) (law : IsStreamRedis redis) where
  open law use {entries, behind, named, added}

  -- The listener runs; behind the last message that it has passed on there are those that carry the
  -- statuses `pending`.
  pub record IsListening (h : StreamHub redis) (pending : List ChainStatus) : Type 0 where
    pub before : List StreamMessage
    pub last : StreamMessage
    pub unread : List StreamMessage
    pub held : entries h.store ≡ before ++ last ∷ unread
    pub there : h.last_id ≡ last.id
    pub on : h.listening ≡ true
    pub carried : Carries unread pending

  pub publish-IsListening :
      (h : StreamHub redis) (pending : List ChainStatus) (status : ChainStatus)
      → IsListening h pending
      → length (entries h.store) < 1000
      → let out = publish_chain_status redis status h in
        IsListening out.0 (pending ++ status ∷ [])
        × (out.1 ≡ fine)
        × (out.0.hub ≡ h.hub)
        × (length (entries out.0.store) ≡ suc (length (entries h.store)))
  unfolding publish_chain_status counted handle_redis_error
  publish-IsListening h pending status l room =
      let (ok, (m, (e, grown))) = added h.store status room in
      rw ok (
        record {
          before = l.before;
          last = l.last;
          unread = l.unread ++ m ∷ [];
          held =
              grown
              ∙ ap (λ x. x ++ m ∷ []) l.held
              ∙ append_assoc l.before (l.last ∷ l.unread) (m ∷ []);
          there = l.there;
          on = l.on;
          carried = Carries-append l.unread pending m status l.carried e;
        },
        refl,
        refl,
        ap length grown ∙ length-append (entries h.store) (m ∷ []) ∙ omega arith,
      )

  pub listen_round-IsListening :
      (h : StreamHub redis) (pending : List ChainStatus)
      → IsListening h pending
      → let h' = listen_round redis h in
        IsListening h' (drop 10 pending)
        × (h'.hub ≡ with_sent h.hub (broadcast_all h.hub.sent h.hub.subs (take 10 pending)))
        × (h'.store ≡ h.store)
  unfolding listen_round next_messages passed_on
  listen_round-IsListening h pending l =
      let p = pass_on-Passed 10 l.unread pending h.hub l.before l.last l.carried in
      let not_first = named h.store l.before l.last l.unread l.held in
      let answer = behind h.store l.before l.last l.unread 10 l.held in
      rw (l.on, l.there, not_first, answer, l.there, p.passes)
        (
          record {
            before = p.before;
            last = p.last;
            unread = drop 10 l.unread;
            held = l.held ∙ p.held;
            there = refl;
            on = l.on;
            carried = p.carried;
          },
          refl,
          refl,
        )
