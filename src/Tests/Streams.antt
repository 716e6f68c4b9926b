-- ===== src/Tests/Streams.antt =====
-- A run of the stream hub, on a Redis that numbers its messages.
use Prim.Native.String.{String}
use nodemux.Common.{
  ℕ, zero, suc, ◌+◌, ◌*◌, ◌≤◌, true, false, some, List, [], ◌∷◌, ◌++◌, length, take, drop, map,
  replicate, is_empty, ◌≡◌, refl, sym, ap, ◌∙◌, arith,
}
use nodemux.Sync.{ChainStatus}
use nodemux.Hub.Memory
use nodemux.Hub.Memory.{MemoryChainhub}
use nodemux.Hub.Stream.{StreamMessage, fine}
use nodemux.Hub.Loops.{StreamRedis, StreamStep, pub_status, read, StreamHub, run}
use nodemux.Hub.Listening.{IsStreamRedis, IsListening}
use nodemux.Hub.Streaming.{published, run-memory}
use nodemux.Tests.Hubs.{of, silent, listening}

-- The id of message number `n`.
abbrev ticks : ℕ → String
ticks zero = String.[]
ticks (suc n) = String.◌∷◌ "x" (ticks n)

abbrev number : String → ℕ
number String.[] = 0
number (String.◌∷◌ c s) = suc (number s)

number-ticks : (n : ℕ) → number (ticks n) ≡ n
number-ticks zero = refl
number-ticks (suc n) = ap suc (number-ticks n)

abbrev numbered : ℕ → List ChainStatus → List StreamMessage
numbered n [] = []
numbered n (status ∷ rest) =
    record { id = ticks (suc n); status = some status } ∷ numbered (suc n) rest

abbrev newest : List StreamMessage → List StreamMessage
newest [] = []
newest (m ∷ rest) = newest rest ++ m ∷ []

abbrev stream : StreamRedis
stream = record {
  Store = List ChainStatus;
  xrevrange_n = λ s n. (some (take n (newest (numbered 0 s))), fine);
  xrange_n = λ s id n. (some (take n (drop (number id) (numbered 0 s))), fine);
  xadd = λ s status. (s ++ status ∷ [], fine);
}

here : (n : ℕ) → n ≡ n + 0
here n = omega arith

further : (n k : ℕ) → suc n + k ≡ n + suc k
further n k = omega arith

numbered-append :
    (n : ℕ) (xs : List ChainStatus) (status : ChainStatus)
    → numbered n (xs ++ status ∷ [])
      ≡ numbered n xs ++ record { id = ticks (suc (n + length xs)); status = some status } ∷ []
numbered-append n [] status =
    ap (λ k. record { id = ticks (suc k); status = some status } ∷ []) (here n)
numbered-append n (x ∷ xs) status =
    ap (λ l. record { id = ticks (suc n); status = some x } ∷ l)
      (numbered-append (suc n) xs status
        ∙ ap (λ k. numbered (suc n) xs ++ record { id = ticks (suc k); status = some status } ∷ [])
            (further n (length xs)))

abbrev first_id : List StreamMessage → String
first_id [] = ""
first_id (m ∷ rest) = m.id

drop-past :
    {A : Type 0} (xs : List A) (y : A) (ys : List A) → drop (suc (length xs)) (xs ++ y ∷ ys) ≡ ys
drop-past [] y ys = refl
drop-past (x ∷ xs) y ys = drop-past xs y ys

none_there : {m : StreamMessage} {rest : List StreamMessage} → ¬ ([] ≡ m ∷ rest)
none_there e = omega (arith, ap length e)

-- Where a message stands, its id says.
numbered-id :
    (n : ℕ) (s : List ChainStatus) (before : List StreamMessage) (m : StreamMessage)
    (rest : List StreamMessage)
    → numbered n s ≡ before ++ m ∷ rest
    → m.id ≡ ticks (suc (n + length before))
numbered-id n [] [] m rest e = absurd (none_there e)
numbered-id n [] (b ∷ before) m rest e = absurd (none_there e)
numbered-id n (x ∷ s) [] m rest e = sym (ap first_id e) ∙ ap (λ k. ticks (suc k)) (here n)
numbered-id n (x ∷ s) (b ∷ before) m rest e =
    numbered-id (suc n) s before m rest (ap (drop 1) e)
    ∙ ap (λ k. ticks (suc k)) (further n (length before))

numbered-named :
    (s : List ChainStatus) (before : List StreamMessage) (m : StreamMessage)
    (rest : List StreamMessage)
    → numbered 0 s ≡ before ++ m ∷ rest
    → is_empty m.id ≡ false
unfolding is_empty
numbered-named s before m rest e = ap is_empty (numbered-id 0 s before m rest e)

-- What follows a message is found by its id.
drop-number :
    (s : List ChainStatus) (before : List StreamMessage) (m : StreamMessage)
    (rest : List StreamMessage)
    → numbered 0 s ≡ before ++ m ∷ rest
    → drop (number m.id) (numbered 0 s) ≡ rest
drop-number s before m rest e =
    let place : number m.id ≡ suc (length before) =
      ap number (numbered-id 0 s before m rest e)
      ∙ number-ticks (suc (0 + length before))
      ∙ omega arith in
    rw (place, e) (drop-past before m rest)

abbrev stream-IsStreamRedis : IsStreamRedis stream
stream-IsStreamRedis = record {
  entries = numbered 0;
  behind = λ s before m rest n e. ap (λ xs. some (take n xs)) (drop-number s before m rest e);
  named = numbered-named;
  added = λ s status room. (
    refl,
    (
      record { id = ticks (suc (0 + length s)); status = some status },
      (refl, numbered-append 0 s status),
    ),
  );
}

abbrev hub : StreamHub stream
hub = record {
  store = of "tron01" ∷ [];
  hub = record { subs = 5 ∷ 6 ∷ []; sent = silent };
  network_failure = 0;
  last_id = ticks 1;
  listening = true;
}

abbrev hub-IsListening : IsListening stream stream-IsStreamRedis hub []
hub-IsListening = record {
  before = [];
  last = record { id = ticks 1; status = some (of "tron01") };
  unread = [];
  held = refl;
  there = refl;
  on = refl;
  carried = tt;
}

abbrev steps : List StreamStep
steps = pub_status (of "tron02") ∷ read ∷ pub_status (of "tron01") ∷ []

few :
    length (IsStreamRedis.entries stream-IsStreamRedis hub.store) + length (published steps) ≤ 1000
unfolding published
few = omega arith

enough : length (published steps) ≤ 10 * 1
unfolding published
enough = omega arith

run-memory_example :
    let out = run stream (steps ++ replicate 1 read) hub in
    (out.1 ≡ fine)
    × (out.0.listening ≡ true)
    × (out.0.hub.sent
        ≡ (Memory.run (λ s. s) (map Memory.pub_status (published steps)) listening).sent)
run-memory_example =
    run-memory stream stream-IsStreamRedis (λ s. s) steps 1 hub listening hub-IsListening
      (tt, (tt, (tt, tt))) few enough refl refl
