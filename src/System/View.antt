-- ===== src/System/View.antt =====
-- What an endpoint will show once everything in flight has arrived, and what its answers tell.
use nodemux.Common.{
  ℕ, String, Bool, true, false, Option, none, some, List, [], ◌∷◌, ◌++◌, ite, if_pos, if_neg,
  ℕ_discrete, String_discrete, lookup, ◌≡◌, ◌≢◌, refl, sym, ap, ◌∙◌, inl, inr, Bool-cases,
  Option-cases, arith, done, done-inj,
}
use nodemux.Endpoint.{Endpoint, Block}
use nodemux.EndpointSet.{Heap}
use nodemux.Multiplexer.{Multiplexer, Runtime, IsGo, update}
use nodemux.Multiplexer
use nodemux.Multiplexer.Invariant.{Inv}
use nodemux.Sync.{
  ChainStatus, Answer, failed, got, get_blockhead, unhealthy_status, update_block, block_is_equal,
  update_status,
}
use nodemux.Sync.Store.{update_self}
use nodemux.Sync.Effect.{take_in, update_status-take_in, block_is_equal_sound, update_other}
use nodemux.System.{System, upd}

-- What a request sees of an endpoint: its health and its head.
abbrev pub Shown : Type 0
Shown = Bool × Option Block

abbrev pub shown : Endpoint → Shown
shown ep = (ep.healthy, ep.blockhead)

unfoldable pub show_in : Shown → ChainStatus → Shown
show_in sh cs = (cs.healthy, elim cs.blockhead [ none ↦ sh.1 | some block ↦ some block ])

-- The statuses of one name, taken in in order.
unfoldable pub show_all : String → Shown → List ChainStatus → Shown
show_all name sh [] = sh
show_all name sh (cs ∷ rest) =
    show_all name (ite (String_discrete cs.endpoint_name name) (show_in sh cs) sh) rest

-- What an answer tells: an error that the endpoint is not healthy, a block that it is, with this head.
unfoldable pub answered : Shown → Answer → Shown
answered sh failed = (false, sh.1)
answered sh (got none) = sh
answered sh (got (some block)) = (true, some block)

-- The endpoint shows the last block, where there is one.
abbrev pub IsAhead : Shown → Option Block → Type 0
IsAhead sh none = Unit {0}
IsAhead sh (some block) = sh ≡ (true, some block)

pub show_all-append :
    (name : String) (xs ys : List ChainStatus) (sh : Shown)
    → show_all name sh (xs ++ ys) ≡ show_all name (show_all name sh xs) ys
unfolding show_all
show_all-append name [] ys sh = refl
show_all-append name (cs ∷ xs) ys sh = show_all-append name xs ys _

show_all_one :
    (name : String) (sh : Shown) (cs : ChainStatus)
    → cs.endpoint_name ≡ name
    → show_all name sh (cs ∷ []) ≡ show_in sh cs
unfolding show_all
show_all_one name sh cs same =
    if_pos (String_discrete cs.endpoint_name name) same (show_in sh cs) sh

show_all_other :
    (name : String) (sh : Shown) (cs : ChainStatus)
    → cs.endpoint_name ≢ name
    → show_all name sh (cs ∷ []) ≡ sh
unfolding show_all
show_all_other name sh cs other =
    if_neg (String_discrete cs.endpoint_name name) other (show_in sh cs) sh

held-IsAhead :
    (sh : Shown) (last_block : Option Block) (block : Block)
    → IsAhead sh last_block
    → block_is_equal last_block (some block) ≡ true
    → sh ≡ (true, some block)
held-IsAhead sh none block ahead equal = unfold block_is_equal in absurd (ground arith)
held-IsAhead sh (some old) block ahead equal =
    ahead ∙ ap (λ b. (true, some b)) (block_is_equal_sound old block equal)

module _ (name : String) (sh : Shown) (ep : Endpoint) (last_block : Option Block) where
  -- What the loop of an endpoint publishes tells what the answer told, although a block that is the
  -- last one again is held back.
  pub published-answered :
      (answer : Answer)
      → ep.name ≡ name
      → IsAhead sh last_block
      → show_all name sh (get_blockhead ep last_block answer).published ≡ answered sh answer
  unfolding get_blockhead answered
  published-answered failed same ahead =
      show_all_one name sh (unhealthy_status ep) (unfold unhealthy_status in same)
      ∙ unfold show_in unhealthy_status in refl
  published-answered (got none) same ahead = unfold show_all in refl
  published-answered (got (some block)) same ahead =
      elim (Bool-cases (block_is_equal last_block (some block))) [
        | inl equal ↦ rw equal (unfold show_all in held-IsAhead sh last_block block ahead equal)
        | inr differs ↦ rw differs (
            show_all_one name sh (update_block ep block) (unfold update_block in same)
            ∙ unfold show_in update_block in refl)
      ]

  pub published_other :
      (answer : Answer)
      → ep.name ≢ name
      → show_all name sh (get_blockhead ep last_block answer).published ≡ sh
  unfolding get_blockhead
  published_other failed other =
      show_all_other name sh (unhealthy_status ep) (unfold unhealthy_status in other)
  published_other (got none) other = unfold show_all in refl
  published_other (got (some block)) other =
      elim (Bool-cases (block_is_equal last_block (some block))) [
        | inl equal ↦ rw equal (unfold show_all in refl)
        | inr differs ↦
            rw differs
              (show_all_other name sh (update_block ep block) (unfold update_block in other))
      ]

-- The statuses that the hub is still to send into a channel.
unfoldable pub for_channel : ℕ → List (ℕ × ChainStatus) → List ChainStatus
for_channel ch [] = []
for_channel ch ((c, cs) ∷ rest) =
    let later = for_channel ch rest in ite (ℕ_discrete c ch) (cs ∷ later) later

-- What was published and the updater has not taken yet, the oldest first.
abbrev pub in_flight : System → List ChainStatus
in_flight s = s.hub.sent upd ++ (for_channel upd s.sending ++ s.pub_channel)

-- What the endpoint will show once everything in flight has arrived.
abbrev pub view : System → String → ℕ → Shown
view s name addr = show_all name (shown (s.multiplexer.heap addr)) (in_flight s)

take_in-shown :
    (heap : Heap) (addr : ℕ) (cs : ChainStatus)
    → shown (update heap addr (take_in (heap addr) cs) addr) ≡ show_in (shown (heap addr)) cs
take_in-shown heap addr cs =
    ap shown (update_self heap addr (take_in (heap addr) cs)) ∙ unfold take_in show_in in refl

update_status_unknown :
    (r r' : Runtime) (m : Multiplexer) (cs : ChainStatus)
    → lookup String_discrete cs.endpoint_name m.name_index ≡ none
    → update_status r r' m cs ≡ done m
unfolding update_status Multiplexer.get
update_status_unknown r r' m cs e = rw (e, update_status) refl

-- A status that the updater takes in shows on its endpoint, and on no other.
pub update_status-shown :
    (r r' : Runtime) (m m' : Multiplexer) (cs : ChainStatus) (name : String) (addr : ℕ)
    → IsGo r
    → IsGo r'
    → Inv m
    → lookup String_discrete name m.name_index ≡ some addr
    → update_status r r' m cs ≡ done m'
    → shown (m'.heap addr) ≡ show_all name (shown (m.heap addr)) (cs ∷ [])
update_status-shown r r' m m' cs name addr go go' v known result =
    elim (Option-cases (lookup String_discrete cs.endpoint_name m.name_index)) [
      | inl e ↦
          let same : m ≡ m' = done-inj (sym (update_status_unknown r r' m cs e) ∙ result) in
          ap (λ x. shown (x.heap addr)) (sym same)
          ∙ sym (show_all_other name (shown (m.heap addr)) cs (λ p. cc (e, p, known)))
      | inr (a, e) ↦
          let (n, e', written) = update_status-take_in r r' m cs a go go' v e in
          let same : n ≡ m' = done-inj (sym e' ∙ result) in
          ap (λ x. shown (x.heap addr)) (sym same)
          ∙ ap shown (written addr)
          ∙ by_name a e (String_discrete cs.endpoint_name name)
    ]
  where
    by_name :
        (a : ℕ)
        → lookup String_discrete cs.endpoint_name m.name_index ≡ some a
        → Dec (cs.endpoint_name ≡ name)
        → shown (update m.heap a (take_in (m.heap a) cs) addr)
          ≡ show_all name (shown (m.heap addr)) (cs ∷ [])
    by_name a e (yes p) =
        let here : a ≡ addr = cc (e, p, known) in
        rw here (take_in-shown m.heap addr cs ∙ sym (show_all_one name (shown (m.heap addr)) cs p))
    by_name a e (no p) =
        let apart : addr ≢ a = (λ q. p (
          sym ((v.listed cs.endpoint_name a e).named)
          ∙ ap (λ x. (m.heap x).name) (sym q)
          ∙ (v.listed name addr known).named)) in
        ap shown (update_other m.heap a (take_in (m.heap a) cs) addr apart)
        ∙ sym (show_all_other name (shown (m.heap addr)) cs p)
