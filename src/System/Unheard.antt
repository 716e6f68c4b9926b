-- ===== src/System/Unheard.antt =====
-- What becomes of a status that no subscriber was there for: the loop of the endpoint does not publish the
-- same head again.
use nodemux.Common.{
  ℕ, String, true, Option, some, List, [], if_pos, if_neg, ℕ_discrete, String_discrete, lookup, All,
  ◌≡◌, ◌≢◌, refl, sym, ap, ap₂, ◌∙◌, arith,
}
use nodemux.Endpoint.{Endpoint, Block}
use nodemux.Multiplexer.Invariant.{Inv}
use nodemux.Sync.{Answer, got, get_blockhead, block_is_equal}
use nodemux.Hub.Delivery.{count}
use nodemux.System.{
  System, Step, fetch, take, pass, subscribe, unsubscribe, apply, Event, fetched, taken, sent,
  updated, joined, left, Reach, start, later, fetched_by, after_fetch, after_take, after_send,
  after_sub, after_unsub, after_update, upd,
}
use nodemux.System.Order.{Step-Inv}
use nodemux.System.View.{shown, show_all, published_other, view}
use nodemux.System.Refinement.{
  IsOther, fetch-view, take-in_flight, pass-in_flight, sub-in_flight, update-view, Step-names,
  Step-once,
}

-- An answer of the endpoint at this address gives this head; and the updater stays subscribed.
abbrev pub IsSameHead : ℕ → Block → Event → Type 0
IsSameHead addr block (fetched a answer) = a ≡ addr → answer ≡ got (some block)
IsSameHead addr block taken = Unit {0}
IsSameHead addr block sent = Unit {0}
IsSameHead addr block updated = Unit {0}
IsSameHead addr block (joined ch) = ch ≢ upd
IsSameHead addr block (left ch) = ch ≢ upd

-- The endpoint is listed at its address, the updater is subscribed once, and the loop of the endpoint
-- compares with this head.
pub record IsCompared (name : String) (addr : ℕ) (block : Block) (s : System) : Type 0 where
  pub inv : Inv s.multiplexer
  pub known : lookup String_discrete name s.multiplexer.name_index ≡ some addr
  pub once : count upd s.hub.subs ≡ 1
  pub last : s.last_blocks addr ≡ some block

IsSameHead-IsOther :
    (addr : ℕ) (block : Block) (event : Event) → IsSameHead addr block event → IsOther event
IsSameHead-IsOther addr block (fetched a answer) ok = tt
IsSameHead-IsOther addr block taken ok = tt
IsSameHead-IsOther addr block sent ok = tt
IsSameHead-IsOther addr block updated ok = tt
IsSameHead-IsOther addr block (joined ch) ok = ok
IsSameHead-IsOther addr block (left ch) ok = ok

block_is_equal_same : (block : Block) → block_is_equal (some block) (some block) ≡ true
unfolding block_is_equal
block_is_equal_same block = ground arith

published_again :
    (ep : Endpoint) (block : Block)
    → (get_blockhead ep (some block) (got (some block))).published ≡ []
unfolding get_blockhead
published_again ep block = rw (block_is_equal_same block) refl

published_same :
    (ep : Endpoint) (last_block : Option Block) (answer : Answer) (block : Block)
    → last_block ≡ some block
    → answer ≡ got (some block)
    → (get_blockhead ep last_block answer).published ≡ []
published_same ep last_block answer block last same =
    ap₂ (λ l a. (get_blockhead ep l a).published) last same ∙ published_again ep block

Step-unheard :
    {name : String} {addr : ℕ} {block : Block} {s u : System} {event : Event}
    → Step s event u
    → IsCompared name addr block s
    → IsSameHead addr block event
    → view u name addr ≡ view s name addr
unfolding after_take after_send after_sub after_unsub after_update fetched_by ℕ_discrete
Step-unheard {name} {addr} {block} {s} (fetch other a answer known syncing room) c ok =
    fetch-view name addr s a answer ∙ elim (ℕ_discrete a addr) [
      | yes p ↦
          ap (show_all name (view s name addr)) (
            published_same (s.multiplexer.heap a) (s.last_blocks a) answer block
              (ap s.last_blocks p ∙ c.last) (ok p))
          ∙ unfold show_all in refl
      | no p ↦
          published_other name (view s name addr) (s.multiplexer.heap a) (s.last_blocks a) answer
            (λ q. p (cc (sym ((c.inv.listed other a known).named) ∙ q, known, c.known)))
    ]
Step-unheard {name} {addr} {block} {s} (take cs rest idle head) c ok =
    ap (show_all name (shown (s.multiplexer.heap addr))) (take-in_flight s cs rest idle head c.once)
Step-unheard {name} {addr} {block} {s} (pass ch cs rest next room) c ok =
    ap (show_all name (shown (s.multiplexer.heap addr))) (pass-in_flight s ch cs rest next)
Step-unheard {name} {addr} {block} {s} (subscribe ch visit idle) c ok =
    ap (show_all name (shown (s.multiplexer.heap addr)))
      (sub-in_flight s ch (visit s.hub.snapshots) idle ok)
Step-unheard (unsubscribe ch idle) c ok = refl
Step-unheard {name} {addr} {block} {s} (apply cs rest r r' m go go' head result) c ok =
    update-view name addr s cs rest r r' m go go' c.inv c.known head result

Step-last :
    {name : String} {addr : ℕ} {block : Block} {s u : System} {event : Event}
    → Step s event u
    → IsCompared name addr block s
    → IsSameHead addr block event
    → u.last_blocks addr ≡ some block
unfolding after_fetch after_take after_send after_sub after_unsub after_update fetched_by
Step-last {name} {addr} {block} {s} (fetch other a answer known syncing room) c ok =
    let f = fetched_by s a answer in
    elim (ℕ_discrete a addr) [
      | yes p ↦
          if_pos (ℕ_discrete addr a) (sym p) f.last_block (s.last_blocks addr)
          ∙ ap (λ x. (get_blockhead (s.multiplexer.heap a) (s.last_blocks a) x).last_block) (ok p)
          ∙ unfold get_blockhead in refl
      | no p ↦
          if_neg (ℕ_discrete addr a) (λ q. p (sym q)) f.last_block (s.last_blocks addr) ∙ c.last
    ]
Step-last (take cs rest idle head) c ok = c.last
Step-last (pass ch cs rest next room) c ok = c.last
Step-last (subscribe ch visit idle) c ok = c.last
Step-last (unsubscribe ch idle) c ok = c.last
Step-last (apply cs rest r r' m go go' head result) c ok = c.last

-- Of a multiplexer in order, with the updater subscribed once: an endpoint whose loop has published a head
-- and compares with it does not publish it again, so that over any run in which its answers give this
-- head, what the endpoint will show stays as it is, also where the head was never taken in.
pub Reach-unheard :
    {name : String} {addr : ℕ} {block : Block} {s t : System} {events : List Event}
    → Reach s events t
    → IsCompared name addr block s
    → All (IsSameHead addr block) events
    → IsCompared name addr block t × (view t name addr ≡ view s name addr)
Reach-unheard start c ok = (c, refl)
Reach-unheard {name} {addr} {block} (later {events} {event} before step) c ok =
    let (d, same) = Reach-unheard before c ok.1 in
    (
      record {
        inv = Step-Inv step d.inv;
        known = ap (lookup String_discrete name) (Step-names step) ∙ d.known;
        once = Step-once step (IsSameHead-IsOther addr block event ok.0) ∙ d.once;
        last = Step-last step d ok.0;
      },
      Step-unheard step d ok.0 ∙ same,
    )
