-- ===== src/System/Refinement.antt =====
-- The loops, the hub and the updater against a specification with no channels, where an answer shows on
-- its endpoint at once.
use nodemux.Common.{
  ℕ, ◌-◌, String, Option, none, some, List, [], ◌∷◌, ◌++◌, map, replicate, ite, if_pos, if_neg,
  ℕ_discrete, String_discrete, lookup, All, ◌≡◌, ◌≢◌, refl, sym, ap, ◌∙◌, subst, subst₂, arith,
  append_assoc, done,
}
use nodemux.Chain.{ChainRef}
use nodemux.Endpoint.{Endpoint, Block}
use nodemux.Multiplexer.{Multiplexer, Runtime, IsGo}
use nodemux.Multiplexer.Invariant.{Inv}
use nodemux.Sync.{ChainStatus, Answer, failed, got, get_blockhead, update_status}
use nodemux.Sync.Store.{update_keeps}
use nodemux.Sync.Names.{update_status-names}
use nodemux.Hub.Channels.{send}
use nodemux.Hub.Delivery.{count, count-append, count-remove_sub, send_self, send_other}
use nodemux.System.{
  System, Step, fetch, take, pass, subscribe, unsubscribe, apply, Event, fetched, taken, sent,
  updated, joined, left, Reach, start, later, fetched_by, after_fetch, after_take, after_send,
  after_sub, after_unsub, after_update, upd,
}
use nodemux.System.Order.{get_blockhead-Alike, Step-Inv}
use nodemux.System.View.{
  Shown, shown, show_all, answered, IsAhead, show_all-append, published-answered, published_other,
  for_channel, in_flight, view, update_status-shown,
}

-- What the answers of an endpoint tell, of the events of a run, the latest first.
unfoldable pub latest : ℕ → Shown → List Event → Shown
unfolding answered
latest addr sh [] = sh
latest addr sh (fetched a answer ∷ before) =
    let sh' = latest addr sh before in ite (ℕ_discrete a addr) (answered sh' answer) sh'
latest addr sh (taken ∷ before) = latest addr sh before
latest addr sh (sent ∷ before) = latest addr sh before
latest addr sh (updated ∷ before) = latest addr sh before
latest addr sh (joined ch ∷ before) = latest addr sh before
latest addr sh (left ch ∷ before) = latest addr sh before

-- The event is no subscription of the updater, nor the end of one.
abbrev pub IsOther : Event → Type 0
IsOther (fetched addr answer) = Unit {0}
IsOther taken = Unit {0}
IsOther sent = Unit {0}
IsOther updated = Unit {0}
IsOther (joined ch) = ch ≢ upd
IsOther (left ch) = ch ≢ upd

-- The endpoint is listed at its address, the updater is subscribed once, and the block that the loop of
-- the endpoint compares with is the head that it will show.
pub record IsFollowed (name : String) (addr : ℕ) (s : System) : Type 0 where
  pub inv : Inv s.multiplexer
  pub known : lookup String_discrete name s.multiplexer.name_index ≡ some addr
  pub once : count upd s.hub.subs ≡ 1
  pub ahead : IsAhead (view s name addr) (s.last_blocks addr)

for_channel-all :
    (ch : ℕ) (cs : ChainStatus) (subs : List ℕ)
    → for_channel ch (map (λ c. (c, cs)) subs) ≡ replicate (count ch subs) cs
unfolding for_channel count
for_channel-all ch cs [] = refl
for_channel-all ch cs (c ∷ subs) = ground (arith, for_channel-all ch cs subs)

for_channel_none :
    (ch c : ℕ) (snapshots : List (ChainRef × ChainStatus))
    → c ≢ ch
    → for_channel ch (map (λ e. (c, e.1)) snapshots) ≡ []
unfolding for_channel
for_channel_none ch c [] other = refl
for_channel_none ch c (e ∷ snapshots) other =
    if_neg (ℕ_discrete c ch) other (e.1 ∷ _) _ ∙ for_channel_none ch c snapshots other

-- The specification's step: an answer for the endpoint shows at once, and nothing else shows.
unfoldable pub told : ℕ → Event → Shown → Shown
unfolding latest
told addr event sh = latest addr sh (event ∷ [])

pub fetch-view :
    (name : String) (addr : ℕ) (s : System) (a : ℕ) (answer : Answer)
    → view (after_fetch s a answer) name addr
      ≡ show_all name (view s name addr) (fetched_by s a answer).published
unfolding after_fetch
fetch-view name addr s a answer =
    let f = fetched_by s a answer in
    let alike = get_blockhead-Alike (s.multiplexer.heap a) (s.last_blocks a) answer in
    let kept =
      update_keeps shown s.multiplexer.heap a f.endpoint addr
        (unfold fetched_by in (λ i. (alike.healthy i, alike.blockhead i))) in
    rw kept (
      ap (show_all name (shown (s.multiplexer.heap addr))) (
        ap (λ x. s.hub.sent upd ++ x)
          (sym (append_assoc (for_channel upd s.sending) s.pub_channel f.published))
        ∙ sym (
            append_assoc (s.hub.sent upd) (for_channel upd s.sending ++ s.pub_channel) f.published))
      ∙ show_all-append name (in_flight s) f.published (shown (s.multiplexer.heap addr)))

-- An answer of the endpoint, or of another one.
fetch-told :
    (name other : String) (addr : ℕ) (s : System) (a : ℕ) (answer : Answer)
    → IsFollowed name addr s
    → lookup String_discrete other s.multiplexer.name_index ≡ some a
    → view (after_fetch s a answer) name addr
      ≡ ite (ℕ_discrete a addr) (answered (view s name addr) answer) (view s name addr)
unfolding fetched_by
fetch-told name other addr s a answer f at =
    fetch-view name addr s a answer ∙ elim (ℕ_discrete a addr) [
      | yes p ↦
          published-answered name (view s name addr) (s.multiplexer.heap a) (s.last_blocks a) answer
            (ap (λ x. (s.multiplexer.heap x).name) p ∙ (f.inv.listed name addr f.known).named)
            (subst (λ x. IsAhead (view s name addr) (s.last_blocks x)) (sym p) f.ahead)
          ∙ sym
              (if_pos (ℕ_discrete a addr) p (answered (view s name addr) answer) (view s name addr))
      | no p ↦
          published_other name (view s name addr) (s.multiplexer.heap a) (s.last_blocks a) answer
            (λ q. p (cc (sym ((f.inv.listed other a at).named) ∙ q, at, f.known)))
          ∙ sym
              (if_neg (ℕ_discrete a addr) p (answered (view s name addr) answer) (view s name addr))
    ]

pub pass-in_flight :
    (s : System) (ch : ℕ) (cs : ChainStatus) (rest : List (ℕ × ChainStatus))
    → s.sending ≡ (ch, cs) ∷ rest
    → in_flight (after_send s ch cs rest) ≡ in_flight s
unfolding after_send for_channel
pass-in_flight s ch cs rest next =
    let later = for_channel upd rest in
    rw next (elim (ℕ_discrete ch upd) [
      | yes p ↦
          ap (λ x. x ++ (later ++ s.pub_channel))
            (ap (send s.hub.sent ch cs) (sym p)
              ∙ send_self s.hub.sent ch cs
              ∙ ap (λ x. s.hub.sent x ++ cs ∷ []) p)
          ∙ append_assoc (s.hub.sent upd) (cs ∷ []) (later ++ s.pub_channel)
          ∙ ap (λ x. s.hub.sent upd ++ (x ++ s.pub_channel))
              (sym (if_pos (ℕ_discrete ch upd) p (cs ∷ later) later))
      | no p ↦
          ap (λ x. x ++ (later ++ s.pub_channel)) (send_other s.hub.sent ch upd cs p)
          ∙ ap (λ x. s.hub.sent upd ++ (x ++ s.pub_channel))
              (sym (if_neg (ℕ_discrete ch upd) p (cs ∷ later) later))
    ])

pub take-in_flight :
    (s : System) (cs : ChainStatus) (rest : List ChainStatus)
    → s.sending ≡ []
    → s.pub_channel ≡ cs ∷ rest
    → count upd s.hub.subs ≡ 1
    → in_flight (after_take s cs rest) ≡ in_flight s
unfolding after_take
take-in_flight s cs rest idle head once =
    rw (idle, head, for_channel-all upd cs s.hub.subs, once) (unfold for_channel in refl)

pub sub-in_flight :
    (s : System) (ch : ℕ) (snapshots : List (ChainRef × ChainStatus))
    → s.sending ≡ []
    → ch ≢ upd
    → in_flight (after_sub s ch snapshots) ≡ in_flight s
unfolding after_sub
sub-in_flight s ch snapshots idle other =
    rw (idle, for_channel_none upd ch snapshots other) (unfold for_channel in refl)

pub update-view :
    (name : String) (addr : ℕ) (s : System) (cs : ChainStatus) (rest : List ChainStatus)
    (r r' : Runtime) (m : Multiplexer)
    → IsGo r
    → IsGo r'
    → Inv s.multiplexer
    → lookup String_discrete name s.multiplexer.name_index ≡ some addr
    → s.hub.sent upd ≡ cs ∷ rest
    → update_status r r' s.multiplexer cs ≡ done m
    → view (after_update s rest m) name addr ≡ view s name addr
unfolding after_update ℕ_discrete
update-view name addr s cs rest r r' m go go' v known head result =
    let waiting = for_channel upd s.sending ++ s.pub_channel in
    let now = update_status-shown r r' s.multiplexer m cs name addr go go' v known result in
    rw (now, head)
      (sym (show_all-append name (cs ∷ []) (rest ++ waiting) (shown (s.multiplexer.heap addr))))

-- A step shows on an endpoint what the specification says.
Step-view :
    {name : String} {addr : ℕ} {s u : System} {event : Event}
    → Step s event u
    → IsFollowed name addr s
    → IsOther event
    → view u name addr ≡ told addr event (view s name addr)
unfolding told latest after_take after_send after_sub after_unsub
Step-view {name} {addr} {s} (fetch other a answer known syncing room) f ok =
    fetch-told name other addr s a answer f known
Step-view {name} {addr} {s} (take cs rest idle head) f ok =
    ap (show_all name (shown (s.multiplexer.heap addr))) (take-in_flight s cs rest idle head f.once)
Step-view {name} {addr} {s} (pass ch cs rest next room) f ok =
    ap (show_all name (shown (s.multiplexer.heap addr))) (pass-in_flight s ch cs rest next)
Step-view {name} {addr} {s} (subscribe ch visit idle) f ok =
    ap (show_all name (shown (s.multiplexer.heap addr)))
      (sub-in_flight s ch (visit s.hub.snapshots) idle ok)
Step-view (unsubscribe ch idle) f ok = refl
Step-view {name} {addr} {s} (apply cs rest r r' m go go' head result) f ok =
    update-view name addr s cs rest r r' m go go' f.inv f.known head result

pub Step-names :
    {s u : System} {event : Event}
    → Step s event u
    → u.multiplexer.name_index ≡ s.multiplexer.name_index
unfolding after_fetch after_take after_send after_sub after_unsub after_update
Step-names (fetch name addr answer known syncing room) = refl
Step-names (take cs rest idle head) = refl
Step-names (pass ch cs rest next room) = refl
Step-names (subscribe ch visit idle) = refl
Step-names (unsubscribe ch idle) = refl
Step-names {s} (apply cs rest r r' m go go' head result) =
    update_status-names r r' s.multiplexer m cs result

pub Step-once :
    {s u : System} {event : Event}
    → Step s event u
    → IsOther event
    → count upd u.hub.subs ≡ count upd s.hub.subs
unfolding after_fetch after_take after_send after_sub after_unsub after_update
Step-once (fetch name addr answer known syncing room) ok = refl
Step-once (take cs rest idle head) ok = refl
Step-once (pass ch cs rest next room) ok = refl
Step-once {s} (subscribe ch visit idle) ok =
    count-append upd s.hub.subs (ch ∷ []) ∙ unfold count in ground (arith, ok)
Step-once {s} (unsubscribe ch idle) ok =
    count-remove_sub upd ch s.hub.subs
    ∙ if_neg (ℕ_discrete ch upd) ok (count upd s.hub.subs - 1) (count upd s.hub.subs)
Step-once (apply cs rest r r' m go go' head result) ok = refl

-- The block that the loop compares with next is what its answer told.
got-IsAhead :
    (ep : Endpoint) (last_block : Option Block) (sh : Shown) (answer : Answer)
    → IsAhead (answered sh answer) (get_blockhead ep last_block answer).last_block
unfolding answered get_blockhead
got-IsAhead ep last_block sh failed = tt
got-IsAhead ep last_block sh (got none) = tt
got-IsAhead ep last_block sh (got (some block)) = refl

Step-IsAhead :
    {name : String} {addr : ℕ} {s u : System} {event : Event}
    → Step s event u
    → IsFollowed name addr s
    → IsAhead (told addr event (view s name addr)) (u.last_blocks addr)
unfolding told latest after_fetch fetched_by after_take after_send after_sub after_unsub
    after_update
Step-IsAhead {name} {addr} {s} (fetch other a answer known syncing room) f =
    elim (ℕ_discrete a addr) [
      | yes p ↦
          let sh = view s name addr in
          let now = if_pos (ℕ_discrete a addr) p (answered sh answer) sh in
          let f' = fetched_by s a answer in
          let last = if_pos (ℕ_discrete addr a) (sym p) f'.last_block (s.last_blocks addr) in
          subst₂ IsAhead (sym now) (sym last)
            (got-IsAhead (s.multiplexer.heap a) (s.last_blocks a) sh answer)
      | no p ↦
          let sh = view s name addr in
          let now = if_neg (ℕ_discrete a addr) p (answered sh answer) sh in
          let f' = fetched_by s a answer in
          let last =
            if_neg (ℕ_discrete addr a) (λ q. p (sym q)) f'.last_block (s.last_blocks addr) in
          subst₂ IsAhead (sym now) (sym last) f.ahead
    ]
Step-IsAhead (take cs rest idle head) f = f.ahead
Step-IsAhead (pass ch cs rest next room) f = f.ahead
Step-IsAhead (subscribe ch visit idle) f = f.ahead
Step-IsAhead (unsubscribe ch idle) f = f.ahead
Step-IsAhead (apply cs rest r r' m go go' head result) f = f.ahead

told-latest :
    (addr : ℕ) (event : Event) (sh : Shown) (before : List Event)
    → latest addr sh (event ∷ before) ≡ told addr event (latest addr sh before)
unfolding told latest
told-latest addr (fetched a answer) sh before = refl
told-latest addr taken sh before = refl
told-latest addr sent sh before = refl
told-latest addr updated sh before = refl
told-latest addr (joined ch) sh before = refl
told-latest addr (left ch) sh before = refl

Step-IsFollowed :
    {name : String} {addr : ℕ} {s u : System} {event : Event}
    → Step s event u
    → IsFollowed name addr s
    → IsOther event
    → IsFollowed name addr u
Step-IsFollowed {name} {addr} {s} {u} {event} step f ok = record {
  inv = Step-Inv step f.inv;
  known = ap (lookup String_discrete name) (Step-names step) ∙ f.known;
  once = Step-once step ok ∙ f.once;
  ahead =
      subst (λ x. IsAhead x (u.last_blocks addr)) (sym (Step-view step f ok)) (Step-IsAhead step f);
}

-- Over any run in which the updater stays subscribed, whatever the order of the steps, an endpoint that is
-- followed will show what its answers told, the latest last, once everything in flight has arrived. To
-- be followed, the block that its loop compares with must be the head that it will show.
pub Reach-view :
    {name : String} {addr : ℕ} {s t : System} {events : List Event}
    → Reach s events t
    → IsFollowed name addr s
    → All IsOther events
    → IsFollowed name addr t × (view t name addr ≡ latest addr (view s name addr) events)
unfolding latest
Reach-view start f ok = (f, refl)
Reach-view {name} {addr} {s} (later {events} {event} before step) f ok =
    let (g, same) = Reach-view before f ok.1 in
    (
      Step-IsFollowed step g ok.0,
      Step-view step g ok.0
          ∙ ap (told addr event) same
          ∙ sym (told-latest addr event (view s name addr) events),
    )
