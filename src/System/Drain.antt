-- ===== src/System/Drain.antt =====
-- The statuses in flight arrive: no step waits for ever on a full channel.
use nodemux.Common.{
  ℕ, ◌<◌, String, List, [], ◌∷◌, ◌++◌, map, length, if_pos, ℕ_discrete, All, All-append, All-imp,
  ◌≡◌, refl, sym, ap, ◌∙◌, arith,
}
use nodemux.Multiplexer.{Runtime, IsGo}
use nodemux.Multiplexer.Invariant.{Inv}
use nodemux.Sync.{ChainStatus}
use nodemux.Sync.Status.{update_status-Inv}
use nodemux.System.{
  System, Step, fetch, take, pass, subscribe, unsubscribe, apply, Event, fetched, taken, sent,
  updated, joined, left, Reach, start, later, after_fetch, after_take, after_send, after_update,
  upd,
}
use nodemux.System.Order.{Step-Inv, Reach-Inv}
use nodemux.System.View.{Shown, shown, for_channel, in_flight, view, show_all}
use nodemux.System.Refinement.{IsFollowed, IsOther, latest, Reach-view}

-- The event is one of the hub's or the updater's, not of a loop.
abbrev pub IsSilent : Event → Type 0
IsSilent (fetched addr answer) = ⊥
IsSilent taken = Unit {0}
IsSilent sent = Unit {0}
IsSilent updated = Unit {0}
IsSilent (joined ch) = ⊥
IsSilent (left ch) = ⊥

-- The event is no subscription, nor the end of one.
abbrev pub IsRunning : Event → Type 0
IsRunning (fetched addr answer) = Unit {0}
IsRunning taken = Unit {0}
IsRunning sent = Unit {0}
IsRunning updated = Unit {0}
IsRunning (joined ch) = ⊥
IsRunning (left ch) = ⊥

-- The updater is the only subscriber.
pub record IsLone (s : System) : Type 0 where
  pub only : s.hub.subs ≡ upd ∷ []
  pub toward : All (λ e. e.0 ≡ upd) s.sending

-- A run of the hub and the updater alone.
pub record Quiet (s t : System) : Type 0 where
  pub events : List Event
  pub silent : All IsSilent events
  pub reach : Reach s events t

Reach-append :
    {s t u : System} {before after : List Event}
    → Reach s before t
    → Reach t after u
    → Reach s (after ++ before) u
Reach-append first start = first
Reach-append first (later more step) = later (Reach-append first more) step

Quiet-trans : {s t u : System} → Quiet s t → Quiet t u → Quiet s u
Quiet-trans q p = record {
  events = p.events ++ q.events;
  silent = All-append IsSilent p.events q.events p.silent q.silent;
  reach = Reach-append q.reach p.reach;
}

Quiet-step : {s t : System} {event : Event} → IsSilent event → Step s event t → Quiet s t
Quiet-step {s} {t} {event} ok step = record {
  events = event ∷ [];
  silent = (ok, tt);
  reach = later start step;
}

Quiet-refl : (s : System) → Quiet s s
Quiet-refl s = record { events = []; silent = tt; reach = start }

Step-IsLone :
    {s u : System} {event : Event} → Step s event u → IsRunning event → IsLone s → IsLone u
unfolding after_fetch after_take after_send after_update
Step-IsLone (fetch name addr answer known syncing room) ok l = record {
  only = l.only;
  toward = l.toward;
}
Step-IsLone {s} (take cs rest idle head) ok l = record {
  only = l.only;
  toward = rw l.only (refl, tt);
}
Step-IsLone {s} (pass ch cs rest next room) ok l = record {
  only = l.only;
  toward = (rw next at l.toward).1;
}
Step-IsLone (apply cs rest r r' m go go' head result) ok l = record {
  only = l.only;
  toward = l.toward;
}
Step-IsLone (subscribe ch visit idle) ok l = absurd ok
Step-IsLone (unsubscribe ch idle) ok l = absurd ok

Reach-IsLone :
    {s t : System} {events : List Event}
    → Reach s events t
    → All IsRunning events
    → IsLone s
    → IsLone t
Reach-IsLone start ok l = l
Reach-IsLone (later before step) ok l = Step-IsLone step ok.0 (Reach-IsLone before ok.1 l)

-- What a part of the hub's and the updater's work leaves: an empty channel of the updater.
record Emptied (s t : System) (sending : List (ℕ × ChainStatus)) : Type 0 where
  quiet : Quiet s t
  empty : t.hub.sent upd ≡ []
  rest : t.sending ≡ sending
  same_pub : t.pub_channel ≡ s.pub_channel
  same_subs : t.hub.subs ≡ s.hub.subs

module _ (r : Runtime) (go : IsGo r) where
  empty_channel :
      (xs : List ChainStatus) (s : System)
      → s.hub.sent upd ≡ xs
      → Inv s.multiplexer
      → (t : System) × Emptied s t s.sending
  unfolding after_update
  empty_channel [] s e v = (
    s,
    record { quiet = Quiet-refl s; empty = e; rest = refl; same_pub = refl; same_subs = refl },
  )
  empty_channel (cs ∷ xs) s e v =
      let (m, result, v') = update_status-Inv r r s.multiplexer cs go go v in
      let s' = after_update s xs m in
      let left_over : s'.hub.sent upd ≡ xs = if_pos (ℕ_discrete upd upd) refl xs (s.hub.sent upd) in
      let (t, d) = empty_channel xs s' left_over v' in
      (
        t,
        record {
          quiet = Quiet-trans (Quiet-step tt (apply cs xs r r m go go e result)) d.quiet;
          empty = d.empty;
          rest = d.rest;
          same_pub = d.same_pub;
          same_subs = d.same_subs;
        },
      )

  empty_sending :
      (xs : List (ℕ × ChainStatus)) (s : System)
      → s.sending ≡ xs
      → s.hub.sent upd ≡ []
      → All (λ e. e.0 ≡ upd) xs
      → Inv s.multiplexer
      → (t : System) × Emptied s t []
  unfolding after_send
  empty_sending [] s e free toward v = (
    s,
    record { quiet = Quiet-refl s; empty = free; rest = e; same_pub = refl; same_subs = refl },
  )
  empty_sending ((ch, cs) ∷ xs) s e free toward v =
      let room : length (s.hub.sent ch) < 1000 =
        omega (arith, ap (λ c. length (s.hub.sent c)) toward.0, ap length free) in
      let step = pass ch cs xs e room in
      let s' = after_send s ch cs xs in
      let (t, d) = empty_channel (s'.hub.sent upd) s' refl (Step-Inv step v) in
      let (u, d') =
        empty_sending xs t d.rest d.empty toward.1 (Reach-Inv d.quiet.reach (Step-Inv step v)) in
      (
        u,
        record {
          quiet = Quiet-trans (Quiet-step tt step) (Quiet-trans d.quiet d'.quiet);
          empty = d'.empty;
          rest = d'.rest;
          same_pub = d'.same_pub ∙ d.same_pub;
          same_subs = d'.same_subs ∙ d.same_subs;
        },
      )

  empty_pub :
      (xs : List ChainStatus) (s : System)
      → s.pub_channel ≡ xs
      → s.sending ≡ []
      → s.hub.sent upd ≡ []
      → s.hub.subs ≡ upd ∷ []
      → Inv s.multiplexer
      → (t : System) × Quiet s t × (in_flight t ≡ [])
  unfolding after_take for_channel
  empty_pub [] s e idle free only v = (s, Quiet-refl s, rw (e, idle, free) refl)
  empty_pub (cs ∷ xs) s e idle free only v =
      let step = take cs xs idle e in
      let s' = after_take s cs xs in
      let next : s'.sending ≡ (upd, cs) ∷ [] = ap (map (λ ch. (ch, cs))) only in
      let (t, d) = empty_sending ((upd, cs) ∷ []) s' next free (refl, tt) v in
      let (u, q, none_left) =
        empty_pub xs t d.same_pub d.rest d.empty (d.same_subs ∙ only) (Reach-Inv d.quiet.reach v) in
      (u, Quiet-trans (Quiet-step tt step) (Quiet-trans d.quiet q), none_left)

  -- With the updater as the only subscriber the hub and the updater alone can bring everything in
  -- flight home, from any point of a run.
  pub settles :
      (s : System) → Inv s.multiplexer → IsLone s → (t : System) × Quiet s t × (in_flight t ≡ [])
  settles s v l =
      let (t, d) = empty_channel (s.hub.sent upd) s refl v in
      let v' = Reach-Inv d.quiet.reach v in
      let (u, d') = empty_sending s.sending t d.rest d.empty l.toward v' in
      let (w, q, none_left) =
        empty_pub u.pub_channel u refl d'.rest d'.empty (d'.same_subs ∙ d.same_subs ∙ l.only)
          (Reach-Inv d'.quiet.reach v') in
      (w, Quiet-trans d.quiet (Quiet-trans d'.quiet q), none_left)

IsRunning-IsOther : (event : Event) → IsRunning event → IsOther event
IsRunning-IsOther (fetched addr answer) ok = tt
IsRunning-IsOther taken ok = tt
IsRunning-IsOther sent ok = tt
IsRunning-IsOther updated ok = tt
IsRunning-IsOther (joined ch) ok = absurd ok
IsRunning-IsOther (left ch) ok = absurd ok

IsSilent-IsOther : (event : Event) → IsSilent event → IsOther event
IsSilent-IsOther (fetched addr answer) ok = absurd ok
IsSilent-IsOther taken ok = tt
IsSilent-IsOther sent ok = tt
IsSilent-IsOther updated ok = tt
IsSilent-IsOther (joined ch) ok = absurd ok
IsSilent-IsOther (left ch) ok = absurd ok

latest_silent :
    (addr : ℕ) (sh : Shown) (events : List Event) → All IsSilent events → latest addr sh events ≡ sh
unfolding latest
latest_silent addr sh [] ok = refl
latest_silent addr sh (fetched a answer ∷ events) ok = absurd ok.0
latest_silent addr sh (taken ∷ events) ok = latest_silent addr sh events ok.1
latest_silent addr sh (sent ∷ events) ok = latest_silent addr sh events ok.1
latest_silent addr sh (updated ∷ events) ok = latest_silent addr sh events ok.1
latest_silent addr sh (joined ch ∷ events) ok = absurd ok.0
latest_silent addr sh (left ch ∷ events) ok = absurd ok.0

-- After any run in which the updater stays the only subscriber, the hub and the updater alone can reach
-- a point where nothing is in flight, and there an endpoint that was followed at the start shows what its
-- answers told.
pub Reach-settles :
    (r : Runtime) (name : String) (addr : ℕ) {s t : System} {events : List Event}
    → IsGo r
    → Reach s events t
    → All IsRunning events
    → IsFollowed name addr s
    → IsLone s
    → (u : System) × Quiet t u
      × (in_flight u ≡ [])
      × (shown (u.multiplexer.heap addr) ≡ latest addr (view s name addr) events)
Reach-settles r name addr {s} {t} {events} go before ok f l =
    let (g, so_far) = Reach-view before f (All-imp _ _ events IsRunning-IsOther ok) in
    let (u, q, home) = settles r go t g.inv (Reach-IsLone before ok l) in
    let (h, same) = Reach-view q.reach g (All-imp _ _ q.events IsSilent-IsOther q.silent) in
    let arrived : view u name addr ≡ shown (u.multiplexer.heap addr) =
      ap (show_all name (shown (u.multiplexer.heap addr))) home ∙ unfold show_all in refl in
    (
      u,
      q,
      home,
      sym arrived ∙ same ∙ latest_silent addr (view t name addr) q.events q.silent ∙ so_far,
    )
