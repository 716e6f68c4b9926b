-- ===== src/System/Begun.antt =====
-- Runs of `StartSync` in which the hub takes the updater's subscription before any status. `StartSync` does
-- not wait for it: the loops of the endpoints may publish before.
use nodemux.Common.{
  ℕ, String, List, [], some, String_discrete, lookup, All, ◌≡◌, refl, ap, ◌∙◌, ℕ_discrete,
}
use nodemux.Multiplexer.{Multiplexer, Runtime, IsGo}
use nodemux.Multiplexer.Invariant.{Inv}
use nodemux.Hub.Memory.{new_memory_chainhub}
use nodemux.Hub.Delivery.{count}
use nodemux.System.{System, Event, Reach, started, after_sub, upd}
use nodemux.System.Start.{started-Inv}
use nodemux.System.View.{shown, in_flight, view, show_all, for_channel}
use nodemux.System.Refinement.{IsFollowed, IsOther, latest, Reach-view}
use nodemux.System.Drain.{IsRunning, IsLone, Quiet, Reach-settles}

-- The sync of `m` is started, and the hub has taken the updater's subscription.
abbrev pub subscribed : Multiplexer → System
subscribed m = after_sub (started m) upd []

subscribed-IsFollowed :
    (m : Multiplexer) (name : String) (addr : ℕ)
    → Inv m
    → lookup String_discrete name m.name_index ≡ some addr
    → IsFollowed name addr (subscribed m)
unfolding after_sub started new_memory_chainhub count ℕ_discrete
subscribed-IsFollowed m name addr v known = record {
  inv = started-Inv m v;
  known = known;
  once = refl;
  ahead = tt;
}

subscribed-IsLone : (m : Multiplexer) → IsLone (subscribed m)
unfolding after_sub started new_memory_chainhub
subscribed-IsLone m = record { only = refl; toward = tt }

subscribed-view :
    (m : Multiplexer) (name : String) (addr : ℕ)
    → view (subscribed m) name addr ≡ shown (m.heap addr)
unfolding after_sub started new_memory_chainhub show_all for_channel
subscribed-view m name addr = refl

module _ (m : Multiplexer) (name : String) (addr : ℕ) (v : Inv m)
    (known : lookup String_discrete name m.name_index ≡ some addr) where
  -- Of a multiplexer that is in order, once the sync is started and the hub has taken the updater's
  -- subscription before any status: over any run in which the updater stays subscribed once, whatever
  -- the order of the steps, a listed endpoint will show what its answers told since, the latest last,
  -- once everything in flight has arrived; and what it showed before if there was none.
  pub subscribed_run-view :
      {t : System} {events : List Event}
      → Reach (subscribed m) events t
      → All IsOther events
      → view t name addr ≡ latest addr (shown (m.heap addr)) events
  subscribed_run-view {t} {events} run ok =
      (Reach-view run (subscribed-IsFollowed m name addr v known) ok).1
      ∙ ap (λ sh. latest addr sh events) (subscribed-view m name addr)

  -- Of a multiplexer that is in order, once the sync is started and the hub has taken the updater's
  -- subscription before any status: after any run in which the updater stays the only subscriber, the
  -- hub and the updater alone can reach a point where nothing is in flight, and there a listed endpoint
  -- shows what its answers told since, the latest last.
  pub subscribed_run-settles :
      (r : Runtime) {t : System} {events : List Event}
      → IsGo r
      → Reach (subscribed m) events t
      → All IsRunning events
      → (u : System) × Quiet t u
        × (in_flight u ≡ [])
        × (shown (u.multiplexer.heap addr) ≡ latest addr (shown (m.heap addr)) events)
  subscribed_run-settles r {t} {events} go run ok =
      let (u, q, home, same) =
        Reach-settles r name addr go run ok (subscribed-IsFollowed m name addr v known)
          (subscribed-IsLone m) in
      (u, q, home, same ∙ ap (λ sh. latest addr sh events) (subscribed-view m name addr))
