-- ===== src/Hub/Delivery.antt =====
-- What a subscriber of the memory hub receives.
use nodemux.Common.{
  ℕ, suc, ◌+◌, ◌-◌, Option, some, List, [], ◌∷◌, ◌++◌, append_assoc, append-nil, replicate, map,
  ite, ℕ_discrete, ◌≡◌, ◌≢◌, refl, sym, ap, ◌∙◌, inl, inr, Option-cases, arith, All, lookup,
  lookup-insert_self, lookup-insert_ne,
}
use nodemux.Chain.{ChainRef, ChainRef_discrete}
use nodemux.Sync.{ChainStatus}
use nodemux.Hub.Channels.{Channels, send, send_all, broadcast, position, remove_sub}
use nodemux.Hub.Memory.{
  MemoryChainhub, subscribe, unsubscribe, publish, HubEvent, sub, unsub, pub_status, handle, run,
}

-- How often a channel is subscribed.
unfoldable pub count : ℕ → List ℕ → ℕ
count ch [] = 0
count ch (s ∷ subs) = let rest = count ch subs in ite (ℕ_discrete s ch) (suc rest) rest

pub count-append : (ch : ℕ) (xs ys : List ℕ) → count ch (xs ++ ys) ≡ count ch xs + count ch ys
unfolding count
count-append ch [] ys = omega arith
count-append ch (x ∷ xs) ys = ground (arith, count-append ch xs ys)

pub send_self :
    (sent : Channels) (ch : ℕ) (status : ChainStatus)
    → send sent ch status ch ≡ sent ch ++ status ∷ []
unfolding send
send_self sent ch status = ground arith

pub send_other :
    (sent : Channels) (s ch : ℕ) (status : ChainStatus) → s ≢ ch → send sent s status ch ≡ sent ch
unfolding send
send_other sent s ch status other = ground arith

-- A broadcast reaches a channel once for each of its subscriptions.
broadcast-count :
    (ch : ℕ) (subs : List ℕ) (status : ChainStatus) (sent : Channels)
    → broadcast sent subs status ch ≡ sent ch ++ replicate (count ch subs) status
unfolding broadcast count
broadcast-count ch [] status sent = sym (append-nil (sent ch))
broadcast-count ch (s ∷ subs) status sent =
    let later = broadcast-count ch subs status (send sent s status) in
    elim (ℕ_discrete s ch) [
      | yes p ↦
          let here : send sent s status ch ≡ sent ch ++ status ∷ [] =
            rw p (send_self sent ch status) in
          later ∙ rw (here, append_assoc) (ground arith)
      | no p ↦ later ∙ rw (send_other sent s ch status p) (ground arith)
    ]

remove_sub-cons :
    (ch s : ℕ) (subs : List ℕ)
    → remove_sub ch (s ∷ subs) ≡ ite (ℕ_discrete s ch) subs (s ∷ remove_sub ch subs)
unfolding remove_sub position
remove_sub-cons ch s subs = elim (Option-cases (position ch subs)) [
  | inl e ↦ ground arith
  | inr (i, e) ↦ ground arith
]

-- Unsubscribing takes away one subscription of the channel, if there is one, and none of another.
pub count-remove_sub :
    (ch c : ℕ) (subs : List ℕ)
    → count ch (remove_sub c subs) ≡ ite (ℕ_discrete c ch) (count ch subs - 1) (count ch subs)
unfolding count
count-remove_sub ch c [] = unfold remove_sub position in ground arith
count-remove_sub ch c (s ∷ subs) =
    rw (remove_sub-cons c s subs) (ground (arith, count-remove_sub ch c subs))

-- The event is no command of the channel's.
abbrev pub IsOther : ℕ → HubEvent → Type 0
IsOther ch (sub c) = c ≢ ch
IsOther ch (unsub c) = c ≢ ch
IsOther ch (pub_status status) = Unit {0}

-- The statuses published, each `n` times.
unfoldable pub published : ℕ → List HubEvent → List ChainStatus
published n [] = []
published n (sub c ∷ rest) = published n rest
published n (unsub c ∷ rest) = published n rest
published n (pub_status status ∷ rest) = replicate n status ++ published n rest

send_all_other :
    (ch c : ℕ) (statuses : List ChainStatus) (sent : Channels)
    → c ≢ ch
    → send_all sent c statuses ch ≡ sent ch
unfolding send_all
send_all_other ch c [] sent other = refl
send_all_other ch c (status ∷ rest) sent other =
    send_all_other ch c rest (send sent c status) other ∙ send_other sent c ch status other

handle-count :
    (visit : List (ChainRef × ChainStatus) → List (ChainRef × ChainStatus)) (ch : ℕ)
    (event : HubEvent) (h : MemoryChainhub)
    → IsOther ch event
    → count ch (handle visit event h).subs ≡ count ch h.subs
unfolding handle subscribe unsubscribe publish count
handle-count visit ch (sub c) h other = count-append ch h.subs (c ∷ []) ∙ ground arith
handle-count visit ch (unsub c) h other = count-remove_sub ch c h.subs ∙ ground arith
handle-count visit ch (pub_status status) h other = refl

handle-sent :
    (visit : List (ChainRef × ChainStatus) → List (ChainRef × ChainStatus)) (ch : ℕ)
    (event : HubEvent) (h : MemoryChainhub)
    → IsOther ch event
    → (handle visit event h).sent ch ≡ h.sent ch ++ published (count ch h.subs) (event ∷ [])
unfolding handle subscribe unsubscribe publish published
handle-sent visit ch (sub c) h other =
    send_all_other ch c (map (λ e. e.1) (visit h.snapshots)) h.sent other
    ∙ sym (append-nil (h.sent ch))
handle-sent visit ch (unsub c) h other = sym (append-nil (h.sent ch))
handle-sent visit ch (pub_status status) h other =
    broadcast-count ch h.subs status h.sent ∙ ap (λ x. h.sent ch ++ x) (sym (append-nil _))

published-cons :
    (n : ℕ) (event : HubEvent) (rest : List HubEvent)
    → published n (event ∷ rest) ≡ published n (event ∷ []) ++ published n rest
unfolding published
published-cons n (sub c) rest = refl
published-cons n (unsub c) rest = refl
published-cons n (pub_status status) rest = rw (append-nil (replicate n status)) refl

-- Between its own commands a channel receives every status that is published, in order, as often as
-- it is subscribed, whatever the other subscribers do; so one that is not subscribed receives nothing.
pub run-delivers :
    (visit : List (ChainRef × ChainStatus) → List (ChainRef × ChainStatus)) (ch : ℕ)
    (events : List HubEvent) (h : MemoryChainhub)
    → All (IsOther ch) events
    → (run visit events h).sent ch ≡ h.sent ch ++ published (count ch h.subs) events
unfolding run
run-delivers visit ch [] h others = unfold published in sym (append-nil (h.sent ch))
run-delivers visit ch (event ∷ rest) h others =
    run-delivers visit ch rest (handle visit event h) others.1
    ∙ rw
        (
          handle-count visit ch event h others.0,
          handle-sent visit ch event h others.0,
          append_assoc,
        )
        (ap (λ x. h.sent ch ++ x) (sym (published-cons (count ch h.subs) event rest)))

-- The last status published for a chain, whichever endpoint it is of, and else the one before.
unfoldable pub last_of : ChainRef → List HubEvent → Option ChainStatus → Option ChainStatus
last_of chain [] before = before
last_of chain (sub c ∷ rest) before = last_of chain rest before
last_of chain (unsub c ∷ rest) before = last_of chain rest before
last_of chain (pub_status status ∷ rest) before =
    last_of chain rest (ite (ChainRef_discrete status.chain chain) (some status) before)

-- What the hub holds ready for a later subscriber is one status for each chain, the last published.
pub run-snapshots :
    (visit : List (ChainRef × ChainStatus) → List (ChainRef × ChainStatus)) (chain : ChainRef)
    (events : List HubEvent) (h : MemoryChainhub)
    → lookup ChainRef_discrete chain (run visit events h).snapshots
      ≡ last_of chain events (lookup ChainRef_discrete chain h.snapshots)
unfolding run handle last_of subscribe unsubscribe publish
run-snapshots visit chain [] h = refl
run-snapshots visit chain (sub c ∷ rest) h = run-snapshots visit chain rest (subscribe visit c h)
run-snapshots visit chain (unsub c ∷ rest) h = run-snapshots visit chain rest (unsubscribe c h)
run-snapshots visit chain (pub_status status ∷ rest) h =
    run-snapshots visit chain rest (publish status h)
    ∙ ap (last_of chain rest) (elim (ChainRef_discrete status.chain chain) [
      | yes p ↦
          let stored = lookup-insert_self ChainRef_discrete status.chain status h.snapshots in
          ground (arith, stored)
      | no p ↦
          let kept =
            lookup-insert_ne ChainRef_discrete status.chain chain status h.snapshots
              (λ e. p (sym e)) in
          ground (arith, kept)
    ])
