-- ===== src/Hub/Channels.antt =====
-- Channels, as the statuses sent into each so far, and the list of the subscribed ones. A send into a
-- full channel blocks until the reader takes a status; it is the order of the sends that is kept here.
use nodemux.Common.{ℕ, suc, Option, none, some, List, [], ◌∷◌, ◌++◌, ite, ℕ_discrete, take, drop}
use nodemux.Sync.{ChainStatus}

abbrev pub Channels : Type 0
Channels = ℕ → List ChainStatus

unfoldable pub send : Channels → ℕ → ChainStatus → Channels
send sent ch status c = ite (ℕ_discrete c ch) (sent c ++ status ∷ []) (sent c)

-- `for _, sub := range h.subs { sub <- chainSt }`
unfoldable pub broadcast : Channels → List ℕ → ChainStatus → Channels
unfolding send
broadcast sent [] status = sent
broadcast sent (sub ∷ rest) status = broadcast (send sent sub status) rest status

unfoldable pub send_all : Channels → ℕ → List ChainStatus → Channels
unfolding send
send_all sent ch [] = sent
send_all sent ch (status ∷ rest) = send_all (send sent ch status) ch rest

-- The index of the first subscription of a channel.
unfoldable pub position : ℕ → List ℕ → Option ℕ
position ch [] = none
position ch (sub ∷ rest) =
    ite (ℕ_discrete sub ch) (some 0)
      (elim (position ch rest) [ none ↦ none | some i ↦ some (suc i) ])

-- `append(subs[:found], subs[found+1:]...)`, where there is one.
unfoldable pub remove_sub : ℕ → List ℕ → List ℕ
unfolding position
remove_sub ch subs = elim (position ch subs) [
  | none ↦ subs
  | some found ↦ take found subs ++ drop (suc found) subs
]
