-- ===== src/Web3/Subscription.antt =====
-- chains/web3.go: the subscription of new heads by websocket, which takes the place of the loop of
-- `syncEndpoint` for an endpoint that streams.
use nodemux.Common.{
  ℕ, String, Bool, true, false, not, Option, none, some, List, [], ◌∷◌, ◌++◌, ite, if◌then◌else◌,
  String_discrete, Outcome, done, ◌>>=◌,
}
use nodemux.Endpoint.{Endpoint, has_websocket}
use nodemux.Sync.{ChainStatus, Answer, failed, got, update_block, unhealthy_status}
use nodemux.Delegate.Web3.{Web3Block, height}

-- The tokens of an endpoint that `subTokens` holds; the map's keys are pairs of a name and a token.
abbrev pub SubTokens : Type 0
SubTokens = List ((String × String) × Bool)

-- A notification: its method, and its first parameter, if it has one, with what it decodes to.
pub record Notify : Type 0 where
  pub method : String
  pub first : Option (Option (String × Web3Block))

-- `StartSync`: whether the loop of `syncEndpoint` is to run.
unfoldable pub start_sync : Endpoint → Bool
unfolding has_websocket
start_sync ep = not (has_websocket ep)

unfoldable pub has_token : String → String → SubTokens → Bool
has_token ep_name token [] = false
has_token ep_name token (((name, t), on) ∷ rest) =
    let later = has_token ep_name token rest in
    ite (String_discrete name ep_name) (ite (String_discrete t token) true later) later

unfoldable pub add_token : String → String → SubTokens → SubTokens
unfolding has_token
add_token ep_name token tokens =
    if has_token ep_name token tokens then tokens else ((ep_name, token), true) ∷ tokens

unfoldable pub delete_token : String → String → SubTokens → SubTokens
delete_token ep_name token [] = []
delete_token ep_name token (((name, t), on) ∷ rest) =
    let later = delete_token ep_name token rest in
    ite (String_discrete name ep_name)
      (ite (String_discrete t token) later (((name, t), on) ∷ later)) (((name, t), on) ∷ later)

-- What the handler of `OnMessage` publishes.
unfoldable pub on_notify :
    (String → Option ℕ) → Endpoint → SubTokens → Notify → Outcome (List ChainStatus)
unfolding has_token height update_block
on_notify decode ep tokens ntf =
    ite (String_discrete ntf.method "eth_subscription")
      (elim ntf.first [
        | none ↦ done []
        | some none ↦ done []
        | some (some (subscription, head)) ↦
            if has_token ep.name subscription tokens
            then (height decode head >>= λ h.
                done (update_block ep (record { height = h; hash = head.hash }) ∷ []))
            else done []
      ])
      (done [])

-- One round of the loop of `subscribeBlockhead`, by how far `connectAndSub` got: connecting failed; the
-- head, or asking for it failed; and then subscribing failed, or gave a token, under which the
-- notifications came until the connection ended, with or without an error.
pub data Round : Type 0 where
  no_connection : Round
  no_subscription : Answer → Round
  subscribed : Answer → String → List Notify → Bool → Round

unfoldable pub on_notifies :
    (String → Option ℕ) → Endpoint → SubTokens → List Notify → Outcome (List ChainStatus)
unfolding on_notify
on_notifies decode ep tokens [] = done []
on_notifies decode ep tokens (ntf ∷ rest) = on_notify decode ep tokens ntf >>= λ published.
    on_notifies decode ep tokens rest >>= λ later. done (published ++ later)

-- The head that `connectAndSub` publishes; with an error of `GetBlockhead` the round ends in an error.
unfoldable pub head_status : Endpoint → Answer → List ChainStatus
unfolding update_block unhealthy_status
head_status ep failed = unhealthy_status ep ∷ []
head_status ep (got none) = []
head_status ep (got (some block)) = update_block ep block ∷ []

unfoldable pub is_failed : Answer → Bool
is_failed failed = true
is_failed (got block) = false

-- The tokens after the round, and what it published.
unfoldable pub subscribe_round :
    (String → Option ℕ) → Endpoint → SubTokens → Round → Outcome (SubTokens × List ChainStatus)
unfolding on_notifies head_status is_failed add_token delete_token unhealthy_status
subscribe_round decode ep tokens no_connection = done (tokens, unhealthy_status ep ∷ [])
subscribe_round decode ep tokens (no_subscription head) =
    if is_failed head
    then done (tokens, head_status ep head)
    else done (tokens, head_status ep head ++ unhealthy_status ep ∷ [])
subscribe_round decode ep tokens (subscribed head token ntfs ended_well) =
    if is_failed head
    then done (tokens, head_status ep head)
    else (on_notifies decode ep (add_token ep.name token tokens) ntfs >>= λ published. done (
      delete_token ep.name token (add_token ep.name token tokens),
      head_status ep head ++ published ++ (if ended_well then [] else unhealthy_status ep ∷ []),
    ))
