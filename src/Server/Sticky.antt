-- ===== src/Server/Sticky.antt =====
-- A session stays with the endpoint that it was paired with.
use nodemux.Common.{
  ℕ, String, Bool, Option, none, some, List, [], ◌∷◌, All, String_discrete, lookup,
  lookup-insert_ne, lookup-remove_ne, negsuc, Outcome, done, ◌>>=◌, done-inj, bind-done, ◌≡◌, ◌≢◌,
  refl, sym, ap, ◌∙◌, subst, inl, inr, Option-cases, Bool-cases,
}
use nodemux.Chain.{ChainRef}
use nodemux.Multiplexer.{Multiplexer, Runtime, select_websocket_endpoint}
use nodemux.Factory.{DelegatorFactory}
use nodemux.Server.{Acc}
use nodemux.Server.Pairs.{
  WsPairs, on_close, Passed, sent_to, make_pair, delegate_unpaired, pair_or, delegate_rpc, WsEvent,
  message, closed, run,
}

-- The event does not end the session.
abbrev pub IsOpen : String → WsEvent → Type 0
IsOpen session (message r m acc s is_request) = Unit {0}
IsOpen session (closed s) = s ≢ session

-- A message of the session went to the endpoint.
abbrev pub IsWith : {A : Type 0} → String → ℕ → String × Passed A → Type 0
IsWith session addr e = e.0 ≡ session → e.1 ≡ sent_to addr

module _ {D A : Type 0} (f : DelegatorFactory D) (url_fails : String → Bool)
    (delegate : D → ChainRef → Outcome A) (session : String) where
  paired :
      (r : Runtime) (m : Multiplexer) (acc : Acc) (is_request : Bool) (pairs : WsPairs) (addr : ℕ)
      → lookup String_discrete session pairs ≡ some addr
      → delegate_rpc f url_fails delegate r m acc session is_request pairs
        ≡ done (pairs, sent_to addr)
  unfolding delegate_rpc
  paired r m acc is_request pairs addr e = rw (e, delegate_rpc) refl

  made_other :
      (m : Multiplexer) (other : String) (pairs : WsPairs) (ep : ℕ)
      → session ≢ other
      → lookup String_discrete session (make_pair f url_fails delegate m other pairs ep).0
        ≡ lookup String_discrete session pairs
  unfolding make_pair
  made_other m other pairs ep apart =
      elim (Bool-cases (url_fails (m.heap ep).config.streaming_url)) [
        | inl bad ↦ rw bad refl
        | inr good ↦ rw good (lookup-insert_ne String_discrete other session ep pairs apart)
      ]

  chosen :
      (m : Multiplexer) (acc : Acc) (other : String) (is_request : Bool) (pairs pairs' : WsPairs)
      (passed : Passed A) (found : Option ℕ)
      → session ≢ other
      → pair_or f url_fails delegate m acc other is_request pairs found ≡ done (pairs', passed)
      → lookup String_discrete session pairs' ≡ lookup String_discrete session pairs
  unfolding pair_or
  chosen m acc other is_request pairs pairs' passed none apart h =
      let (p, e, same) =
        bind-done (delegate_unpaired f url_fails delegate acc is_request) (λ p. done (pairs, p))
          (pairs', passed) h in
      ap (λ x. lookup String_discrete session x.0) (sym (done-inj same))
  chosen m acc other is_request pairs pairs' passed (some ep) apart h =
      ap (λ x. lookup String_discrete session x.0) (sym (done-inj h))
      ∙ made_other m other pairs ep apart

  -- A message of another session leaves the pair.
  kept_by_other :
      (r : Runtime) (m : Multiplexer) (acc : Acc) (other : String) (is_request : Bool)
      (pairs pairs' : WsPairs) (passed : Passed A)
      → session ≢ other
      → delegate_rpc f url_fails delegate r m acc other is_request pairs ≡ done (pairs', passed)
      → lookup String_discrete session pairs' ≡ lookup String_discrete session pairs
  unfolding delegate_rpc
  kept_by_other r m acc other is_request pairs pairs' passed apart h =
      elim (Option-cases (lookup String_discrete other pairs)) [
        | inr (a, e) ↦
            ap (λ x. lookup String_discrete session x.0)
              (sym (done-inj (rw (e, delegate_rpc) at h)))
        | inl e ↦
            let (found, e', h') =
              bind-done (select_websocket_endpoint r m acc.chain "" (negsuc 1))
                (pair_or f url_fails delegate m acc other is_request pairs) (pairs', passed)
                (rw (e, delegate_rpc) at h) in
            chosen m acc other is_request pairs pairs' passed found apart h'
      ]

  -- What one event leaves.
  step :
      (event : WsEvent) (rest : List WsEvent) (pairs pairs' : WsPairs)
      (passed : List (String × Passed A)) (addr : ℕ)
      → IsOpen session event
      → lookup String_discrete session pairs ≡ some addr
      → run f url_fails delegate (event ∷ rest) pairs ≡ done (pairs', passed)
      → (next : WsPairs) × (later : List (String × Passed A)) × (lookup String_discrete session next
          ≡ some addr)
        × (run f url_fails delegate rest next ≡ done (pairs', later))
        × (All (IsWith session addr) later → All (IsWith session addr) passed)
  unfolding run on_close
  step (closed s) rest pairs pairs' passed addr apart e h = (
    on_close s pairs,
    passed,
    lookup-remove_ne String_discrete s session pairs (λ q. apart (sym q)) ∙ e,
    h,
    λ all. all,
  )
  step (message r m acc s is_request) rest pairs pairs' passed addr ok e h =
      let ((next, answer), e', h') =
        bind-done (delegate_rpc f url_fails delegate r m acc s is_request pairs)
          (λ (n, a). run f url_fails delegate rest n >>= λ (k, l). done (k, (s, a) ∷ l))
          (pairs', passed) h in
      let ((last, later), e'', h'') =
        bind-done (run f url_fails delegate rest next) (λ (k, l). done (k, (s, answer) ∷ l))
          (pairs', passed) h' in
      let same = done-inj h'' in
      (
        next,
        later,
        elim (String_discrete session s) [
          | yes p ↦
              let stays = done-inj (
                sym (
                  subst
                    (λ x.
                      delegate_rpc f url_fails delegate r m acc x is_request pairs
                      ≡ done (pairs, sent_to addr))
                    p (paired r m acc is_request pairs addr e))
                ∙ e') in
              ap (λ x. lookup String_discrete session x.0) (sym stays) ∙ e
          | no p ↦ kept_by_other r m acc s is_request pairs next answer p e' ∙ e
        ],
        e'' ∙ ap (λ x. done (x.0, later)) same,
        λ all. subst (All (IsWith session addr)) (ap (λ x. x.1) same) (went s answer next e', all),
      )
    where
      went :
          (s : String) (answer : Passed A) (next : WsPairs)
          → delegate_rpc f url_fails delegate r m acc s is_request pairs ≡ done (next, answer)
          → s ≡ session
          → answer ≡ sent_to addr
      went s answer next e' q =
          ap (λ x. x.1)
            (done-inj (
              sym e'
              ∙ subst
                  (λ x.
                    delegate_rpc f url_fails delegate r m acc x is_request pairs
                    ≡ done (pairs, sent_to addr))
                  (sym q) (paired r m acc is_request pairs addr e)))

  -- While neither a session nor the websocket of its endpoint is closed, each message of the session
  -- goes to the endpoint that it is paired with, whatever other sessions do and however the heads and
  -- the health of the endpoints change.
  pub run-sticky :
      (events : List WsEvent) (pairs pairs' : WsPairs) (passed : List (String × Passed A))
      (addr : ℕ)
      → All (IsOpen session) events
      → lookup String_discrete session pairs ≡ some addr
      → run f url_fails delegate events pairs ≡ done (pairs', passed)
      → (lookup String_discrete session pairs' ≡ some addr) × All (IsWith session addr) passed
  unfolding run
  run-sticky [] pairs pairs' passed addr ok e h =
      let same = done-inj h in
      (
        ap (λ x. lookup String_discrete session x.0) (sym same) ∙ e,
        subst (All (IsWith session addr)) (ap (λ x. x.1) same) tt,
      )
  run-sticky (event ∷ rest) pairs pairs' passed addr ok e h =
      let (next, later, e', h', extend) = step event rest pairs pairs' passed addr ok.0 e h in
      let (kept, all) = run-sticky rest next pairs' later addr ok.1 e' h' in (kept, extend all)
