-- ===== src/Config/Checks.antt =====
-- Which configurations pass.
use nodemux.Common.{
  String, Bool, true, false, not, ◌&&◌, Option, none, some, List, [], ◌∷◌, ℤ, pos, ◌≤ℤ◌, ltb_ℤ, All,
  is_empty, ◌≡◌, refl, ◌↔◌, arith,
}
use nodemux.Endpoint.{EndpointConfig}
use nodemux.Config.{
  ConfigError, and_then, fails, check_all, NodemuxConfig, check_skip_methods, check_endpoint,
  validate_values, AccountConfig, ServerConfig, MetricsConfig, EntrypointConfig, has_break,
  check_account, check_tls, check_auth, check_entrypoint, check_metrics, validate_server,
  set_metrics,
}

both_iff :
    {P Q : Type 0} (a b : Option ConfigError)
    → ((a ≡ none) ↔ P)
    → ((b ≡ none) ↔ Q)
    → (and_then a b ≡ none) ↔ (P × Q)
unfolding and_then
both_iff none b p q = (λ h. (p.0 refl, q.0 h), λ h. q.1 h.1)
both_iff (some err) b p q = (λ h. absurd (cc h), λ h. absurd (cc (p.1 h.0)))

fails_iff : (b : Bool) (err : ConfigError) → (fails b err ≡ none) ↔ (b ≡ false)
unfolding fails
fails_iff true err = (λ h. absurd (cc h), λ h. absurd (cc h))
fails_iff false err = (λ h. refl, λ h. refl)

check_all_iff :
    {A : Type 0} (check : A → Option ConfigError) (P : A → Type 0) (xs : List A)
    → ((x : A) → (check x ≡ none) ↔ P x)
    → (check_all check xs ≡ none) ↔ All P xs
unfolding check_all
check_all_iff check P [] step = (λ h. tt, λ h. refl)
check_all_iff check P (x ∷ xs) step =
    both_iff (check x) (check_all check xs) (step x) (check_all_iff check P xs step)

module _ (url_fails : String → Bool) where
  -- No skipped method is empty.
  abbrev pub IsNamed : Option (List String) → Type 0
  IsNamed none = Unit {0}
  IsNamed (some methods) = All (λ skipmtd. is_empty skipmtd ≡ false) methods

  check_skip_methods_iff :
      (methods : Option (List String))
      → (check_skip_methods url_fails methods ≡ none) ↔ IsNamed methods
  unfolding check_skip_methods
  check_skip_methods_iff none = (λ h. tt, λ h. refl)
  check_skip_methods_iff (some methods) =
      check_all_iff _ (λ skipmtd. is_empty skipmtd ≡ false) methods (λ skipmtd. fails_iff _ _)

  -- The entry of an endpoint is complete: its chain and URL are given, its URLs can be parsed, and it
  -- names every method that it skips.
  abbrev pub IsComplete : EndpointConfig → Type 0
  IsComplete epcfg =
      (is_empty epcfg.chain ≡ false)
      × ((is_empty epcfg.url ≡ false)
          × ((url_fails epcfg.url ≡ false)
              × (((not (is_empty epcfg.streaming_url) && url_fails epcfg.streaming_url) ≡ false)
                  × IsNamed epcfg.skip_methods)))

  check_endpoint_iff :
      (epcfg : EndpointConfig) → (check_endpoint url_fails epcfg ≡ none) ↔ IsComplete epcfg
  unfolding check_endpoint
  check_endpoint_iff epcfg = both_iff _ _ (fails_iff _ _) (
      both_iff _ _ (fails_iff _ _) (
        both_iff _ _ (fails_iff _ _)
          (both_iff _ _ (fails_iff _ _) (check_skip_methods_iff epcfg.skip_methods))))

  -- A configuration of the multiplexer passes exactly if the URLs of its stores can be parsed and the
  -- entries of its endpoints are complete.
  pub validate_values_iff :
      (cfg : NodemuxConfig)
      → ((validate_values url_fails cfg).1 ≡ none) ↔ (
          All (λ store. url_fails store.1 ≡ false) cfg.stores
          × All (λ entry. IsComplete entry.1) cfg.endpoints)
  unfolding validate_values
  validate_values_iff cfg =
      both_iff _ _
        (check_all_iff _ (λ store. url_fails store.1 ≡ false) cfg.stores (λ store. fails_iff _ _))
        (check_all_iff _ (λ entry. IsComplete entry.1) cfg.endpoints
          (λ entry. check_endpoint_iff entry.1))

-- The entry of an account: its name holds no "/" and no space, and its limits are not negative.
abbrev pub IsAccount : String × AccountConfig → Type 0
IsAccount entry =
    (has_break entry.0 ≡ false)
    × ((pos 0 ≤ℤ entry.1.ratelimit.ip) × (pos 0 ≤ℤ entry.1.ratelimit.user))

check_account_iff :
    (entry : String × AccountConfig) → (check_account entry ≡ none) ↔ IsAccount entry
unfolding check_account
check_account_iff entry =
    both_iff _ _ (fails_iff _ _) (both_iff _ _ (limit_iff _ _) (limit_iff _ _))
  where
    limit_iff :
        (limit : ℤ) (err : ConfigError)
        → (fails (ltb_ℤ limit (pos 0)) err ≡ none) ↔ (pos 0 ≤ℤ limit)
    limit_iff limit err = (
      λ h. let low = (fails_iff _ err).0 h in ground arith,
      λ h. (fails_iff _ err).1 (ground arith),
    )

-- A part that a library checks passes, where it is given.
abbrev pub IsPassed : {X : Type 0} → (X → Bool) → Option X → Type 0
IsPassed part_fails none = Unit {0}
IsPassed part_fails (some x) = part_fails x ≡ false

module _ {A T : Type 0} (auth_fails : A → Bool) (tls_fails : T → Bool) where
  check_tls_iff : (t : Option T) → (check_tls auth_fails tls_fails t ≡ none) ↔ IsPassed tls_fails t
  unfolding check_tls
  check_tls_iff none = (λ h. tt, λ h. refl)
  check_tls_iff (some t) = fails_iff (tls_fails t) _

  check_auth_iff :
      (a : Option A) → (check_auth auth_fails tls_fails a ≡ none) ↔ IsPassed auth_fails a
  unfolding check_auth
  check_auth_iff none = (λ h. tt, λ h. refl)
  check_auth_iff (some a) = fails_iff (auth_fails a) _

  -- An entry point names its account, its chain and its address, and its parts pass.
  abbrev pub IsEntrypoint : EntrypointConfig A T → Type 0
  IsEntrypoint cfg =
      (is_empty cfg.account ≡ false)
      × ((is_empty cfg.chain ≡ false)
          × ((is_empty cfg.bind ≡ false)
              × (IsPassed tls_fails cfg.tls_config × IsPassed auth_fails cfg.auth_config)))

  check_entrypoint_iff :
      (cfg : EntrypointConfig A T)
      → (check_entrypoint auth_fails tls_fails cfg ≡ none) ↔ IsEntrypoint cfg
  unfolding check_entrypoint
  check_entrypoint_iff cfg = both_iff _ _ (fails_iff _ _) (
      both_iff _ _ (fails_iff _ _) (
        both_iff _ _ (fails_iff _ _)
          (both_iff _ _ (check_tls_iff cfg.tls_config) (check_auth_iff cfg.auth_config))))

  abbrev pub IsMetrics : Option (MetricsConfig A T) → Type 0
  IsMetrics none = Unit {0}
  IsMetrics (some cfg) = IsPassed tls_fails cfg.tls_config × IsPassed auth_fails cfg.auth_config

  check_metrics_iff :
      (metrics : Option (MetricsConfig A T))
      → (check_metrics auth_fails tls_fails (
            some (elim metrics [
              | some m ↦ m
              | none ↦ record { bind = ""; auth_config = none; tls_config = none }
            ]))
          ≡ none)
        ↔ IsMetrics metrics
  unfolding check_metrics
  check_metrics_iff none = (λ h. tt, λ h. unfold check_tls check_auth and_then in refl)
  check_metrics_iff (some m) =
      both_iff _ _ (check_tls_iff m.tls_config) (check_auth_iff m.auth_config)

  -- The configuration of a server passes exactly if its parts for TLS, authentication and metrics do, its
  -- accounts are sound and its entry points are complete.
  pub validate_server_iff :
      (cfg : ServerConfig A T)
      → ((validate_server auth_fails tls_fails cfg).1 ≡ none) ↔ (
          IsPassed tls_fails cfg.tls_config
          × (IsPassed auth_fails cfg.auth_config
              × (IsMetrics cfg.metrics
                  × (All IsAccount cfg.accounts × All IsEntrypoint cfg.entrypoints))))
  unfolding validate_server set_metrics
  validate_server_iff cfg = both_iff _ _ (check_tls_iff cfg.tls_config) (
      both_iff _ _ (check_auth_iff cfg.auth_config) (
        both_iff _ _ (check_metrics_iff cfg.metrics) (
          both_iff _ _ (check_all_iff _ IsAccount cfg.accounts check_account_iff)
            (check_all_iff _ IsEntrypoint cfg.entrypoints check_entrypoint_iff))))
