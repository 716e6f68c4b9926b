-- ===== src/Clients/Again.antt =====
-- A selector keeps the client that it was given first.
use nodemux.Common.{
  String, Option, none, some, String_discrete, lookup, lookup-insert_self, lookup-insert_ne, done,
  panic, done-inj, Outcome-cases, ◌≡◌, ◌≢◌, refl, sym, ap, ◌∙◌, ◌⊎◌, inl, inr, Option-cases, if_pos,
  if_neg, ite, subst, subst₂,
}
use nodemux.Clients.{
  Url, RedisOptions, RedisClient, Clients, store_client, keep_client, redis_client_exact,
  redis_client,
}

abbrev made_client : Clients → RedisOptions → RedisClient
made_client m opts = record { number = m.connected; options = opts }

module _ (parse_url : String → Option Url) where
  -- A client is there already, or the store of the selector decides.
  exact_cases :
      (selector : String) (m : Clients)
      → ((c : RedisClient) × (redis_client_exact parse_url selector m ≡ done (m, some c)))
        ⊎ ((redis_client_exact parse_url selector m ≡ panic)
            ⊎ ((made : Option RedisOptions) × (store_client parse_url selector m.stores ≡ done made)
                × (lookup String_discrete selector m.redis_clients ≡ none)
                × (redis_client_exact parse_url selector m
                    ≡ done (keep_client parse_url selector m made))))
  unfolding redis_client_exact
  exact_cases selector m = elim (Option-cases (lookup String_discrete selector m.redis_clients)) [
    | inr (c, e) ↦ inl (c, rw (e, redis_client_exact) refl)
    | inl e ↦ elim (Outcome-cases (store_client parse_url selector m.stores)) [
      | inl p ↦ inr (inl (rw (e, redis_client_exact, p) refl))
      | inr (made, p) ↦ inr (inr (made, p, e, rw (e, redis_client_exact, p) refl))
    ]
  ]

  kept_again :
      (selector : String) (m : Clients) (made : Option RedisOptions)
      → store_client parse_url selector m.stores ≡ done made
      → lookup String_discrete selector m.redis_clients ≡ none
      → redis_client_exact parse_url selector (keep_client parse_url selector m made).0
        ≡ done (keep_client parse_url selector m made)
  unfolding redis_client_exact keep_client
  kept_again selector m none p e = rw (e, redis_client_exact, p) refl
  kept_again selector m (some c) p e =
      rw
        (
          lookup-insert_self String_discrete selector (made_client m c) m.redis_clients,
          redis_client_exact,
        )
        refl

  exact_again :
      (selector : String) (m m' : Clients) (found : Option RedisClient)
      → redis_client_exact parse_url selector m ≡ done (m', found)
      → redis_client_exact parse_url selector m' ≡ done (m', found)
  exact_again selector m m' found h = elim (exact_cases selector m) [
    | inl (c, e) ↦
        let same = done-inj (sym e ∙ h) in
        subst₂ (λ n f. redis_client_exact parse_url selector n ≡ done (n, f)) (ap (λ x. x.0) same)
          (ap (λ x. x.1) same) e
    | inr (inl e) ↦ absurd (cc (h, e))
    | inr (inr (made, p, e, q)) ↦
        let same = done-inj (sym q ∙ h) in
        subst₂ (λ n f. redis_client_exact parse_url selector n ≡ done (n, f)) (ap (λ x. x.0) same)
          (ap (λ x. x.1) same) (kept_again selector m made p e)
  ]

  still_none :
      (selector : String) (m : Clients) (made : Option RedisOptions)
      → selector ≢ "default"
      → redis_client_exact parse_url selector m ≡ done (m, none)
      → redis_client_exact parse_url selector (keep_client parse_url "default" m made).0
        ≡ done ((keep_client parse_url "default" m made).0, none)
  unfolding redis_client_exact keep_client
  still_none selector m none other h = h
  still_none selector m (some c) other h = elim (exact_cases selector m) [
    | inl (d, e) ↦ absurd (cc (ap (λ x. x.1) (done-inj (sym e ∙ h))))
    | inr (inl e) ↦ absurd (cc (h, e))
    | inr (inr (some opts, p, e, q)) ↦ absurd (cc (ap (λ x. x.1) (done-inj (sym q ∙ h))))
    | inr (inr (none, p, e, q)) ↦
        let absent =
          lookup-insert_ne String_discrete "default" selector (made_client m c) m.redis_clients
            other
          ∙ e in
        rw (absent, redis_client_exact, p) refl
  ]

  -- Connecting the client of "default" gives no other selector one.
  again_default :
      (selector : String) (m m' : Clients) (found : Option RedisClient)
      → selector ≢ "default"
      → redis_client_exact parse_url selector m ≡ done (m, none)
      → redis_client_exact parse_url "default" m ≡ done (m', found)
      → redis_client_exact parse_url selector m' ≡ done (m', none)
  again_default selector m m' found other h h' = elim (exact_cases "default" m) [
    | inl (c, e) ↦
        let same = ap (λ x. x.0) (done-inj (sym e ∙ h')) in
        subst (λ n. redis_client_exact parse_url selector n ≡ done (n, none)) same h
    | inr (inl e) ↦ absurd (cc (h', e))
    | inr (inr (made, p, e, q)) ↦
        let same = ap (λ x. x.0) (done-inj (sym q ∙ h')) in
        subst (λ n. redis_client_exact parse_url selector n ≡ done (n, none)) same
          (still_none selector m made other h)
  ]

  redis_client_own :
      (selector : String) (m m' : Clients) (c : RedisClient)
      → redis_client_exact parse_url selector m ≡ done (m', some c)
      → redis_client parse_url selector m ≡ done (m', some c)
  unfolding redis_client
  redis_client_own selector m m' c h = rw h refl

  redis_client_panic :
      (selector : String) (m : Clients)
      → redis_client_exact parse_url selector m ≡ panic
      → redis_client parse_url selector m ≡ panic
  unfolding redis_client
  redis_client_panic selector m h = rw h refl

  redis_client_other :
      (selector : String) (m m' : Clients)
      → redis_client_exact parse_url selector m ≡ done (m', none)
      → redis_client parse_url selector m
        ≡ ite
            (String_discrete selector "default")
            (done (m', none))
            (redis_client_exact parse_url "default" m')
  unfolding redis_client
  redis_client_other selector m m' h = rw h refl

  own_again :
      (selector : String) (m n m' : Clients) (c : RedisClient) (found : Option RedisClient)
      → redis_client_exact parse_url selector m ≡ done (n, some c)
      → redis_client parse_url selector m ≡ done (m', found)
      → redis_client parse_url selector m' ≡ done (m', found)
  own_again selector m n m' c found e h =
      let same = done-inj (sym (redis_client_own selector m n c e) ∙ h) in
      subst₂ (λ k f. redis_client parse_url selector k ≡ done (k, f)) (ap (λ x. x.0) same)
        (ap (λ x. x.1) same) (redis_client_own selector n n c (exact_again selector m n (some c) e))

  default_again :
      (selector : String) (m m' : Clients) (found : Option RedisClient)
      → redis_client_exact parse_url selector m ≡ done (m, none)
      → redis_client parse_url selector m ≡ done (m', found)
      → redis_client parse_url selector m' ≡ done (m', found)
  default_again selector m m' found e h = elim (String_discrete selector "default") [
    | yes p ↦
        let same = done-inj (
          sym
            (redis_client_other selector m m e ∙ if_pos (String_discrete selector "default") p _ _)
          ∙ h) in
        subst₂ (λ k f. redis_client parse_url selector k ≡ done (k, f)) (ap (λ x. x.0) same)
          (ap (λ x. x.1) same)
          (redis_client_other selector m m e ∙ if_pos (String_discrete selector "default") p _ _)
    | no p ↦
        let by_default : redis_client_exact parse_url "default" m ≡ done (m', found) =
          sym
            (redis_client_other selector m m e ∙ if_neg (String_discrete selector "default") p _ _)
          ∙ h in
        redis_client_other selector m' m' (again_default selector m m' found p e by_default)
        ∙ if_neg (String_discrete selector "default") p _ _
        ∙ exact_again "default" m m' found by_default
  ]

  -- Asked again for a selector, the multiplexer gives the very client that it gave before, or none
  -- again, and makes no client any more.
  pub redis_client-again :
      (selector : String) (m m' : Clients) (found : Option RedisClient)
      → redis_client parse_url selector m ≡ done (m', found)
      → redis_client parse_url selector m' ≡ done (m', found)
  unfolding keep_client
  redis_client-again selector m m' found h = elim (exact_cases selector m) [
    | inl (c, e) ↦ own_again selector m m m' c found e h
    | inr (inl e) ↦ absurd (cc (h, redis_client_panic selector m e))
    | inr (inr (none, p, e, q)) ↦ default_again selector m m' found q h
    | inr (inr (some c, p, e, q)) ↦
        own_again selector m (keep_client parse_url selector m (some c)).0 m' (made_client m c)
          found q h
  ]
