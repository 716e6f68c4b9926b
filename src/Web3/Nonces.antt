-- ===== src/Web3/Nonces.antt =====
-- The reply that is taken for a count of transactions.
use nodemux.Common.{
  ℕ, ◌≤◌, String, Option, none, some, List, [], ◌∷◌, ltb, All, Any, ◌≡◌, refl, sym, ◌∙◌, ◌⊎◌, inl,
  inr, Bool-cases, Option-cases, arith,
}
use nodemux.Web3.{
  Message, RpcResult, failed, missing, answer, nonce_of, raise_nonce, max_nonce,
  get_transaction_count,
}

-- The result is this message.
abbrev pub Gives : Message → RpcResult → Type 0
Gives msg failed = ⊥
Gives msg missing = ⊥
Gives msg (answer other) = other ≡ msg

module _ (decode : String → Option ℕ) where
  -- The result tells a nonce.
  abbrev pub Tells : RpcResult → Type 0
  Tells failed = ⊥
  Tells missing = ⊥
  Tells (answer msg) = (n : ℕ) × (nonce_of decode msg ≡ some n)

  -- The nonce that the result tells, if it does, is at most this one.
  abbrev pub IsAtMost : ℕ → RpcResult → Type 0
  IsAtMost top failed = Unit {0}
  IsAtMost top missing = Unit {0}
  IsAtMost top (answer msg) = (n : ℕ) → nonce_of decode msg ≡ some n → n ≤ top

  -- What the loop ends with, from a message with its nonce on.
  record Top (n : ℕ) (msg : Message) (results : List RpcResult) : Type 0 where
    top : ℕ
    held : Message
    found : max_nonce decode (some (n, msg)) results ≡ some (top, held)
    grows : n ≤ top
    source : (held ≡ msg) ⊎ Any (Gives held) results
    told : nonce_of decode held ≡ some top
    bound : All (IsAtMost top) results

  Top-kept :
      (n : ℕ) (msg next : Message) (rest : List RpcResult)
      → raise_nonce decode (some (n, msg)) next ≡ some (n, msg)
      → ((k : ℕ) → nonce_of decode next ≡ some k → k ≤ n)
      → Top n msg rest
      → Top n msg (answer next ∷ rest)
  unfolding max_nonce
  Top-kept n msg next rest kept low t = record {
    top = t.top;
    held = t.held;
    found = rw kept t.found;
    grows = t.grows;
    source = elim t.source [ inl e ↦ inl e | inr any ↦ inr (inr any) ];
    told = t.told;
    bound = (λ k e. omega (arith, low k e, t.grows), t.bound);
  }

  Top-raised :
      (n k : ℕ) (msg next : Message) (rest : List RpcResult)
      → raise_nonce decode (some (n, msg)) next ≡ some (k, next)
      → nonce_of decode next ≡ some k
      → n ≤ k
      → Top k next rest
      → Top n msg (answer next ∷ rest)
  unfolding max_nonce
  Top-raised n k msg next rest raised tells up t = record {
    top = t.top;
    held = t.held;
    found = rw raised t.found;
    grows = omega (arith, t.grows);
    source = elim t.source [ inl e ↦ inr (inl (sym e)) | inr any ↦ inr (inr any) ];
    told = t.told;
    bound = (λ j e. let same : j ≡ k = cc in omega (arith, same, t.grows), t.bound);
  }

  Top-skip :
      (n : ℕ) (msg : Message) (r : RpcResult) (rest : List RpcResult)
      → max_nonce decode (some (n, msg)) (r ∷ rest) ≡ max_nonce decode (some (n, msg)) rest
      → ((top : ℕ) → IsAtMost top r)
      → Top n msg rest
      → Top n msg (r ∷ rest)
  Top-skip n msg r rest same low t = record {
    top = t.top;
    held = t.held;
    found = same ∙ t.found;
    grows = t.grows;
    source = elim t.source [ inl e ↦ inl e | inr any ↦ inr (inr any) ];
    told = t.told;
    bound = (low t.top, t.bound);
  }

  max_nonce-Top :
      (n : ℕ) (msg : Message) (results : List RpcResult)
      → nonce_of decode msg ≡ some n
      → Top n msg results
  unfolding max_nonce raise_nonce
  max_nonce-Top n msg [] tells = record {
    top = n;
    held = msg;
    found = refl;
    grows = omega arith;
    source = inl refl;
    told = tells;
    bound = tt;
  }
  max_nonce-Top n msg (failed ∷ rest) tells =
      Top-skip n msg failed rest refl (λ top. tt) (max_nonce-Top n msg rest tells)
  max_nonce-Top n msg (missing ∷ rest) tells =
      Top-skip n msg missing rest refl (λ top. tt) (max_nonce-Top n msg rest tells)
  max_nonce-Top n msg (answer next ∷ rest) tells = elim (Option-cases (nonce_of decode next)) [
    | inl e ↦
        Top-kept n msg next rest (rw (e, raise_nonce) refl) (λ k e'. absurd (cc (e, e')))
          (max_nonce-Top n msg rest tells)
    | inr (k, e) ↦ elim (Bool-cases (ltb n k)) [
      | inl up ↦
          Top-raised n k msg next rest (rw (e, raise_nonce) (rw up refl)) e (ground arith)
            (max_nonce-Top k next rest e)
      | inr down ↦
          Top-kept n msg next rest (rw (e, raise_nonce) (rw down refl))
            (λ j e'. let same : j ≡ k = cc in ground (arith, same)) (max_nonce-Top n msg rest tells)
    ]
  ]

  -- What a message that is taken promises: it is one of the replies, it tells a nonce, and no reply
  -- tells a higher one.
  abbrev pub IsHighest : Message → List RpcResult → Type 0
  IsHighest msg results =
      (top : ℕ) × (nonce_of decode msg ≡ some top)
      × Any (Gives msg) results
      × All (IsAtMost top) results

  IsHighest-cons :
      (msg : Message) (r : RpcResult) (results : List RpcResult)
      → ((top : ℕ) → IsAtMost top r)
      → IsHighest msg results
      → IsHighest msg (r ∷ results)
  IsHighest-cons msg r results low h = (h.0, h.1, inr h.2, (low h.0, h.3))

  max_nonce_starts :
      (results : List RpcResult)
      → Any Tells results
      → (top : ℕ) × (msg : Message) × (max_nonce decode none results ≡ some (top, msg))
        × IsHighest msg results
  unfolding max_nonce
  max_nonce_starts [] there = absurd there
  max_nonce_starts (failed ∷ rest) (inl x) = absurd x
  max_nonce_starts (failed ∷ rest) (inr there) =
      let (top, msg, e, h) = max_nonce_starts rest there in
      (top, msg, e, IsHighest-cons msg failed rest (λ t. tt) h)
  max_nonce_starts (missing ∷ rest) (inl x) = absurd x
  max_nonce_starts (missing ∷ rest) (inr there) =
      let (top, msg, e, h) = max_nonce_starts rest there in
      (top, msg, e, IsHighest-cons msg missing rest (λ t. tt) h)
  max_nonce_starts (answer next ∷ rest) there = elim (Option-cases (nonce_of decode next)) [
    | inl e ↦ elim there [
      | inl (n, e') ↦ absurd (cc (e, e'))
      | inr later ↦
          let (top, msg, f, h) = max_nonce_starts rest later in
          (
            top,
            msg,
            rw (e, raise_nonce) f,
            IsHighest-cons msg (answer next) rest (λ t n e'. absurd (cc (e, e'))) h,
          )
    ]
    | inr (k, e) ↦
        let t = max_nonce-Top k next rest e in
        (
          t.top,
          t.held,
          rw (e, raise_nonce) t.found,
          (
            t.top,
            t.told,
            elim t.source [ inl same ↦ inl (sym same) | inr any ↦ inr any ],
            ((λ j e'. let same : j ≡ k = cc in omega (arith, same, t.grows)), t.bound),
          ),
        )
  ]

  -- If a reply tells a nonce, `getTransactionCount` takes a reply that tells one, and no reply tells a
  -- higher one.
  pub get_transaction_count-IsHighest :
      (results : List RpcResult)
      → Any Tells results
      → (msg : Message) × (get_transaction_count decode results ≡ some msg) × IsHighest msg results
  unfolding get_transaction_count
  get_transaction_count-IsHighest results there =
      let (top, msg, e, h) = max_nonce_starts results there in
      (msg, rw (e, get_transaction_count) refl, h)
