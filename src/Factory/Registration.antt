-- ===== src/Factory/Registration.antt =====
-- What a registration leads to, and when a namespace has a delegator.
use mathlib.Core.Bool.{false≢true}
use nodemux.Common.{
  String, Bool, true, false, some, List, [], ◌∷◌, String_discrete, lookup, insert,
  lookup-insert_self, lookup-insert_ne, ite, if◌then◌else◌, ◌≡◌, refl, sym, ap, ◌∙◌, ◌↔◌, inl, inr,
  Option-cases, done, or_panic, if_pos, if_neg, arith,
}
use nodemux.Factory.{
  DelegatorFactory, support_chain, get_blockhead_delegator, register_all, registered_chains,
  register_rpc, get_rpc_delegator,
}

unfoldable pub is_among : String → List String → Bool
is_among name [] = false
is_among name (x ∷ rest) = let later = is_among name rest in ite (String_discrete x name) true later

module _ {D : Type 0} where
  pub register_all-lookup :
      (delegator : D) (name : String) (chains : List String) (table : List (String × D))
      → lookup String_discrete name (register_all delegator chains table)
        ≡ (if is_among name chains then some delegator else lookup String_discrete name table)
  unfolding register_all is_among
  register_all-lookup delegator name [] table = refl
  register_all-lookup delegator name (x ∷ rest) table =
      let later =
        register_all-lookup delegator name rest (insert String_discrete x delegator table) in
      let stored = lookup-insert_self String_discrete x delegator table in
      elim (String_discrete x name) [
        | yes p ↦
            let here : lookup String_discrete name (insert String_discrete x delegator table)
                ≡ some delegator =
              cc (stored, p) in
            later ∙ rw (here, if_pos (String_discrete x name) p) (ground arith)
        | no p ↦
            let kept = lookup-insert_ne String_discrete x name delegator table (λ e. p (sym e)) in
            later ∙ rw (kept, if_neg (String_discrete x name) p) refl
      ]

  -- After `RegisterRPC` a namespace leads to the delegator if it is one of those given or of those that
  -- the configuration adds for the delegator's own namespace; any other leads where it did, or to a
  -- panic.
  pub register_rpc-get :
      (namespace_of : D → String) (delegator : D) (chains : List String) (f : DelegatorFactory D)
      (name : String)
      → get_rpc_delegator (register_rpc namespace_of delegator chains f) name ≡ (
          if is_among name (registered_chains f (namespace_of delegator) chains)
          then done delegator
          else get_rpc_delegator f name)
  unfolding get_rpc_delegator register_rpc
  register_rpc-get namespace_of delegator chains f name =
      ap or_panic (
        register_all-lookup delegator name (registered_chains f (namespace_of delegator) chains)
          f.rpc_delegators)
      ∙ ground arith

  -- A namespace is supported exactly if it has a delegator to ask for the head.
  pub support_chain_iff :
      (f : DelegatorFactory D) (name : String)
      → ((support_chain f name).0 ≡ true) ↔ ((d : D) × (get_blockhead_delegator f name ≡ done d))
  unfolding support_chain get_blockhead_delegator
  support_chain_iff f name = elim (Option-cases (lookup String_discrete name f.rpc_delegators)) [
    | inr (d, e) ↦ (λ h. (d, rw (e, get_blockhead_delegator) refl), λ h. rw (e, support_chain) refl)
    | inl e ↦ elim (Option-cases (lookup String_discrete name f.rest_delegators)) [
      | inr (d, e') ↦
          (λ h. (d, rw (e, e', get_blockhead_delegator) refl), λ h. rw (e, e', support_chain) refl)
      | inl e' ↦ elim (Option-cases (lookup String_discrete name f.graph_delegators)) [
        | inr (d, e'') ↦ (
          λ h. (d, rw (e, e', e'', get_blockhead_delegator) refl),
          λ h. rw (e, e', e'', support_chain) refl,
        )
        | inl e'' ↦ (
          λ h. absurd (false≢true (rw (e, e', e'', support_chain) at h)),
          λ h. let (d, q) = h in absurd (cc (rw (e, e', e'', get_blockhead_delegator) at q)),
        )
      ]
    ]
  ]
