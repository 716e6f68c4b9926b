-- ===== src/Chains/Installed.antt =====
-- Which namespaces are served once the delegators are installed.
use nodemux.Common.{
  Option, ap, String, true, some, List, [], ◌∷◌, ◌++◌, String_discrete, lookup, ◌≡◌, refl, sym, ◌∙◌,
  subst, ◌⊎◌, inl, inr, Bool-cases, Option-cases, arith,
}
use nodemux.Factory.{
  DelegatorFactory, registered_chains, register_all, register_rpc, register_rest, register_graph_ql,
  support_chain,
}
use nodemux.Factory.Registration.{is_among, register_all-lookup}
use nodemux.Chains.{
  Delegator, namespace, Registration, rpc_registrations, rest_registrations, graph_registrations,
  register_each, install_adaptors,
}
use nodemux.Chains.Names.{
  names_of, names_with, with_extra, is_among_or, is_among_in, names_of-names_with,
}

abbrev Table : Type 0
Table = List (String × Delegator)

-- The table has a delegator for the namespace.
abbrev IsIn : String → Table → Type 0
IsIn name table = (d : Delegator) × (lookup String_discrete name table ≡ some d)

register_all-IsIn :
    (delegator : Delegator) (name : String) (chains : List String) (table : Table)
    → (is_among name chains ≡ true) ⊎ IsIn name table
    → IsIn name (register_all delegator chains table)
register_all-IsIn delegator name chains table given =
    let now = register_all-lookup delegator name chains table in
    elim (Bool-cases (is_among name chains)) [
      | inl here ↦ (delegator, now ∙ rw here refl)
      | inr elsewhere ↦ elim given [
        | inl here ↦ absurd (ground (arith, here, elsewhere))
        | inr (d, e) ↦ (d, now ∙ rw elsewhere e)
      ]
    ]

registered_chains-extra :
    (f : DelegatorFactory Delegator) (own : String) (chains : List String)
    → registered_chains f own chains ≡ registered_chains (with_extra f.extra_chains) own chains
unfolding registered_chains
registered_chains-extra f own chains = refl

-- A kind of registration: the table that it writes, and how.
module _
    (register : Delegator → List String → DelegatorFactory Delegator → DelegatorFactory Delegator)
    (table : DelegatorFactory Delegator → Table)
    (same : (d : Delegator) (chains : List String) (f : DelegatorFactory Delegator)
      → (register d chains f).extra_chains ≡ f.extra_chains)
    (writes : (d : Delegator) (chains : List String) (f : DelegatorFactory Delegator)
      → table (register d chains f)
        ≡ register_all d (registered_chains f (namespace d) chains) (table f)) where
  register_each-IsIn :
      (name : String) (r : Registration) (f : DelegatorFactory Delegator)
      → (is_among name (names_with f.extra_chains r) ≡ true) ⊎ IsIn name (table f)
      → IsIn name (table (register_each register r f))
  unfolding register_each names_with
  register_each-IsIn name [] f (inl h) = absurd (unfold is_among in ground arith)
  register_each-IsIn name [] f (inr held) = held
  register_each-IsIn name ((d, chains) ∷ rest) f given =
      let own = registered_chains f (namespace d) chains in
      register_each-IsIn name rest (register d chains f) (elim given [
        | inr held ↦ inr (
            subst (IsIn name) (sym (writes d chains f))
              (register_all-IsIn d name own (table f) (inr held)))
        | inl among ↦
            elim (is_among_or name
              (registered_chains (with_extra f.extra_chains) (namespace d) chains)
              (names_with f.extra_chains rest) among) [
                | inr later ↦ inl (
                    subst (λ x. is_among name (names_with x rest) ≡ true) (sym (same d chains f))
                      later)
                | inl here ↦ inr (
                    subst (IsIn name) (sym (writes d chains f)) (
                      register_all-IsIn d name own (table f) (
                        inl (
                          ap (is_among name) (registered_chains-extra f (namespace d) chains)
                          ∙ here))))
              ]
      ])

-- What a kind of registration leaves as it is.
module _ {A : Type 0}
    (register : Delegator → List String → DelegatorFactory Delegator → DelegatorFactory Delegator)
    (table : DelegatorFactory Delegator → A)
    (keeps : (d : Delegator) (chains : List String) (f : DelegatorFactory Delegator)
      → table (register d chains f) ≡ table f) where
  register_each-keeps :
      (r : Registration) (f : DelegatorFactory Delegator)
      → table (register_each register r f) ≡ table f
  unfolding register_each
  register_each-keeps [] f = refl
  register_each-keeps ((d, chains) ∷ rest) f =
      register_each-keeps rest (register d chains f) ∙ keeps d chains f

supported :
    (f : DelegatorFactory Delegator) (name : String)
    → IsIn name f.rpc_delegators ⊎ (IsIn name f.rest_delegators ⊎ IsIn name f.graph_delegators)
    → (support_chain f name).0 ≡ true
unfolding support_chain
supported f name held = elim (Option-cases (lookup String_discrete name f.rpc_delegators)) [
  | inr (d, e) ↦ rw (e, support_chain) refl
  | inl e ↦ elim (Option-cases (lookup String_discrete name f.rest_delegators)) [
    | inr (d, e') ↦ rw (e, support_chain, e') refl
    | inl e' ↦ elim held [
      | inl (d, q) ↦ absurd (cc (e, q))
      | inr (inl (d, q)) ↦ absurd (cc (e', q))
      | inr (inr (d, q)) ↦ rw (e, support_chain, e', q) refl
    ]
  ]
]

abbrev pub installed : List String
installed =
    names_of rpc_registrations ++ (names_of rest_registrations ++ names_of graph_registrations)

-- The names of `InstallAdaptors`, and those that the configuration adds to the names of a delegator.
abbrev pub installed_with : Option (List (String × List String)) → List String
installed_with extra =
    names_with extra rpc_registrations
    ++ (names_with extra rest_registrations ++ names_with extra graph_registrations)

installed-installed_with :
    (extra : Option (List (String × List String))) (name : String)
    → is_among name installed ≡ true
    → is_among name (installed_with extra) ≡ true
installed-installed_with extra name h =
    let rpc = names_of-names_with extra name rpc_registrations in
    let rest = names_of-names_with extra name rest_registrations in
    let graph = names_of-names_with extra name graph_registrations in
    is_among_in name (names_with extra rpc_registrations)
      (names_with extra rest_registrations ++ names_with extra graph_registrations)
      (elim (is_among_or name (names_of rpc_registrations) _ h) [
        | inl a ↦ inl (rpc a)
        | inr b ↦ inr (
            is_among_in name (names_with extra rest_registrations)
              (names_with extra graph_registrations)
              (elim (is_among_or name (names_of rest_registrations) (names_of graph_registrations)
                b) [ inl a ↦ inl (rest a) | inr c ↦ inr (graph c) ]))
      ])

-- Every namespace that `InstallAdaptors` names, or that the configuration adds to the names of one of its
-- delegators, is supported afterwards, whatever was registered before.
pub install_adaptors-installed_with :
    (f : DelegatorFactory Delegator) (name : String)
    → is_among name (installed_with f.extra_chains) ≡ true
    → (support_chain (install_adaptors f) name).0 ≡ true
unfolding install_adaptors register_rpc register_rest register_graph_ql
install_adaptors-installed_with f name among =
    let f1 = register_each (register_rpc namespace) rpc_registrations f in
    let f2 = register_each (register_rest namespace) rest_registrations f1 in
    let extra1 : f1.extra_chains ≡ f.extra_chains =
      register_each-keeps (register_rpc namespace) (λ x. x.extra_chains) (λ d c x. refl)
        rpc_registrations f in
    let extra2 : f2.extra_chains ≡ f.extra_chains =
      register_each-keeps (register_rest namespace) (λ x. x.extra_chains) (λ d c x. refl)
        rest_registrations f1
      ∙ extra1 in
    supported (install_adaptors f) name
      (elim (is_among_or name (names_with f.extra_chains rpc_registrations) _ among) [
        | inl rpc ↦ inl (
            subst (IsIn name)
              (sym (
                register_each-keeps (register_graph_ql namespace) (λ x. x.rpc_delegators)
                  (λ d c x. refl) graph_registrations f2
                ∙ register_each-keeps (register_rest namespace) (λ x. x.rpc_delegators)
                    (λ d c x. refl) rest_registrations f1))
              (register_each-IsIn (register_rpc namespace) (λ x. x.rpc_delegators) (λ d c x. refl)
                (λ d c x. refl) name rpc_registrations f (inl rpc)))
        | inr other ↦
            elim (is_among_or name (names_with f.extra_chains rest_registrations)
              (names_with f.extra_chains graph_registrations) other) [
                | inl rest ↦ inr (
                    inl (
                      subst (IsIn name)
                        (sym (
                          register_each-keeps (register_graph_ql namespace) (λ x. x.rest_delegators)
                            (λ d c x. refl) graph_registrations f2))
                        (register_each-IsIn (register_rest namespace) (λ x. x.rest_delegators)
                          (λ d c x. refl) (λ d c x. refl) name rest_registrations f1
                          (inl (named_in rest_registrations (sym extra1) rest)))))
                | inr graph ↦ inr (
                    inr (
                      register_each-IsIn (register_graph_ql namespace) (λ x. x.graph_delegators)
                        (λ d c x. refl) (λ d c x. refl) name graph_registrations f2
                        (inl (named_in graph_registrations (sym extra2) graph))))
              ]
      ])
  where
    named_in :
        {extra extra' : Option (List (String × List String))} (r : Registration)
        → extra ≡ extra'
        → is_among name (names_with extra r) ≡ true
        → is_among name (names_with extra' r) ≡ true
    named_in r e h = subst (λ x. is_among name (names_with x r) ≡ true) e h

-- Every namespace that `InstallAdaptors` names is supported afterwards, whatever the configuration adds
-- and whatever was registered before.
pub install_adaptors-support :
    (f : DelegatorFactory Delegator) (name : String)
    → is_among name installed ≡ true
    → (support_chain (install_adaptors f) name).0 ≡ true
install_adaptors-support f name among =
    install_adaptors-installed_with f name (installed-installed_with f.extra_chains name among)
