-- ===== src/Chains/Names.antt =====
-- The namespaces that the registrations name, with those that the configuration adds.
use nodemux.Common.{
  Option, ap, String, true, ◌||◌, List, [], ◌∷◌, ◌++◌, String_discrete, lookup, ◌≡◌, refl, ◌∙◌, ◌⊎◌,
  inl, inr, Bool-cases, Option-cases, arith,
}
use nodemux.Factory.{DelegatorFactory, registered_chains}
use nodemux.Factory.Registration.{is_among}
use nodemux.Chains.{Delegator, namespace, Registration}

unfoldable pub names_of : Registration → List String
names_of [] = []
names_of ((delegator, chains) ∷ rest) = chains ++ names_of rest

-- A factory with nothing registered.
abbrev pub with_extra : Option (List (String × List String)) → DelegatorFactory Delegator
with_extra extra = record {
  extra_chains = extra;
  rpc_delegators = [];
  rest_delegators = [];
  graph_delegators = [];
}

-- The same with what the configuration adds for each delegator.
unfoldable pub names_with : Option (List (String × List String)) → Registration → List String
unfolding registered_chains namespace
names_with extra [] = []
names_with extra ((delegator, chains) ∷ rest) =
    registered_chains (with_extra extra) (namespace delegator) chains ++ names_with extra rest

is_among-append :
    (name : String) (xs ys : List String)
    → is_among name (xs ++ ys) ≡ (is_among name xs || is_among name ys)
unfolding is_among
is_among-append name [] ys = refl
is_among-append name (x ∷ xs) ys = ground (arith, is_among-append name xs ys)

pub is_among_or :
    (name : String) (xs ys : List String)
    → is_among name (xs ++ ys) ≡ true
    → (is_among name xs ≡ true) ⊎ (is_among name ys ≡ true)
is_among_or name xs ys h = elim (Bool-cases (is_among name xs)) [
  | inl here ↦ inl here
  | inr elsewhere ↦ inr (ground (arith, is_among-append name xs ys, h, elsewhere))
]

pub is_among_in :
    (name : String) (xs ys : List String)
    → (is_among name xs ≡ true) ⊎ (is_among name ys ≡ true)
    → is_among name (xs ++ ys) ≡ true
is_among_in name xs ys (inl h) =
    is_among-append name xs ys ∙ ap (λ b. b || is_among name ys) h ∙ ground arith
is_among_in name xs ys (inr h) =
    is_among-append name xs ys ∙ ap (λ b. is_among name xs || b) h ∙ ground arith

-- The configuration adds names, and takes none off.
pub registered_chains-among :
    (f : DelegatorFactory Delegator) (own name : String) (chains : List String)
    → is_among name chains ≡ true
    → is_among name (registered_chains f own chains) ≡ true
unfolding registered_chains
registered_chains-among f own name chains h = elim (Option-cases f.extra_chains) [
  | inl e ↦ rw (e, registered_chains) h
  | inr (extra, e) ↦ elim (Option-cases (lookup String_discrete own extra)) [
    | inl e' ↦ rw (e, registered_chains, e') h
    | inr (more, e') ↦
        rw (e, registered_chains, e') (ground (arith, is_among-append name chains more, h))
  ]
]

-- The names of a registration are there whatever is added.
pub names_of-names_with :
    (extra : Option (List (String × List String))) (name : String) (r : Registration)
    → is_among name (names_of r) ≡ true
    → is_among name (names_with extra r) ≡ true
unfolding names_of names_with is_among
names_of-names_with extra name [] h = h
names_of-names_with extra name ((d, chains) ∷ rest) h =
    let f = with_extra extra in
    let own = registered_chains f (namespace d) chains in
    is_among_in name own (names_with extra rest) (elim (is_among_or name chains (names_of rest) h) [
      | inl here ↦ inl (registered_chains-among f (namespace d) name chains here)
      | inr later ↦ inr (names_of-names_with extra name rest later)
    ])
