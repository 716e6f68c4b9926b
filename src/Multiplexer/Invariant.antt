-- ===== src/Multiplexer/Invariant.antt =====
-- What the two indexes of a multiplexer agree on.
use mathlib.Core.List.{Permᴰ}
use mathlib.Core.List.Permᴰ
use nodemux.Common.{
  ℕ, ◌<◌, String, none, some, List, [], ◌∷◌, Any, ◌++◌, ℤ, All, Any-append, All-append, All-imp,
  String_discrete, lookup, insert, lookup-insert_ne, insert_absent, All-lookup, ◌≡◌, ◌≢◌, refl, sym,
  ap, ◌∙◌, subst, inl, inr, Option-cases, arith,
}
use nodemux.Chain.{ChainRef, ChainRef_discrete}
use nodemux.EndpointSet.{
  Heap, Entry, Weight, EndpointSet, new_endpoint_set, weights_over, append_weight, append_weights,
}
use nodemux.EndpointSet
use nodemux.EndpointSet.Tip.{IsTip, IsUnder}
use nodemux.Multiplexer.{Multiplexer}

-- An entry of a set: the key is the endpoint's name, the endpoint is of the set's chain, and the name
-- index leads to the same address.
abbrev pub IsOwned : Heap → List Entry → ChainRef → Entry → Type 0
IsOwned heap names chain e =
    ((heap e.1).name ≡ e.0)
    × ((heap e.1).chain ≡ chain)
    × (lookup String_discrete e.0 names ≡ some e.1)

-- A set is in order: its entries are owned, its tip is the tip of its endpoints, and its weight table
-- is the one that a visit of its entries builds.
pub record SetInv (heap : Heap) (names : List Entry) (chain : ChainRef) (s : EndpointSet)
    : Type 0 where
  pub owned : All (IsOwned heap names chain) s.items
  pub tip : IsTip heap s.items s.max_tip_height
  pub order : List Entry
  pub visited : Permᴰ order s.items
  pub built : s.weights ≡ weights_over heap [] order

-- A name that is listed belongs to an endpoint in use, of that name, in the set of its chain.
pub record IsListed (m : Multiplexer) (name : String) (addr : ℕ) : Type 0 where
  pub named : (m.heap addr).name ≡ name
  pub used : addr < m.next
  pub home : EndpointSet
  pub found : lookup ChainRef_discrete (m.heap addr).chain m.chain_index ≡ some home
  pub held : lookup String_discrete name home.items ≡ some addr

pub record Inv (m : Multiplexer) : Type 0 where
  pub sets :
      (chain : ChainRef) (s : EndpointSet)
      → lookup ChainRef_discrete chain m.chain_index ≡ some s
      → SetInv m.heap m.name_index chain s
  pub listed :
      (name : String) (addr : ℕ)
      → lookup String_discrete name m.name_index ≡ some addr
      → IsListed m name addr

weights_over-append :
    (heap : Heap) (ws : List Weight) (xs : List Entry) (e : Entry)
    → weights_over heap ws (xs ++ e ∷ []) ≡ append_weight (weights_over heap ws xs) (heap e.1)
unfolding weights_over
weights_over-append heap ws [] e = refl
weights_over-append heap ws ((name, addr) ∷ xs) e =
    weights_over-append heap (append_weight ws (heap addr)) xs e

-- A set that has no entry under a name that is not listed.
pub SetInv-absent :
    (heap : Heap) (names : List Entry) (chain : ChainRef) (s : EndpointSet) (name : String)
    → SetInv heap names chain s
    → lookup String_discrete name names ≡ none
    → lookup String_discrete name s.items ≡ none
SetInv-absent heap names chain s name v h =
    elim (Option-cases (lookup String_discrete name s.items)) [
      | inl e ↦ e
      | inr (addr, e) ↦
          let o =
            All-lookup String_discrete (IsOwned heap names chain) name addr s.items v.owned e in
          absurd (cc (o.2))
    ]

-- Listing a new name leaves the entries owned.
IsOwned-insert :
    (heap : Heap) (names : List Entry) (chain : ChainRef) (name : String) (addr : ℕ) (e : Entry)
    → lookup String_discrete name names ≡ none
    → IsOwned heap names chain e
    → IsOwned heap (insert String_discrete name addr names) chain e
IsOwned-insert heap names chain name addr e h o =
    (o.0, o.1, lookup-insert_ne String_discrete name e.0 addr names other ∙ o.2)
  where
    other : e.0 ≢ name
    other p = cc (o.2, h, p)

pub SetInv-insert :
    (heap : Heap) (names : List Entry) (chain : ChainRef) (name : String) (addr : ℕ)
    (s : EndpointSet)
    → lookup String_discrete name names ≡ none
    → SetInv heap names chain s
    → SetInv heap (insert String_discrete name addr names) chain s
SetInv-insert heap names chain name addr s h v = record {
  owned = All-imp _ _ s.items (λ e. IsOwned-insert heap names chain name addr e h) v.owned;
  tip = v.tip;
  order = v.order;
  visited = v.visited;
  built = v.built;
}

pub SetInv-new :
    (heap : Heap) (names : List Entry) (chain : ChainRef) → SetInv heap names chain new_endpoint_set
unfolding new_endpoint_set weights_over
SetInv-new heap names chain = record {
  owned = tt;
  tip = record { nonneg = omega arith; upper = tt; attained = inl refl };
  order = [];
  visited = Permᴰ.nil;
  built = refl;
}

IsTip-append :
    (heap : Heap) (items : List Entry) (tip : ℤ) (e : Entry)
    → (heap e.1).blockhead ≡ none
    → IsTip heap items tip
    → IsTip heap (items ++ e ∷ []) tip
IsTip-append heap items tip e h v = record {
  nonneg = v.nonneg;
  upper = All-append _ items (e ∷ []) v.upper (subst (IsUnder tip) (sym h) tt, tt);
  attained = elim v.attained [ inl p ↦ inl p | inr any ↦ inr (Any-append _ items (e ∷ []) any) ];
}

-- A set in order stays in order when a listed endpoint of its chain, with no head yet, is added.
pub SetInv-add :
    (heap : Heap) (names : List Entry) (chain : ChainRef) (addr : ℕ) (s : EndpointSet)
    → lookup String_discrete (heap addr).name names ≡ some addr
    → lookup String_discrete (heap addr).name s.items ≡ none
    → (heap addr).chain ≡ chain
    → (heap addr).blockhead ≡ none
    → SetInv heap names chain s
    → SetInv heap names chain (EndpointSet.add heap addr s)
unfolding EndpointSet.add
SetInv-add heap names chain addr s listed free home bare v =
    let e : Entry = ((heap addr).name, addr) in
    let grown = insert_absent String_discrete (heap addr).name addr s.items free in
    rw grown (record {
      owned = All-append _ s.items (e ∷ []) v.owned ((refl, home, listed), tt);
      tip = IsTip-append heap s.items s.max_tip_height e bare v.tip;
      order = v.order ++ e ∷ [];
      visited = Permᴰ.append_right (e ∷ []) v.visited;
      built =
          ap (λ ws. append_weight ws (heap addr)) v.built
          ∙ sym (weights_over-append heap [] v.order e);
    })

-- The address that a lookup finds stands in the list, and a key that stands there is found.
pub lookup-Any :
    (name : String) (addr : ℕ) (items : List Entry)
    → lookup String_discrete name items ≡ some addr
    → Any (λ e. e.1 ≡ addr) items
unfolding lookup
lookup-Any name addr [] h = absurd (ground arith)
lookup-Any name addr ((n, a) ∷ items) h = elim (String_discrete n name) [
  | yes p ↦ inl (ground arith)
  | no p ↦ inr (lookup-Any name addr items (ground arith))
]

pub Any-lookup :
    (name : String) (items : List Entry)
    → Any (λ e. e.0 ≡ name) items
    → (addr : ℕ) × (lookup String_discrete name items ≡ some addr)
unfolding lookup
Any-lookup name [] any = absurd any
Any-lookup name ((n, a) ∷ items) any = elim (String_discrete n name) [
  | yes p ↦ (a, ground arith)
  | no p ↦ elim any [
    | inl here ↦ absurd (p here)
    | inr there ↦ let (addr, e) = Any-lookup name items there in (addr, ground arith)
  ]
]
