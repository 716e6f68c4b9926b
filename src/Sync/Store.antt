-- ===== src/Sync/Store.antt =====
-- A change of one endpoint in the heap, and the sets that it leaves in order.
use mathlib.Core.List.Permᴰ
use nodemux.Common.{
  ℤ, ℕ, String, some, List, [], ◌∷◌, if_pos, if_neg, ℕ_discrete, All, Any, All-imp, All-both,
  All-perm, lookup, lookup-insert_self, lookup-insert_ne, ◌≡◌, ◌≢◌, refl, sym, ap, ◌∙◌, subst,
  subst₂, ◌⊎◌, inl, inr,
}
use nodemux.Chain.{ChainRef, ChainRef_discrete}
use nodemux.Endpoint.{Endpoint}
use nodemux.EndpointSet.{Heap, Entry, Weight, EndpointSet, weights_over, append_weight}
use nodemux.EndpointSet.Tip.{IsTip, IsUnder, IsAt}
use nodemux.Multiplexer.{Multiplexer, update}
use nodemux.Multiplexer.Invariant.{Inv, SetInv, IsOwned, IsListed}
use nodemux.Sync.{put_set}

pub update_cases :
    (heap : Heap) (addr : ℕ) (ep : Endpoint) (a : ℕ)
    → ((a ≡ addr) × (update heap addr ep a ≡ ep)) ⊎ ((a ≢ addr) × (update heap addr ep a ≡ heap a))
unfolding update
update_cases heap addr ep a = elim (ℕ_discrete a addr) [
  | yes p ↦ inl (p, if_pos _ p ep (heap a))
  | no p ↦ inr (p, if_neg _ p ep (heap a))
]

pub update_self : (heap : Heap) (addr : ℕ) (ep : Endpoint) → update heap addr ep addr ≡ ep
unfolding update
update_self heap addr ep = if_pos (ℕ_discrete addr addr) refl ep (heap addr)

-- A part of the endpoint that the change keeps is kept at every address.
pub update_keeps {ℓ} :
    {B : Type ℓ} (f : Endpoint → B) (heap : Heap) (addr : ℕ) (ep : Endpoint) (a : ℕ)
    → f ep ≡ f (heap addr)
    → f (update heap addr ep a) ≡ f (heap a)
update_keeps f heap addr ep a same = elim (update_cases heap addr ep a) [
  | inl (p, e) ↦ ap f e ∙ same ∙ ap (λ x. f (heap x)) (sym p)
  | inr (p, e) ↦ ap f e
]

-- Two heaps whose endpoints have the same names and chains.
pub record SameKeys (heap heap' : Heap) : Type 0 where
  pub names : (a : ℕ) → (heap' a).name ≡ (heap a).name
  pub chains : (a : ℕ) → (heap' a).chain ≡ (heap a).chain

pub update-SameKeys :
    (heap : Heap) (addr : ℕ) (ep : Endpoint)
    → ep.name ≡ (heap addr).name
    → ep.chain ≡ (heap addr).chain
    → SameKeys heap (update heap addr ep)
update-SameKeys heap addr ep n c = record {
  names = λ a. update_keeps (λ x. x.name) heap addr ep a n;
  chains = λ a. update_keeps (λ x. x.chain) heap addr ep a c;
}

pub IsOwned-alike :
    (heap heap' : Heap) (names : List Entry) (chain : ChainRef) (items : List Entry)
    → SameKeys heap heap'
    → All (IsOwned heap names chain) items
    → All (IsOwned heap' names chain) items
IsOwned-alike heap heap' names chain items k =
    All-imp _ _ items (λ e o. (k.names e.1 ∙ o.0, k.chains e.1 ∙ o.1, o.2))

pub weights_over-alike :
    (heap heap' : Heap) (ws : List Weight) (order : List Entry)
    → All
        (λ e. (us : List Weight) → append_weight us (heap' e.1) ≡ append_weight us (heap e.1))
        order
    → weights_over heap' ws order ≡ weights_over heap ws order
unfolding weights_over
weights_over-alike heap heap' ws [] same = refl
weights_over-alike heap heap' ws ((name, addr) ∷ rest) same =
    rw (same.0 ws) (weights_over-alike heap heap' (append_weight ws (heap addr)) rest same.1)

pub Any-both :
    (P Q R : Entry → Type 0) (xs : List Entry)
    → ((e : Entry) → P e → Q e → R e)
    → All P xs
    → Any Q xs
    → Any R xs
Any-both P Q R [] f p q = absurd q
Any-both P Q R (x ∷ xs) f p (inl q) = inl (f x p.0 q)
Any-both P Q R (x ∷ xs) f p (inr q) = inr (Any-both P Q R xs f p.1 q)

pub IsTip-alike :
    (heap heap' : Heap) (items : List Entry) (tip : ℤ)
    → All (λ e. (heap' e.1).blockhead ≡ (heap e.1).blockhead) items
    → IsTip heap items tip
    → IsTip heap' items tip
IsTip-alike heap heap' items tip same v = record {
  nonneg = v.nonneg;
  upper = All-both _ _ _ items (λ e s u. subst (IsUnder tip) (sym s) u) same v.upper;
  attained = elim v.attained [
    | inl p ↦ inl p
    | inr any ↦ inr (Any-both _ _ _ items (λ e s u. subst (IsAt tip) (sym s) u) same any)
  ];
}

-- A set of another chain does not hold the changed endpoint, so it stays in order.
pub SetInv-elsewhere :
    (heap : Heap) (names : List Entry) (chain : ChainRef) (s : EndpointSet) (addr : ℕ)
    (ep : Endpoint)
    → ep.name ≡ (heap addr).name
    → ep.chain ≡ (heap addr).chain
    → chain ≢ (heap addr).chain
    → SetInv heap names chain s
    → SetInv (update heap addr ep) names chain s
SetInv-elsewhere heap names chain s addr ep n c other v =
    let heap' = update heap addr ep in
    let same : All (λ e. heap' e.1 ≡ heap e.1) s.items =
      All-imp (IsOwned heap names chain) (λ e. heap' e.1 ≡ heap e.1) s.items
        (λ e o. elim (update_cases heap addr ep e.1) [
          | inl (p, q) ↦ absurd (other (sym o.1 ∙ ap (λ a. (heap a).chain) p))
          | inr (p, q) ↦ q
        ])
        v.owned in
    record {
      owned =
          IsOwned-alike heap heap' names chain s.items (update-SameKeys heap addr ep n c) v.owned;
      tip =
          IsTip-alike heap heap' s.items s.max_tip_height
            (All-imp _ _ s.items (λ e q. ap (λ x. x.blockhead) q) same) v.tip;
      order = v.order;
      visited = v.visited;
      built =
          v.built
          ∙ sym (
              weights_over-alike heap heap' [] v.order (
                All-imp _ _ v.order (λ e q us. ap (append_weight us) q)
                  (All-perm _ (Permᴰ.symm v.visited) same)));
    }

-- The invariant of the whole after one set is put back: it holds the same entries, is in order over
-- the new heap, and the other sets stay in order.
pub put_set-Inv :
    (m : Multiplexer) (heap' : Heap) (chain : ChainRef) (s s' : EndpointSet)
    → Inv m
    → lookup ChainRef_discrete chain m.chain_index ≡ some s
    → s'.items ≡ s.items
    → SameKeys m.heap heap'
    → SetInv heap' m.name_index chain s'
    → ((c : ChainRef) (t : EndpointSet)
        → c ≢ chain
        → SetInv m.heap m.name_index c t
        → SetInv heap' m.name_index c t)
    → Inv (put_set m heap' chain s')
put_set-Inv m heap' chain s s' v at items keys here elsewhere = record {
  sets = λ c t e. elim (ChainRef_discrete c chain) [
    | yes p ↦
        let same : s' ≡ t =
          cc (e, p, lookup-insert_self ChainRef_discrete chain s' m.chain_index) in
        subst₂ (SetInv heap' m.name_index) (sym p) same here
    | no p ↦
        elsewhere c t p
          (v.sets c t (sym (lookup-insert_ne ChainRef_discrete chain c s' m.chain_index p) ∙ e))
  ];
  listed = λ name a e. put_listed name a (v.listed name a e);
}
  where
    put_listed :
        (name : String) (a : ℕ) → IsListed m name a → IsListed (put_set m heap' chain s') name a
    put_listed name a l = elim (ChainRef_discrete (m.heap a).chain chain) [
      | yes p ↦
          let home : l.home ≡ s = cc (l.found, at, p) in
          record {
            named = keys.names a ∙ l.named;
            used = l.used;
            home = s';
            found =
                rw (keys.chains a ∙ p)
                  (lookup-insert_self ChainRef_discrete chain s' m.chain_index);
            held = rw (items, ← home) l.held;
          }
      | no p ↦ record {
        named = keys.names a ∙ l.named;
        used = l.used;
        home = l.home;
        found = rw (keys.chains a) (
            lookup-insert_ne ChainRef_discrete chain (m.heap a).chain s' m.chain_index p ∙ l.found);
        held = l.held;
      }
    ]
