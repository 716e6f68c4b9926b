-- ===== src/Multiplexer/Adding.antt =====
-- `Add` and the invariant of the indexes.
use nodemux.Common.{
  ℕ, ◌<◌, String, none, some, List, String_discrete, lookup, insert, lookup-insert_self,
  lookup-insert_ne, ◌≡◌, ◌≢◌, refl, sym, ◌∙◌, subst, subst₂, inl, inr, Option-cases,
}
use nodemux.Chain.{ChainRef, ChainRef_discrete}
use nodemux.EndpointSet.{
  Heap, Entry, Weight, EndpointSet, new_endpoint_set, weights_over, append_weight, append_weights,
}
use nodemux.EndpointSet
use nodemux.Multiplexer.{Multiplexer, add, set_or_new}
use nodemux.Multiplexer.Invariant.{
  Inv, SetInv, IsListed, SetInv-add, SetInv-new, SetInv-absent, SetInv-insert,
}

module _ (m : Multiplexer) (addr : ℕ) (v : Inv m) where
  abbrev old_home : EndpointSet
  old_home = set_or_new (lookup ChainRef_discrete (m.heap addr).chain m.chain_index)

  abbrev new_home : EndpointSet
  new_home = EndpointSet.add m.heap addr old_home

  abbrev new_names : List Entry
  new_names = insert String_discrete (m.heap addr).name addr m.name_index

  abbrev new_sets : List (ChainRef × EndpointSet)
  new_sets = insert ChainRef_discrete (m.heap addr).chain new_home m.chain_index

  old_home-SetInv : SetInv m.heap m.name_index (m.heap addr).chain old_home
  unfolding set_or_new
  old_home-SetInv =
      elim (Option-cases (lookup ChainRef_discrete (m.heap addr).chain m.chain_index)) [
        | inl e ↦ rw (e, set_or_new) (SetInv-new m.heap m.name_index (m.heap addr).chain)
        | inr (s, e) ↦ rw (e, set_or_new) (v.sets (m.heap addr).chain s e)
      ]

  module _ (free : lookup String_discrete (m.heap addr).name m.name_index ≡ none)
      (bare : (m.heap addr).blockhead ≡ none) (used : addr < m.next) where
    new_home-SetInv : SetInv m.heap new_names (m.heap addr).chain new_home
    new_home-SetInv =
        SetInv-add m.heap new_names (m.heap addr).chain addr old_home
          (lookup-insert_self String_discrete (m.heap addr).name addr m.name_index)
          (SetInv-absent m.heap m.name_index (m.heap addr).chain old_home (m.heap addr).name
            old_home-SetInv free)
          refl bare
          (SetInv-insert m.heap m.name_index (m.heap addr).chain (m.heap addr).name addr old_home
            free old_home-SetInv)

    added : Multiplexer
    added = record m { name_index = new_names; chain_index = new_sets }

    added-sets :
        (chain : ChainRef) (s : EndpointSet)
        → lookup ChainRef_discrete chain new_sets ≡ some s
        → SetInv m.heap new_names chain s
    added-sets chain s e = elim (ChainRef_discrete chain (m.heap addr).chain) [
      | yes p ↦
          let same : new_home ≡ s = cc (
            e,
            p,
            lookup-insert_self ChainRef_discrete (m.heap addr).chain new_home m.chain_index,
          ) in
          subst₂ (SetInv m.heap new_names) (sym p) same new_home-SetInv
      | no p ↦ SetInv-insert m.heap m.name_index chain (m.heap addr).name addr s free (
          v.sets chain s (
            sym (
              lookup-insert_ne ChainRef_discrete (m.heap addr).chain chain new_home m.chain_index p)
            ∙ e))
    ]

    added_self : IsListed added (m.heap addr).name addr
    unfolding added EndpointSet.add
    added_self = record {
      named = refl;
      used = used;
      home = new_home;
      found = lookup-insert_self ChainRef_discrete (m.heap addr).chain new_home m.chain_index;
      held = lookup-insert_self String_discrete (m.heap addr).name addr old_home.items;
    }

    added_other :
        (name : String) (a : ℕ)
        → name ≢ (m.heap addr).name
        → IsListed m name a
        → IsListed added name a
    unfolding added EndpointSet.add set_or_new
    added_other name a other l = elim (ChainRef_discrete (m.heap a).chain (m.heap addr).chain) [
      | yes p ↦
          let at_home : lookup ChainRef_discrete (m.heap addr).chain m.chain_index ≡ some l.home =
            subst (λ c. lookup ChainRef_discrete c m.chain_index ≡ some l.home) p l.found in
          record {
            named = l.named;
            used = l.used;
            home = new_home;
            found =
                subst (λ c. lookup ChainRef_discrete c new_sets ≡ some new_home) (sym p)
                  (lookup-insert_self ChainRef_discrete (m.heap addr).chain new_home m.chain_index);
            held =
                rw (at_home, set_or_new)
                  (lookup-insert_ne String_discrete (m.heap addr).name name addr l.home.items other
                    ∙ l.held);
          }
      | no p ↦ record {
        named = l.named;
        used = l.used;
        home = l.home;
        found =
            lookup-insert_ne ChainRef_discrete (m.heap addr).chain (m.heap a).chain new_home
              m.chain_index p
            ∙ l.found;
        held = l.held;
      }
    ]

    added-Inv : Inv added
    unfolding added
    added-Inv = record {
      sets = added-sets;
      listed = λ name a e. elim (String_discrete name (m.heap addr).name) [
        | yes p ↦
            let same : addr ≡ a =
              cc (e, p, lookup-insert_self String_discrete (m.heap addr).name addr m.name_index) in
            subst₂ (IsListed added) (sym p) same added_self
        | no p ↦ added_other name a p (
            v.listed name a (
              sym (lookup-insert_ne String_discrete (m.heap addr).name name addr m.name_index p)
              ∙ e))
      ];
    }

-- `Add` keeps the indexes in agreement: for an endpoint in use that has no head yet, whether its name
-- was free or not.
pub add-Inv :
    (m : Multiplexer) (addr : ℕ)
    → addr < m.next
    → (m.heap addr).blockhead ≡ none
    → Inv m
    → Inv (add addr m).0
unfolding add
add-Inv m addr used bare v =
    elim (Option-cases (lookup String_discrete (m.heap addr).name m.name_index)) [
      | inl free ↦ rw (free, add) (unfold added in added-Inv m addr v free bare used)
      | inr (other, taken) ↦ rw (taken, add) v
    ]
