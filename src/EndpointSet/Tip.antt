-- ===== src/EndpointSet/Tip.antt =====
-- The height that `maxTipHeight` is meant to hold: the highest block head of the set, and 0 if there
-- is none above it.
use mathlib.Core.List.{Permᴰ}
use nodemux.Common.{
  Option, none, some, List, [], ◌∷◌, ℤ, pos, ◌≤ℤ◌, All, Any, All-perm, Any-perm, eq_of_parts, ◌≡◌,
  refl, sym, ◌∙◌, ◌⊎◌, inl, inr, subst, arith,
}
use nodemux.Endpoint.{Block}
use nodemux.EndpointSet.{Heap, Entry, max_height_over, raise_height}

abbrev pub IsUnder : ℤ → Option Block → Type 0
IsUnder tip none = Unit {0}
IsUnder tip (some block) = block.height ≤ℤ tip

abbrev pub IsAt : ℤ → Option Block → Type 0
IsAt tip none = ⊥
IsAt tip (some block) = block.height ≡ tip

-- The tip bounds every head, and is 0 or the height of a head.
pub record IsTip (heap : Heap) (items : List Entry) (tip : ℤ) : Type 0 where
  pub nonneg : pos 0 ≤ℤ tip
  pub upper : All (λ e. IsUnder tip (heap e.1).blockhead) items
  pub attained : (tip ≡ pos 0) ⊎ Any (λ e. IsAt tip (heap e.1).blockhead) items

-- There is only one such height.
under_at :
    (heap : Heap) (t u : ℤ) (items : List Entry)
    → All (λ e. IsUnder t (heap e.1).blockhead) items
    → Any (λ e. IsAt u (heap e.1).blockhead) items
    → u ≤ℤ t
under_at heap t u [] all any = absurd any
under_at heap t u (e ∷ items) all (inl here) = under_at_head t u (heap e.1).blockhead all.0 here
  where
    under_at_head : (t u : ℤ) (head : Option Block) → IsUnder t head → IsAt u head → u ≤ℤ t
    under_at_head t u none below at = absurd at
    under_at_head t u (some block) below at = ground arith
under_at heap t u (e ∷ items) all (inr there) = under_at heap t u items all.1 there

tip_le :
    (heap : Heap) (items : List Entry) (t u : ℤ) → IsTip heap items t → IsTip heap items u → u ≤ℤ t
tip_le heap items t u v w = elim w.attained [
  | inl e ↦ rw e v.nonneg
  | inr any ↦ under_at heap t u items v.upper any
]

pub IsTip-unique :
    (heap : Heap) (items : List Entry) (t u : ℤ) → IsTip heap items t → IsTip heap items u → t ≡ u
IsTip-unique heap items t u v w =
    eq_of_parts t u (omega (arith, tip_le heap items t u v w, tip_le heap items u t w v))

pub IsTip-perm :
    (heap : Heap) (tip : ℤ) {xs ys : List Entry}
    → Permᴰ xs ys
    → IsTip heap xs tip
    → IsTip heap ys tip
IsTip-perm heap tip p v = record {
  nonneg = v.nonneg;
  upper = All-perm _ p v.upper;
  attained = elim v.attained [ inl e ↦ inl e | inr any ↦ inr (Any-perm _ p any) ];
}

-- What the loop of `resetMaxTipHeight` has when it has seen a part of the set, from height `from` on.
record Reaches (heap : Heap) (from : ℤ) (items : List Entry) (to : ℤ) : Type 0 where
  grows : from ≤ℤ to
  upper : All (λ e. IsUnder to (heap e.1).blockhead) items
  attained : (to ≡ from) ⊎ Any (λ e. IsAt to (heap e.1).blockhead) items

raise_height_cases :
    (from : ℤ) (head : Option Block)
    → (from ≤ℤ raise_height from head)
      × ((to : ℤ) → raise_height from head ≤ℤ to → IsUnder to head)
      × ((raise_height from head ≡ from) ⊎ IsAt (raise_height from head) head)
unfolding raise_height
raise_height_cases from none = (omega arith, λ to h. tt, inl refl)
raise_height_cases from (some block) = (ground arith, λ to h. ground arith, ground arith)

max_height_over-Reaches :
    (heap : Heap) (from : ℤ) (items : List Entry)
    → Reaches heap from items (max_height_over heap from items)
unfolding max_height_over
max_height_over-Reaches heap from [] = record {
  grows = omega arith;
  upper = tt;
  attained = inl refl;
}
max_height_over-Reaches heap from ((name, addr) ∷ rest) =
    let head = (heap addr).blockhead in
    let later = max_height_over-Reaches heap (raise_height from head) rest in
    let (grows, under, source) = raise_height_cases from head in
    record {
      grows = omega (arith, later.grows);
      upper = (under (max_height_over heap (raise_height from head) rest) later.grows, later.upper);
      attained = elim later.attained [
        | inr any ↦ inr (inr any)
        | inl e ↦ elim source [
          | inl same ↦ inl (e ∙ same)
          | inr at ↦ inr (inl (subst (λ t. IsAt t head) (sym e) at))
        ]
      ];
    }

pub max_height_over-IsTip :
    (heap : Heap) (items : List Entry) → IsTip heap items (max_height_over heap (pos 0) items)
max_height_over-IsTip heap items =
    let r = max_height_over-Reaches heap (pos 0) items in
    record { nonneg = r.grows; upper = r.upper; attained = r.attained }
