-- ===== src/EndpointSet/Weights.antt =====
-- What the weight table holds once it is built.
use native.Mathlib.Nat.{add-zero, add_assoc}
use mathlib.Core.List.{Permᴰ}
use nodemux.Common.{
  ℕ, ◌+◌, ◌≤◌, ◌<◌, String, Option, none, some, List, [], ◌∷◌, ◌++◌, append_assoc, append-nil,
  if◌then◌else◌, pos, pos_part, leb_ℤ, add_int, add_int-pos, last?, last?-append, max_int, ◌≡◌,
  refl, sym, ap, ◌∙◌, inl, inr, subst, Bool-cases, arith,
}
use nodemux.Endpoint.{Endpoint}
use nodemux.EndpointSet.{Heap, Entry, Weight, weight_of, append_weight, weights_over}
use nodemux.EndpointSet.Search.{Rises}

-- The weight that counts for an endpoint: the configured one if it is positive, and else 100.
unfoldable pub share : Endpoint → ℕ
share ep = if leb_ℤ ep.config.weight (pos 0) then 100 else pos_part ep.config.weight

unfoldable pub healthy_share : Endpoint → ℕ
unfolding share
healthy_share ep = if ep.healthy then share ep else 0

-- The shares of the healthy endpoints, added up.
unfoldable pub total : Heap → List Entry → ℕ
total heap [] = 0
total heap ((name, addr) ∷ rest) = healthy_share (heap addr) + total heap rest

pub total-perm : (heap : Heap) {xs ys : List Entry} → Permᴰ xs ys → total heap xs ≡ total heap ys
unfolding total
total-perm heap Permᴰ.nil = refl
total-perm heap (Permᴰ.cons e p) =
    omega (arith, ap (λ x. healthy_share (heap x.1)) e, total-perm heap p)
total-perm heap (Permᴰ.swap e e') =
    omega (arith, ap (λ x. healthy_share (heap x.1)) e, ap (λ x. healthy_share (heap x.1)) e')
total-perm heap (Permᴰ.trans p q) = total-perm heap p ∙ total-perm heap q

-- The table that the shares call for: an entry for each healthy endpoint, in the order of the visit,
-- with the running sum of the shares up to and including its own.
unfoldable pub table : Heap → ℕ → List Entry → List Weight
table heap base [] = []
table heap base ((name, addr) ∷ rest) =
    let later = table heap (base + healthy_share (heap addr)) rest in
    if (heap addr).healthy
    then record {
      ep_name = (heap addr).name;
      aggregate_value = pos (base + healthy_share (heap addr));
    }
      ∷ later
    else later

-- The last aggregate is `base`, or there is none and `base` is 0.
abbrev pub Tops : Option Weight → ℕ → Type 0
Tops none base = base ≡ 0
Tops (some top) base = top.aggregate_value ≡ pos base

weight_of-share : (ep : Endpoint) → weight_of ep ≡ pos (share ep)
unfolding weight_of share
weight_of-share ep = ground arith

pub share_pos : (ep : Endpoint) → 0 < share ep
unfolding share
share_pos ep = ground arith

appended :
    (ep : Endpoint) (base : ℕ) (top : Option Weight)
    → Tops top base
    → base + share ep ≤ max_int
    → (elim top [ none ↦ weight_of ep | some w ↦ add_int w.aggregate_value (weight_of ep) ])
      ≡ pos (base + share ep)
appended ep base none h small = rw (weight_of-share ep, h) (ap pos (omega arith))
appended ep base (some w) h small = rw (weight_of-share ep, h) (add_int-pos base (share ep) small)

append_weight-table :
    (heap : Heap) (name : String) (addr base : ℕ) (ws : List Weight)
    → Tops (last? ws) base
    → base + healthy_share (heap addr) ≤ max_int
    → append_weight ws (heap addr) ≡ ws ++ table heap base ((name, addr) ∷ [])
unfolding append_weight table healthy_share
append_weight-table heap name addr base ws top small = elim (Bool-cases (heap addr).healthy) [
  | inl well ↦
      rw (well, append_weight, table)
        (rw (appended (heap addr) base (last? ws) top (ground arith)) refl)
  | inr ill ↦ rw (ill, append_weight, table) (sym (append-nil ws))
]

table-cons :
    (heap : Heap) (x : Entry) (base : ℕ) (rest : List Entry)
    → table heap base (x ∷ rest)
      ≡ table heap base (x ∷ []) ++ table heap (base + healthy_share (heap x.1)) rest
unfolding table
table-cons heap (name, addr) base rest = ground arith

append_weight-Tops :
    (ep : Endpoint) (base : ℕ) (ws : List Weight)
    → Tops (last? ws) base
    → base + healthy_share ep ≤ max_int
    → Tops (last? (append_weight ws ep)) (base + healthy_share ep)
unfolding append_weight healthy_share
append_weight-Tops ep base ws top small = elim (Bool-cases ep.healthy) [
  | inl well ↦
      rw (well, append_weight)
        (rw (last?-append ws _) (appended ep base (last? ws) top (ground arith)))
  | inr ill ↦ rw (ill, append_weight) (subst (Tops (last? ws)) (omega arith) top)
]

-- The loop of `resetWeights` builds the table that the shares call for, as long as the shares add up
-- to an `int`.
pub weights_over-table :
    (heap : Heap) (base : ℕ) (ws : List Weight) (order : List Entry)
    → Tops (last? ws) base
    → base + total heap order ≤ max_int
    → weights_over heap ws order ≡ ws ++ table heap base order
unfolding weights_over total
weights_over-table heap base ws [] top small = unfold table in sym (append-nil ws)
weights_over-table heap base ws ((name, addr) ∷ rest) top small =
    let ep = heap addr in
    let fits : base + healthy_share ep ≤ max_int = omega arith in
    weights_over-table heap (base + healthy_share ep) (append_weight ws ep) rest
      (append_weight-Tops ep base ws top fits) (omega arith)
    ∙ rw
        (
          append_weight-table heap name addr base ws top fits,
          table-cons heap (name, addr) base rest,
        )
        (append_assoc ws _ _)

total-append :
    (heap : Heap) (xs ys : List Entry) → total heap (xs ++ ys) ≡ total heap xs + total heap ys
unfolding total
total-append heap [] ys = omega arith
total-append heap (x ∷ xs) ys = omega (arith, total-append heap xs ys)

pub table-append :
    (heap : Heap) (base : ℕ) (xs ys : List Entry)
    → table heap base (xs ++ ys) ≡ table heap base xs ++ table heap (base + total heap xs) ys
unfolding total
table-append heap base [] ys = unfold table in rw add-zero
table-append heap base (x ∷ xs) ys = rw (
  table-cons heap x base (xs ++ ys),
  table-cons heap x base xs,
  table-append heap (base + healthy_share (heap x.1)) xs ys,
  append_assoc,
  add_assoc,
)

-- The aggregates of the table rise strictly.
pub table-Rises :
    (heap : Heap) (base : ℕ) (order : List Entry) → Rises (pos base) (table heap base order)
unfolding table healthy_share
table-Rises heap base [] = tt
table-Rises heap base ((name, addr) ∷ rest) = elim (Bool-cases (heap addr).healthy) [
  | inl well ↦
      let later = table-Rises heap (base + healthy_share (heap addr)) rest in
      rw well (omega (arith, share_pos (heap addr)), rw well at later)
  | inr ill ↦
      let later = table-Rises heap (base + healthy_share (heap addr)) rest in
      rw ill
        (subst (λ b. Rises (pos b) (table heap (base + 0) rest)) (omega arith) (rw ill at later))
]

pub weights_over-Tops :
    (heap : Heap) (base : ℕ) (ws : List Weight) (order : List Entry)
    → Tops (last? ws) base
    → base + total heap order ≤ max_int
    → Tops (last? (weights_over heap ws order)) (base + total heap order)
unfolding weights_over total
weights_over-Tops heap base ws [] top small = subst (Tops (last? ws)) (omega arith) top
weights_over-Tops heap base ws ((name, addr) ∷ rest) top small =
    let ep = heap addr in
    subst (Tops (last? (weights_over heap (append_weight ws ep) rest))) (omega arith) (
      weights_over-Tops heap (base + healthy_share ep) (append_weight ws ep) rest
        (append_weight-Tops ep base ws top (omega arith)) (omega arith))

pub top_value :
    (top : Option Weight) (base : ℕ)
    → Tops top base
    → (elim top [ none ↦ pos 0 | some w ↦ w.aggregate_value ]) ≡ pos base
top_value none base h = ap pos (sym h)
top_value (some w) base h = h
