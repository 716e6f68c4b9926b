-- ===== src/Sync/Head.antt =====
-- A new block head and the tip of its set.
use nodemux.Common.{
  ℕ, ℤ, ltb_ℤ, ◌≤ℤ◌, Bool, true, false, Option, none, some, List, All, Any, All-imp, Any-imp,
  eq_of_parts, ◌≡◌, refl, sym, ap, ◌∙◌, subst, ◌⊎◌, inl, inr, Bool-cases, arith,
}
use nodemux.Endpoint.{Block}
use nodemux.EndpointSet.{Heap, Entry, EndpointSet, reset_max_tip_height}
use nodemux.EndpointSet.Tip.{IsTip, IsUnder, IsAt, IsTip-perm, max_height_over-IsTip}
use nodemux.Multiplexer.{Runtime, IsGo, update}
use nodemux.Sync.{height_changed, update_tip}
use nodemux.Sync.Store.{update_cases, update_self}

IsUnder-mono : (t u : ℤ) (head : Option Block) → t ≤ℤ u → IsUnder t head → IsUnder u head
IsUnder-mono t u none h b = tt
IsUnder-mono t u (some block) h b = omega arith

-- A head at the tip that does not fall, and does not pass the tip, is at the tip still.
at_kept :
    (tip : ℤ) (head : Option Block) (block : Block)
    → height_changed head block ≡ false
    → block.height ≤ℤ tip
    → IsAt tip head
    → block.height ≡ tip
unfolding height_changed
at_kept tip none block kept low at = absurd at
at_kept tip (some old) block kept low at = eq_of_parts block.height tip (ground arith)

-- The heap once a head is written.
abbrev pub new_heap : Heap → ℕ → Block → Heap
new_heap heap addr block = update heap addr (record (heap addr) { blockhead = some block })

head_cases :
    (heap : Heap) (addr : ℕ) (block : Block) (a : ℕ)
    → ((a ≡ addr) × ((new_heap heap addr block a).blockhead ≡ some block))
      ⊎ ((new_heap heap addr block a).blockhead ≡ (heap a).blockhead)
head_cases heap addr block a =
    elim (update_cases heap addr (record (heap addr) { blockhead = some block }) a) [
      | inl (p, e) ↦ inl (p, ap (λ x. x.blockhead) e)
      | inr (p, e) ↦ inr (ap (λ x. x.blockhead) e)
    ]

module _ (heap : Heap) (addr : ℕ) (block : Block) (items : List Entry) where
  new_upper :
      (t u : ℤ)
      → t ≤ℤ u
      → block.height ≤ℤ u
      → All (λ e. IsUnder t (heap e.1).blockhead) items
      → All (λ e. IsUnder u (new_heap heap addr block e.1).blockhead) items
  new_upper t u h b = All-imp _ _ items λ e under. elim (head_cases heap addr block e.1) [
    | inl (p, q) ↦ subst (IsUnder u) (sym q) b
    | inr q ↦ subst (IsUnder u) (sym q) (IsUnder-mono t u (heap e.1).blockhead h under)
  ]

  -- The tip rises to a head above it.
  raised-IsTip :
      (tip : ℤ)
      → ltb_ℤ tip block.height ≡ true
      → Any (λ e. e.1 ≡ addr) items
      → IsTip heap items tip
      → IsTip (new_heap heap addr block) items block.height
  raised-IsTip tip above inside v = record {
    nonneg = ground (arith, v.nonneg);
    upper = new_upper tip block.height (ground arith) (omega arith) v.upper;
    attained = inr (
        Any-imp _ _ items
          (λ e p.
            subst (IsAt block.height)
              (sym (
                ap (λ a. (new_heap heap addr block a).blockhead) p
                ∙ ap (λ x. x.blockhead)
                    (update_self heap addr (record (heap addr) { blockhead = some block }))))
              refl)
          inside);
  }

  -- The tip stays above a head that has not fallen.
  kept-IsTip :
      (tip : ℤ)
      → height_changed (heap addr).blockhead block ≡ false
      → ltb_ℤ tip block.height ≡ false
      → IsTip heap items tip
      → IsTip (new_heap heap addr block) items tip
  kept-IsTip tip kept below v = record {
    nonneg = v.nonneg;
    upper = new_upper tip tip (omega arith) (ground arith) v.upper;
    attained = elim v.attained [
      | inl p ↦ inl p
      | inr any ↦ inr (
          Any-imp _ _ items
            (λ e at. elim (head_cases heap addr block e.1) [
              | inl (p, q) ↦ subst (IsAt tip) (sym q) (
                  at_kept tip (heap addr).blockhead block kept (ground arith)
                    (subst (λ a. IsAt tip (heap a).blockhead) p at))
              | inr q ↦ subst (IsAt tip) (sym q) at
            ])
            any)
    ];
  }

-- If the tip is the tip of a set's endpoints, then after the head of one of them is replaced the updated
-- tip is so again, whether the head rose, stayed or fell.
pub update_tip-IsTip :
    (r : Runtime) (heap : Heap) (addr : ℕ) (block : Block) (s : EndpointSet)
    → IsGo r
    → Any (λ e. e.1 ≡ addr) s.items
    → IsTip heap s.items s.max_tip_height
    → IsTip
        (new_heap heap addr block)
        s.items
        (update_tip r
          (new_heap heap addr block)
          (height_changed (heap addr).blockhead block)
          block
          s).max_tip_height
unfolding update_tip reset_max_tip_height
update_tip-IsTip r heap addr block s go inside tip =
    elim (Bool-cases (height_changed (heap addr).blockhead block)) [
      | inl fell ↦ rw fell (
          IsTip-perm _ _ (go.visits_all s.items)
            (max_height_over-IsTip (new_heap heap addr block) (r.visit s.items)))
      | inr kept ↦ elim (Bool-cases (ltb_ℤ s.max_tip_height block.height)) [
        | inl above ↦
            rw (kept, above)
              (raised-IsTip heap addr block s.items s.max_tip_height above inside tip)
        | inr below ↦
            rw (kept, below) (kept-IsTip heap addr block s.items s.max_tip_height kept below tip)
      ]
    ]

pub update_tip_keeps :
    (r : Runtime) (heap : Heap) (changed : Bool) (block : Block) (s : EndpointSet)
    → ((update_tip r heap changed block s).items ≡ s.items)
      × ((update_tip r heap changed block s).weights ≡ s.weights)
unfolding update_tip reset_max_tip_height
update_tip_keeps r heap changed block s = ground arith
