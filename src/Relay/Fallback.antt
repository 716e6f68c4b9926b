-- ===== src/Relay/Fallback.antt =====
-- Which endpoint a relay takes, with its second attempt.
use mathlib.Core.Bool.{false≢true}
use nodemux.Common.{
  ℕ, suc, ◌≤◌, String, Bool, true, false, ◌&&◌, ◌||◌, Option, none, some, List, ℤ, pos, negsuc,
  ltb_ℤ, All, Any, All-imp, All-both, Any-All, lookup, max_int, ◌≡◌, refl, sym, subst,
  if◌then◌else◌, ◌∙◌, inl, inr, Bool-cases, Outcome, done, panic, arith,
}
use nodemux.Chain.{ChainRef, ChainRef_discrete}
use nodemux.Endpoint.{Endpoint, available}
use nodemux.EndpointSet.{Heap, Entry, EndpointSet}
use nodemux.EndpointSet.Weights.{total}
use nodemux.Multiplexer.{Multiplexer, Runtime, IsGo, select_over_height, height_over}
use nodemux.Multiplexer.Invariant.{Inv}
use nodemux.Multiplexer.Choice.{IsChoice}
use nodemux.Multiplexer.Selection.{select_over_height-IsChoice}
use nodemux.Relay.{relay_over}

-- A choice ends with an endpoint or with none.
IsChoice-done :
    (test : Endpoint → Bool) (heap : Heap) (items : List Entry) (out : Outcome (Option ℕ))
    → IsChoice test heap items out
    → (found : Option ℕ) × (out ≡ done found) × IsChoice test heap items (done found)
IsChoice-done test heap items panic c = absurd c
IsChoice-done test heap items (done found) c = (found, refl, c)

-- Two choices, the second made where the first found none and the flag is set.
module _ (t u : Endpoint → Bool) (flag : Bool) (heap : Heap) (items : List Entry) where
  IsChoice-first :
      (addr : ℕ)
      → IsChoice t heap items (done (some addr))
      → IsChoice (λ ep. t ep || (flag && u ep)) heap items (done (some addr))
  IsChoice-first addr c = (ground (arith, c.0), c.1)

  IsChoice-second :
      (found : Option ℕ)
      → flag ≡ true
      → All (λ e. t (heap e.1) ≡ false) items
      → IsChoice u heap items (done found)
      → IsChoice (λ ep. t ep || (flag && u ep)) heap items (done found)
  IsChoice-second none set miss c = All-both _ _ _ items (λ e p q. ground arith) miss c
  IsChoice-second (some addr) set miss c = (ground (arith, c.0), c.1)

  IsChoice-neither :
      flag ≡ false
      → All (λ e. t (heap e.1) ≡ false) items
      → IsChoice (λ ep. t ep || (flag && u ep)) heap items (done none)
  IsChoice-neither unset miss = All-imp _ _ items (λ e p. ground arith) miss

-- The test of a relay: at the height asked for or, if that is positive, at 2 blocks below the tip.
unfoldable pub relayable : EndpointSet → String → ℤ → Endpoint → Bool
relayable s method over_height ep =
    available ep method (height_over s over_height)
    || (ltb_ℤ (pos 0) over_height && available ep method (height_over s (negsuc 1)))

module _ (rs : ℕ → Runtime) (m : Multiplexer) (chain : ChainRef) (method : String) (s : EndpointSet)
    (go : (n : ℕ) → IsGo (rs n)) (v : Inv m)
    (known : lookup ChainRef_discrete chain m.chain_index ≡ some s)
    (small : total m.heap s.items ≤ max_int) where
  attempt :
      (n : ℕ) (over_height : ℤ)
      → (found : Option ℕ) × (select_over_height (rs n) m chain method over_height ≡ done found)
        × IsChoice
            (λ ep. available ep method (height_over s over_height))
            m.heap
            s.items
            (done found)
  attempt n over_height =
      IsChoice-done (λ ep. available ep method (height_over s over_height)) m.heap s.items
        (select_over_height (rs n) m chain method over_height)
        (select_over_height-IsChoice (rs n) m chain method over_height s (go n) v known small)

  -- One attempt is enough for a height of 0 or less.
  pub relay_over_once :
      (fuel : ℕ) (over_height : ℤ)
      → ltb_ℤ (pos 0) over_height ≡ false
      → (found : Option ℕ) × (relay_over (suc fuel) rs m chain method over_height ≡ done found)
        × IsChoice
            (λ ep. available ep method (height_over s over_height))
            m.heap
            s.items
            (done found)
  unfolding relay_over
  relay_over_once fuel over_height low =
      let (found, e, c) = attempt fuel over_height in (found, rw e (stays found), c)
    where
      stays :
          (found : Option ℕ)
          → (elim found [
            | some addr ↦ done (some addr)
            | none ↦
                if ltb_ℤ (pos 0) over_height
                then relay_over fuel rs m chain method (negsuc 1)
                else done none
          ])
            ≡ done found
      stays none = rw low refl
      stays (some addr) = refl

  -- What follows the first attempt.
  IsChoice-again :
      (fuel : ℕ) (over_height : ℤ) (found : Option ℕ)
      → IsChoice (λ ep. available ep method (height_over s over_height)) m.heap s.items (done found)
      → IsChoice (relayable s method over_height) m.heap s.items (elim found [
        | some addr ↦ done (some addr)
        | none ↦
            if ltb_ℤ (pos 0) over_height
            then relay_over (suc fuel) rs m chain method (negsuc 1)
            else done none
      ])
  unfolding relayable
  IsChoice-again fuel over_height (some addr) c =
      IsChoice-first (λ ep. available ep method (height_over s over_height))
        (λ ep. available ep method (height_over s (negsuc 1))) (ltb_ℤ (pos 0) over_height) m.heap
        s.items addr c
  IsChoice-again fuel over_height none c =
      let t : Endpoint → Bool = λ ep. available ep method (height_over s over_height) in
      let u : Endpoint → Bool = λ ep. available ep method (height_over s (negsuc 1)) in
      let high = ltb_ℤ (pos 0) over_height in
      elim (Bool-cases high) [
        | inr unset ↦
            subst
              (λ b.
                IsChoice (relayable s method over_height) m.heap s.items
                  (if b then relay_over (suc fuel) rs m chain method (negsuc 1) else done none))
              (sym unset) (IsChoice-neither t u high m.heap s.items unset c)
        | inl set ↦
            let (found, e, c') = relay_over_once fuel (negsuc 1) refl in
            subst
              (λ b.
                IsChoice (relayable s method over_height) m.heap s.items
                  (if b then relay_over (suc fuel) rs m chain method (negsuc 1) else done none))
              (sym set)
              (subst (IsChoice (relayable s method over_height) m.heap s.items) (sym e)
                (IsChoice-second t u high m.heap s.items found set c c'))
      ]

  -- A relay on a chain that is known, in a multiplexer that is in order and whose weights add up to an
  -- `int`, ends within two attempts, without a panic. It takes an endpoint of the chain that is available
  -- for the method at the height or, if that is positive, at 2 blocks below the tip; and it takes none
  -- only if no endpoint of the chain is.
  pub relay_over-IsChoice :
      (fuel : ℕ) (over_height : ℤ)
      → IsChoice
          (relayable s method over_height)
          m.heap
          s.items
          (relay_over (suc (suc fuel)) rs m chain method over_height)
  unfolding relay_over
  relay_over-IsChoice fuel over_height =
      let (found, e, c) = attempt (suc fuel) over_height in
      rw e (IsChoice-again fuel over_height found c)

  -- If an endpoint of the chain is available for the method at the height asked for, under the same
  -- conditions, a relay takes one that is, at its first attempt.
  pub relay_over_first :
      (fuel : ℕ) (over_height : ℤ)
      → Any (λ e. available (m.heap e.1) method (height_over s over_height) ≡ true) s.items
      → (addr : ℕ) × (relay_over (suc fuel) rs m chain method over_height ≡ done (some addr))
        × (available (m.heap addr) method (height_over s over_height) ≡ true)
        × Any (λ e. e.1 ≡ addr) s.items
  unfolding relay_over
  relay_over_first fuel over_height there =
      let (found, e, c) = attempt fuel over_height in taken found e c
    where
      taken :
          (found : Option ℕ)
          → select_over_height (rs fuel) m chain method over_height ≡ done found
          → IsChoice
              (λ ep. available ep method (height_over s over_height))
              m.heap
              s.items
              (done found)
          → (addr : ℕ) × (relay_over (suc fuel) rs m chain method over_height ≡ done (some addr))
            × (available (m.heap addr) method (height_over s over_height) ≡ true)
            × Any (λ e. e.1 ≡ addr) s.items
      taken none e c =
          let (x, miss, hit) = Any-All _ _ s.items c there in absurd (false≢true (sym miss ∙ hit))
      taken (some addr) e c = (addr, rw e refl, c.0, c.1)
