-- ===== src/Endpoint/Availability.antt =====
-- When an endpoint may serve a request.
use nodemux.Common.{
  String, true, false, ◌&&◌, Option, none, some, ◌≡◌, ◌⊎◌, ◌↔◌, ℤ, pos, ◌≤ℤ◌, ltb_ℤ, arith,
}
use nodemux.Endpoint.{Endpoint, Block, available, is_behind, is_skipped}

-- The block head, or its absence, satisfies a request for a height; a height of 0 or less asks for
-- nothing.
abbrev pub HasReached : Option Block → ℤ → Type 0
HasReached none height = height ≤ℤ pos 0
HasReached (some block) height = (height ≤ℤ pos 0) ⊎ (height ≤ℤ block.height)

reached_iff :
    (head : Option Block) (height : ℤ)
    → ((ltb_ℤ (pos 0) height && is_behind head height) ≡ false) ↔ HasReached head height
unfolding is_behind
reached_iff none height = ground arith
reached_iff (some block) height = (λ h. ground arith, λ h. ground arith)

-- An endpoint is available exactly when it is healthy, has reached the height, if one is asked for, and
-- does not skip the method.
pub available_iff :
    (ep : Endpoint) (method : String) (height : ℤ)
    → (available ep method height ≡ true) ↔ (
        (ep.healthy ≡ true)
        × HasReached ep.blockhead height
        × (is_skipped ep.skip_methods method ≡ false))
unfolding available
available_iff ep method height = (
  λ h. (ground arith, (reached_iff ep.blockhead height).0 (ground arith), ground arith),
  λ h. ground (arith, (reached_iff ep.blockhead height).1 h.1),
)

-- An endpoint that is available for a method at a height is available for it at a lower one.
pub available_mono :
    (ep : Endpoint) (method : String) (low high : ℤ)
    → low ≤ℤ high
    → available ep method high ≡ true
    → available ep method low ≡ true
unfolding available is_behind
available_mono ep method low high h a = ground arith
