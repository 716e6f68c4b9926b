-- ===== src/Chain/Text.antt =====
-- Parsing a chain and printing it.
use Prim.Native.Char.{code}
use Prim.Native.String.{◌++◌}
use Prim.Native.String.append
use text.Mathlib.TextEquality.{Char-path}
use nodemux.Common.{
  String, Bool, false, ◌||◌, Option, some, ◌≡◌, refl, ◌==◌, arith, inl, inr, Bool-cases,
  Option-cases,
}
use nodemux.Chain.{ChainRef, split_slash, parse_chain, to_string}

-- The text holds a "/".
unfoldable pub has_slash : String → Bool
has_slash String.[] = false
has_slash (String.◌∷◌ c s) = (code c == b'/') || has_slash s

pub slash-append : (t : String) → "/" ++ t ≡ String.◌∷◌ "/" t
slash-append t = rw (append.cons "/" String.[] t, append.nil t)

-- The first "/" splits, so a text before it with none stays whole.
pub split_slash-append :
    (s t : String) → has_slash s ≡ false → split_slash (s ++ "/" ++ t) ≡ some (s, t)
unfolding split_slash has_slash
split_slash-append String.[] t h = rw (append.nil ("/" ++ t), slash-append t) refl
split_slash-append (String.◌∷◌ c s) t h =
    rw (append.cons c s ("/" ++ t)) (ground (arith, split_slash-append s t))

-- A reference whose namespace holds no "/" is parsed back from its text.
pub parse_chain-to_string :
    (c : ChainRef) → has_slash c.namespace ≡ false → parse_chain (to_string c) ≡ some c
unfolding parse_chain to_string
parse_chain-to_string c h = rw (split_slash-append c.namespace c.network h, parse_chain) refl

split_slash_joins :
    (s a b : String) → split_slash s ≡ some (a, b) → (a ++ "/" ++ b ≡ s) × (has_slash a ≡ false)
unfolding split_slash has_slash
split_slash_joins String.[] a b h = cc
split_slash_joins (String.◌∷◌ c s) a b h = elim (Bool-cases (code c == b'/')) [
  | inl here ↦
      let e : Path (Option (String × String)) (some (String.[], s)) (some (a, b)) = rw here at h in
      let p : String.[] ≡ a = cc in
      let q : s ≡ b = cc in
      let slash : c ≡ "/" = Char-path c "/" (ground arith) in
      rw (← p, ← q) (rw (append.nil ("/" ++ s), slash-append s, slash) refl, refl)
  | inr there ↦ elim (Option-cases (split_slash s)) [
    | inl e ↦ absurd (ground arith)
    | inr ((x, y), e) ↦
        let (joined, clean) = split_slash_joins s x y e in
        let p : String.◌∷◌ c x ≡ a = ground arith in
        let q : y ≡ b = ground arith in
        rw (← p, ← q) (rw (append.cons c x ("/" ++ y), joined) refl, rw (there, has_slash) clean)
  ]
]

-- A text that parses prints back as it was, and the namespace of its reference holds no "/".
pub to_string-parse_chain :
    (s : String) (c : ChainRef)
    → parse_chain s ≡ some c
    → (to_string c ≡ s) × (has_slash c.namespace ≡ false)
unfolding parse_chain to_string
to_string-parse_chain s c h = elim (Option-cases (split_slash s)) [
  | inl e ↦ absurd (ground arith)
  | inr ((a, b), e) ↦
      let (p, q) = split_slash_joins s a b e in
      let f : record { namespace = a; network = b } ≡ c = ground arith in rw (← f) (p, q)
]
