-- ===== src/Chain.antt =====
-- core/chain.go: chain references and their text form "namespace/network".
pub mod Text
use Prim.Native.Char.{Char, code}
use nodemux.Common.{
  String, Bool, ◌||◌, Option, none, some, ◌≡◌, refl, ap₂, ite, ◌==◌, if◌then◌else◌, is_empty,
  String_discrete, Outcome, or_panic, arith,
}
use Prim.Native.String.{◌++◌}
use mathlib.Core.Option as Opt

pub record ChainRef : Type 0 where
  pub namespace : String
  pub network : String

-- Two references are equal when both texts are, as Go compares structs.
unfoldable pub ChainRef_discrete : Discrete ChainRef
unfolding String_discrete
ChainRef_discrete a b = elim (String_discrete a.namespace b.namespace) [
  | yes p ↦ elim (String_discrete a.network b.network) [
    | yes q ↦ yes (λ i. record { namespace = p i; network = q i })
    | no q ↦ no (λ e. q (λ i. (e i).network))
  ]
  | no p ↦ no (λ e. p (λ i. (e i).namespace))
]

-- `strings.SplitN(s, "/", 2)`, where it has two parts: what stands before and after the first "/".
unfoldable pub split_slash : String → Option (String × String)
split_slash String.[] = none
split_slash (String.◌∷◌ c s) =
    let rest = split_slash s in
    if code c == b'/'
    then some (String.[], s)
    else (elim rest [ none ↦ none | some (a, b) ↦ some (String.◌∷◌ c a, b) ])

-- `none` is the error "invalid chain format".
unfoldable pub parse_chain : String → Option ChainRef
unfolding split_slash
parse_chain chain_repr = elim (split_slash chain_repr) [
  | none ↦ none
  | some (namespace, network) ↦ some (record { namespace = namespace; network = network })
]

unfoldable pub must_parse_chain : String → Outcome ChainRef
unfolding parse_chain
must_parse_chain chain_repr = or_panic (parse_chain chain_repr)

-- `ChainRef.String`
unfoldable pub to_string : ChainRef → String
to_string c = c.namespace ++ "/" ++ c.network

-- `ChainRef.Empty`
unfoldable pub is_empty_chain : ChainRef → Bool
is_empty_chain c = is_empty c.namespace || is_empty c.network
