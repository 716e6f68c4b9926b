-- ===== src/Common/Texts.antt =====
-- Go strings as native texts, with equality as a decision.
use Prim.Native.String.{String}
use mathlib.Core.Path.{◌≡◌, refl}
use mathlib.Core.Logic.{◌↔◌}
use mathlib.Core.Bool.{Bool, true, false, false≢true}
use text.Mathlib.Text.{◌==◌}
use text.Mathlib.TextEquality.{eq_iff}

-- A Boolean test that holds exactly when `P` does decides `P`.
unfoldable pub of_test {ℓ} : {P : Type ℓ} (b : Bool) → ((b ≡ true) ↔ P) → Dec P
of_test true h = yes (h.0 refl)
of_test false h = no (λ p. false≢true (h.1 p))

unfoldable pub String_discrete : Discrete String
unfolding of_test
String_discrete s t = of_test (s == t) (eq_iff s t)

-- `s == ""`
unfoldable pub is_empty : String → Bool
is_empty String.[] = true
is_empty (String.◌∷◌ c s) = false
