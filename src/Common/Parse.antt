-- ===== src/Common/Parse.antt =====
-- Go's `strconv.Atoi`, and `ParseInt` in base 10 for 64 bits.
use Prim.Native.Nat.{ℕ, ◌+◌, ◌-◌, ◌*◌}
use Prim.Native.String.{String}
use Prim.Native.Char.{Char, code}
use mathlib.Core.Option.{Option, none, some}
use mathlib.Core.Bool.{◌&&◌}
use nodemux.Common.Tests.{leb, ◌==◌, if◌then◌else◌}
use nodemux.Common.Ints.{ℤ, pos, sub_ℕ, max_int}

unfoldable pub digit_of : Char → Option ℕ
digit_of c = if leb 48 (code c) && leb (code c) 57 then some (code c - 48) else none

unfoldable pub digits_from : ℕ → String → Option ℕ
unfolding digit_of
digits_from n String.[] = some n
digits_from n (String.◌∷◌ c s) = elim (digit_of c) [
  | none ↦ none
  | some d ↦ digits_from (10 * n + d) s
]

-- At least one digit.
unfoldable pub number_of : String → Option ℕ
unfolding digits_from
number_of String.[] = none
number_of (String.◌∷◌ c s) = digits_from 0 (String.◌∷◌ c s)

unfoldable pub signed : String → Option ℤ
unfolding number_of
signed text = elim (number_of text) [
  | none ↦ none
  | some n ↦ if leb n max_int then some (pos n) else none
]

unfoldable pub negated : String → Option ℤ
unfolding number_of
negated text = elim (number_of text) [
  | none ↦ none
  | some n ↦ if leb n (max_int + 1) then some (sub_ℕ 0 n) else none
]

-- `none` is an error: no number, or one that is not an `int`.
unfoldable pub atoi : String → Option ℤ
unfolding signed negated
atoi String.[] = none
atoi (String.◌∷◌ c s) =
    if code c == b'-'
    then negated s
    else if code c == b'+'
    then signed s
    else signed (String.◌∷◌ c s)
