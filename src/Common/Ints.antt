-- ===== src/Common/Ints.antt =====
-- Go's `int`, which has 64 bits here: an integer, with the sum wrapped into its range.
use Prim.Native.Nat.{ℕ, suc, ◌+◌, ◌-◌, ◌≤◌, ◌<◌}
use mathlib.Core.Path.{◌≡◌}
use mathlib.Core.Bool.{Bool, true}
use native.Mathlib.Omega.{arith}
use nodemux.Common.Tests.{ltb, leb, ◌==◌, if◌then◌else◌}

-- `negsuc n` is -(n + 1).
pub data ℤ : Type 0 where
  pos : ℕ → ℤ
  negsuc : ℕ → ℤ

abbrev pub pos_part : ℤ → ℕ
pos_part (pos n) = n
pos_part (negsuc n) = 0

abbrev pub neg_part : ℤ → ℕ
neg_part (pos n) = 0
neg_part (negsuc n) = suc n

abbrev pub sub_ℕ : ℕ → ℕ → ℤ
sub_ℕ a b = if leb b a then pos (a - b) else negsuc (b - a - 1)

infixl 65 ◌+ℤ◌
infix 50 ◌≤ℤ◌ ◌<ℤ◌
unfoldable pub ◌+ℤ◌ : ℤ → ℤ → ℤ
a +ℤ b = sub_ℕ (pos_part a + pos_part b) (neg_part a + neg_part b)

abbrev pub ◌≤ℤ◌ : ℤ → ℤ → Type 0
a ≤ℤ b = pos_part a + neg_part b ≤ pos_part b + neg_part a

abbrev pub ◌<ℤ◌ : ℤ → ℤ → Type 0
a <ℤ b = pos_part a + neg_part b < pos_part b + neg_part a

abbrev pub ltb_ℤ : ℤ → ℤ → Bool
ltb_ℤ a b = ltb (pos_part a + neg_part b) (pos_part b + neg_part a)

abbrev pub leb_ℤ : ℤ → ℤ → Bool
leb_ℤ a b = leb (pos_part a + neg_part b) (pos_part b + neg_part a)

abbrev pub eqb_ℤ : ℤ → ℤ → Bool
eqb_ℤ a b = pos_part a + neg_part b == pos_part b + neg_part a

-- math.MaxInt64
abbrev pub max_int : ℕ
max_int = 0x7fff_ffff_ffff_ffff

-- The value that a 64-bit `int` holds after an operation whose exact result lies within 2 ^ 64
-- of its range: once 2 ^ 64 less, or once 2 ^ 64 more.
unfoldable pub wrap_int : ℤ → ℤ
unfolding ◌+ℤ◌
wrap_int z =
    if ltb_ℤ (pos max_int) z
    then z +ℤ negsuc 0xffff_ffff_ffff_ffff
    else if ltb_ℤ z (negsuc max_int)
    then z +ℤ pos 0x1_0000_0000_0000_0000
    else z

-- Go's `a + b` on `int`.
unfoldable pub add_int : ℤ → ℤ → ℤ
unfolding wrap_int ◌+ℤ◌
add_int a b = wrap_int (a +ℤ b)

pub add_int-pos : (m n : ℕ) → m + n ≤ max_int → add_int (pos m) (pos n) ≡ pos (m + n)
unfolding add_int
add_int-pos m n h = ground arith

-- The signs and parts decide an integer.
pub eq_of_parts : (a b : ℤ) → pos_part a + neg_part b ≡ pos_part b + neg_part a → a ≡ b
eq_of_parts a b h = ground arith

pub eqb_ℤ→eq : (a b : ℤ) → eqb_ℤ a b ≡ true → a ≡ b
eqb_ℤ→eq a b h = ground arith
