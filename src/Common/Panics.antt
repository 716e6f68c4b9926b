-- ===== src/Common/Panics.antt =====
-- The result of Go code that may panic.
use mathlib.Core.Path.{◌≡◌, refl}
use mathlib.Core.Logic.{◌⊎◌, inl, inr}
use mathlib.Core.Option.{Option, none, some}

pub data Outcome {ℓ} (A : Type ℓ) : Type ℓ where
  done : A → Outcome A
  panic : Outcome A

infixl 5 ◌>>=◌
abbrev pub ◌>>=◌ {ℓ κ} : {A : Type ℓ} {B : Type κ} → Outcome A → (A → Outcome B) → Outcome B
done a >>= f = f a
panic >>= f = panic

-- A map read whose miss is a panic.
abbrev pub or_panic {ℓ} : {A : Type ℓ} → Option A → Outcome A
or_panic none = panic
or_panic (some a) = done a

pub done-inj {ℓ} : {A : Type ℓ} {a b : A} → done a ≡ done b → a ≡ b
done-inj h = cc

pub Outcome-cases {ℓ} : {A : Type ℓ} (x : Outcome A) → (x ≡ panic) ⊎ ((a : A) × (x ≡ done a))
Outcome-cases (done a) = inr (a, refl)
Outcome-cases panic = inl refl

-- What ends without a panic has a first part that does.
pub bind-done {ℓ κ} :
    {A : Type ℓ} {B : Type κ} (x : Outcome A) (f : A → Outcome B) (b : B)
    → (x >>= f) ≡ done b
    → (a : A) × (x ≡ done a) × (f a ≡ done b)
bind-done (done a) f b h = (a, refl, h)
bind-done panic f b h = absurd cc
