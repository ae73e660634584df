-- ===== src/Base/Act/State.antt =====
-- Steps of a world that return a value and no error.
use mathlib.Core.Path.{◌≡◌, refl}
use mathlib.Core.Bool.{Bool, true, false}
use praetor.Base.Tests.{if◌then◌else◌}

abbrev pub State : Type 0 → Type 0 → Type 0
State W A = W → A × W

module _ {W : Type 0} where
  abbrev pub pure : {A : Type 0} → A → State W A
  pure a w = (a, w)

  infixl 5 ◌>>=◌ ◌>>◌
  abbrev pub ◌>>=◌ : {A B : Type 0} → State W A → (A → State W B) → State W B
  ◌>>=◌ m f w = f (m w).0 (m w).1

  abbrev pub ◌>>◌ : {A B : Type 0} → State W A → State W B → State W B
  ◌>>◌ m k w = k (m w).1

  -- `defer`: the step runs behind the action, whatever its value.
  abbrev pub finally : {A B : Type 0} → State W A → State W B → State W A
  finally m last w = ((m w).0, (last (m w).1).1)

-- Whatever the world, the value of the step has `Q`: one rule for each way to build a step.
pub record Yields {ℓ} {W A : Type 0} (Q : A → Type ℓ) (m : State W A) : Type ℓ where
  pub at : (w : W) → Q (m w).0

module _ {ℓ} {W A : Type 0} {Q : A → Type ℓ} where
  pub Yields-pure : (a : A) → Q a → Yields {W = W} Q (pure a)
  Yields-pure a h = record { at = λ w. h }

  pub Yields-if :
      (test : Bool) (then_step else_step : State W A)
      → Yields Q then_step
      → Yields Q else_step
      → Yields Q (if test then then_step else else_step)
  Yields-if true then_step else_step y n = y
  Yields-if false then_step else_step y n = n

  pub Yields-bind_value {κ} :
      {B : Type 0} (P : B → Type κ) (m : State W B) (f : B → State W A)
      → Yields P m
      → ((b : B) → P b → Yields Q (f b))
      → Yields Q (m >>= f)
  Yields-bind_value P m f ym yf = record { at = λ w. (yf (m w).0 (ym.at w)).at (m w).1 }

  pub Yields-bind :
      {B : Type 0} (m : State W B) (f : B → State W A)
      → ((b : B) → Yields Q (f b))
      → Yields Q (m >>= f)
  Yields-bind m f yf = record { at = λ w. (yf (m w).0).at (m w).1 }

  pub Yields-then : {B : Type 0} (m : State W B) (k : State W A) → Yields Q k → Yields Q (m >> k)
  Yields-then m k yk = record { at = λ w. yk.at (m w).1 }

  pub Yields-finally :
      {B : Type 0} (m : State W A) (last : State W B) → Yields Q m → Yields Q (finally m last)
  Yields-finally m last ym = record { at = λ w. ym.at w }

-- Whatever the world, what `P` says of it is kept.
pub record Preserves {ℓ} {W A : Type 0} (P : W → Type ℓ) (m : State W A) : Type ℓ where
  pub at : (w : W) → P w → P (m w).1

module _ {ℓ} {W A : Type 0} {P : W → Type ℓ} where
  pub Preserves-pure : (a : A) → Preserves P (pure a)
  Preserves-pure a = record { at = λ w p. p }

  -- Each branch may use the outcome of the test.
  pub Preserves-if :
      (test : Bool) (then_step else_step : State W A)
      → (test ≡ true → Preserves P then_step)
      → (test ≡ false → Preserves P else_step)
      → Preserves P (if test then then_step else else_step)
  Preserves-if true then_step else_step y n = y refl
  Preserves-if false then_step else_step y n = n refl

  pub Preserves-bind :
      {B : Type 0} (m : State W B) (f : B → State W A)
      → Preserves P m
      → ((b : B) → Preserves P (f b))
      → Preserves P (m >>= f)
  Preserves-bind m f pm pf = record { at = λ w p. (pf (m w).0).at (m w).1 (pm.at w p) }
