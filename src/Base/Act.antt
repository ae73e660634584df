-- ===== src/Base/Act.antt =====
-- Actions on a world that may fail, and, in State, those that do not.
pub mod Keeps
pub mod State
pub mod Triples
use praetor.Base.Result.{Result, ok, err, ApiError}

-- An action returns a result, or an error, and the world; what was done before an error stays done.
abbrev pub Act : Type 0 → Type 0 → Type 0
Act W A = W → Result A × W

module _ {W : Type 0} where
  abbrev pub pure : {A : Type 0} → A → Act W A
  pure a w = (ok a, w)

  abbrev pub raise : {A : Type 0} → ApiError → Act W A
  raise e w = (err e, w)

  abbrev pub next : {A B : Type 0} → Result A → (A → Act W B) → Act W B
  next (ok a) f w = f a w
  next (err e) f w = (err e, w)

  infixl 5 ◌>>=◌ ◌>>◌
  abbrev pub ◌>>=◌ : {A B : Type 0} → Act W A → (A → Act W B) → Act W B
  ◌>>=◌ m f w = next (m w).0 f (m w).1

  abbrev pub ◌>>◌ : {B : Type 0} → Act W (Unit {0}) → Act W B → Act W B
  m >> k = m >>= λ _. k

  -- The result of an action as a value, for a caller that looks at the error.
  abbrev pub attempt : {A : Type 0} → Act W A → Act W (Result A)
  attempt m w = (ok (m w).0, (m w).1)

  -- A step of the world that returns a value and no error.
  abbrev pub step : {A : Type 0} → (W → A × W) → Act W A
  step f w = (ok (f w).0, (f w).1)
