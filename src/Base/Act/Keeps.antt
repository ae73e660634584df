-- ===== src/Base/Act/Keeps.antt =====
-- What actions keep of the world: one rule for each way to build an action.
use praetor.Base.Tests.{if◌then◌else◌}
use mathlib.Core.Path.{◌≡◌, refl}
use mathlib.Core.Bool.{Bool, true, false}
use praetor.Base.Result.{Result, ok, err, ApiError}
use praetor.Base.Act.{Act, pure, raise, next, attempt, step, ◌>>=◌}

-- Whatever the outcome, `m` keeps `P`.
pub record Keeps {W A : Type 0} (P : W → Type 0) (m : Act W A) : Type 0 where
  pub at : (w : W) → P w → P (m w).1

module _ {W A : Type 0} {P : W → Type 0} where
  pub Keeps-pure : (a : A) → Keeps P (pure a)
  Keeps-pure a = record { at = λ w h. h }

  pub Keeps-raise : (e : ApiError) → Keeps P (raise {A = A} e)
  Keeps-raise e = record { at = λ w h. h }

  -- A value that is computed beside the world.
  pub Keeps-value : (r : Result A) → Keeps P (λ w. (r, w))
  Keeps-value r = record { at = λ w h. h }

  pub Keeps-attempt : (m : Act W A) → Keeps P m → Keeps P (attempt m)
  Keeps-attempt m k = record { at = λ w h. k.at w h }

  pub Keeps-call : (m : Act W A) → ((w : W) → P w → P (m w).1) → Keeps P m
  Keeps-call m k = record { at = k }

  pub Keeps-step : (f : W → A × W) → ((w : W) → P w → P (f w).1) → Keeps P (step f)
  Keeps-step f k = record { at = λ w h. k w h }

  -- Each branch may use the outcome of the test.
  pub Keeps-if :
      (test : Bool) (then_act else_act : Act W A)
      → (test ≡ true → Keeps P then_act)
      → (test ≡ false → Keeps P else_act)
      → Keeps P (if test then then_act else else_act)
  Keeps-if true then_act else_act when_true when_false = when_true refl
  Keeps-if false then_act else_act when_true when_false = when_false refl

module _ {W A B : Type 0} {P : W → Type 0} where
  Keeps-next :
      (r : Result A) (f : A → Act W B) → ((a : A) → r ≡ ok a → Keeps P (f a)) → Keeps P (next r f)
  Keeps-next (ok a) f k = record { at = λ w h. (k a refl).at w h }
  Keeps-next (err e) f k = record { at = λ w h. h }

  -- What follows an action may use what the action returned.
  pub Keeps-bind_result :
      (m : Act W A) (f : A → Act W B)
      → Keeps P m
      → ((w : W) (a : A) → (m w).0 ≡ ok a → Keeps P (f a))
      → Keeps P (m >>= f)
  Keeps-bind_result m f km kf = record {
    at = λ w h. (Keeps-next (m w).0 f (λ a e. kf w a e)).at (m w).1 (km.at w h);
  }

  pub Keeps-bind :
      (m : Act W A) (f : A → Act W B) → Keeps P m → ((a : A) → Keeps P (f a)) → Keeps P (m >>= f)
  Keeps-bind m f km kf = Keeps-bind_result m f km (λ w a e. kf a)
