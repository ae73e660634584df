-- ===== src/Base/Act/Triples.antt =====
-- What holds behind an action: one rule for each way to build an action.
use praetor.Base.Tests.{if◌then◌else◌}
use mathlib.Core.Path.{◌≡◌, refl}
use mathlib.Core.Bool.{Bool, true, false}
use praetor.Base.Result.{Result, ok, err, ApiError}
use praetor.Base.Act.{Act, pure, next, ◌>>=◌}

-- `Q` of the value and the world where there is one, and `R` of the world behind an error.
abbrev pub Post {ℓ} : {W A : Type 0} → (A → W → Type ℓ) → (W → Type ℓ) → Result A → W → Type ℓ
Post Q R (ok a) w = Q a w
Post Q R (err e) w = R w

-- From `P`, the action comes to `Q`, or fails with `R`.
pub record Triple {W A : Type 0} (P : W → Type 0) (m : Act W A) (Q : A → W → Type 0)
    (R : W → Type 0) : Type 0 where
  pub at : (w : W) → P w → Post Q R (m w).0 (m w).1

module _ {W A : Type 0} where
  Post-result :
      (Q : A → W → Type 0) (R : W → Type 0) (r : Result A) (w : W)
      → ((a : A) → r ≡ ok a → Q a w)
      → ((e : ApiError) → r ≡ err e → R w)
      → Post Q R r w
  Post-result Q R (ok a) w good bad = good a refl
  Post-result Q R (err e) w good bad = bad e refl

module _ {W A : Type 0} {P : W → Type 0} {Q : A → W → Type 0} {R : W → Type 0} where
  pub Triple-pure : (a : A) → ((w : W) → P w → Q a w) → Triple P (pure a) Q R
  Triple-pure a h = record { at = λ w p. h w p }

  pub Triple-if :
      (test : Bool) (then_act else_act : Act W A)
      → (test ≡ true → Triple P then_act Q R)
      → (test ≡ false → Triple P else_act Q R)
      → Triple P (if test then then_act else else_act) Q R
  Triple-if true then_act else_act when_true when_false = when_true refl
  Triple-if false then_act else_act when_true when_false = when_false refl

  -- A call, by what it does where it succeeds and where it fails.
  pub Triple-call :
      (m : Act W A)
      → ((w : W) (a : A) → P w → (m w).0 ≡ ok a → Q a (m w).1)
      → ((w : W) (e : ApiError) → P w → (m w).0 ≡ err e → R (m w).1)
      → Triple P m Q R
  Triple-call m good bad = record {
    at = λ w p. Post-result Q R (m w).0 (m w).1 (λ a e. good w a p e) (λ e h. bad w e p h);
  }

module _ {W A B : Type 0} where
  Triple-next :
      (Q : A → W → Type 0) (R : W → Type 0) {S : B → W → Type 0} (r : Result A) (w : W)
      (f : A → Act W B)
      → Post Q R r w
      → ((a : A) → Triple (Q a) (f a) S R)
      → Post S R (next r f w).0 (next r f w).1
  Triple-next Q R (ok a) w f q k = (k a).at w q
  Triple-next Q R (err e) w f q k = q

module _ {W A B : Type 0} {P : W → Type 0} {Q : A → W → Type 0} {R : W → Type 0} where
  pub Triple-bind :
      {S : B → W → Type 0} (m : Act W A) (f : A → Act W B)
      → Triple P m Q R
      → ((a : A) → Triple (Q a) (f a) S R)
      → Triple P (m >>= f) S R
  Triple-bind m f t k = record { at = λ w p. Triple-next Q R (m w).0 (m w).1 f (t.at w p) k }
