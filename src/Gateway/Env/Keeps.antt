-- ===== src/Gateway/Env/Keeps.antt =====
-- What actions keep of the world: one rule for each way to build an action.
use praetor.Base.{◌≡◌, refl, Bool, true, false, String, if◌then◌else◌}
use praetor.Base.Result.{Result, ok, err, ApiError}
use praetor.Api.{DeviceProcess}
use praetor.Gateway.Types.{Registry, Event}
use praetor.Gateway.Env.{
  Env, Sys, Act, pure, raise, next, attempt, call, registry, modify_registry, emit, read_clock,
  ◌>>=◌,
}

-- Whatever the outcome, `m` keeps `P`.
pub record Keeps {W A : Type 0} (P : W → Type 0) (m : Act W A) : Type 0 where
  pub at : (s : Sys W) → P s.world → P (m s).1.world

-- The calls of the API server that only read, and the clock, keep `P`.
pub record ReadsKeep {W : Type 0} (env : Env W) (P : W → Type 0) : Type 0 where
  pub clock : (w : W) → P w → P (env.clock w).1
  pub list : (device : String) (w : W) → P w → P (env.list_processes device w).1
  pub get : (name namespace : String) (w : W) → P w → P (env.get_process name namespace w).1

-- The status writes to processes of the device keep `P`.
pub record WritesKeep {W : Type 0} (env : Env W) (device : String) (P : W → Type 0) : Type 0 where
  pub patch :
      (old new : DeviceProcess) (w : W)
      → old.spec.device_ref.name ≡ device
      → P w
      → P (env.patch_status old new w).1

module _ {W A : Type 0} {P : W → Type 0} where
  pub Keeps-pure : (a : A) → Keeps P (pure a)
  Keeps-pure a = record { at = λ s h. h }

  pub Keeps-raise : (e : ApiError) → Keeps P (raise {A = A} e)
  Keeps-raise e = record { at = λ s h. h }

  pub Keeps-attempt : (m : Act W A) → Keeps P m → Keeps P (attempt m)
  Keeps-attempt m k = record { at = λ s h. k.at s h }

  pub Keeps-call : (f : W → Result A × W) → ((w : W) → P w → P (f w).1) → Keeps P (call f)
  Keeps-call f k = record { at = λ s h. k s.world h }

  -- Each branch may use the outcome of the test.
  pub Keeps-if :
      (test : Bool) (then_act else_act : Act W A)
      → (test ≡ true → Keeps P then_act)
      → (test ≡ false → Keeps P else_act)
      → Keeps P (if test then then_act else else_act)
  Keeps-if true then_act else_act when_true when_false = when_true refl
  Keeps-if false then_act else_act when_true when_false = when_false refl

module _ {W : Type 0} {P : W → Type 0} where
  pub Keeps-registry : Keeps {W = W} P registry
  Keeps-registry = record { at = λ s h. h }

  pub Keeps-modify_registry : (f : Registry → Registry) → Keeps {W = W} P (modify_registry f)
  Keeps-modify_registry f = record { at = λ s h. h }

  pub Keeps-emit : (e : Event) → Keeps {W = W} P (emit e)
  Keeps-emit e = record { at = λ s h. h }

  pub Keeps-read_clock : (env : Env W) → ReadsKeep env P → Keeps P (read_clock env)
  Keeps-read_clock env r = record { at = λ s h. r.clock s.world h }

module _ {W A B : Type 0} {P : W → Type 0} where
  Keeps-next :
      (r : Result A) (f : A → Act W B) → ((a : A) → r ≡ ok a → Keeps P (f a)) → Keeps P (next r f)
  Keeps-next (ok a) f k = record { at = λ s h. (k a refl).at s h }
  Keeps-next (err e) f k = record { at = λ s h. h }

  -- What follows an action may use what the action returned.
  pub Keeps-bind_result :
      (m : Act W A) (f : A → Act W B)
      → Keeps P m
      → ((s : Sys W) (a : A) → (m s).0 ≡ ok a → Keeps P (f a))
      → Keeps P (m >>= f)
  Keeps-bind_result m f km kf = record {
    at = λ s h. (Keeps-next (m s).0 f (λ a e. kf s a e)).at (m s).1 (km.at s h);
  }

  pub Keeps-bind :
      (m : Act W A) (f : A → Act W B) → Keeps P m → ((a : A) → Keeps P (f a)) → Keeps P (m >>= f)
  Keeps-bind m f km kf = Keeps-bind_result m f km (λ s a e. kf a)

pub ruleset keeps_rules = (
  Keeps-pure, Keeps-raise, Keeps-attempt, Keeps-if, Keeps-registry, Keeps-modify_registry,
  Keeps-emit, Keeps-read_clock, Keeps-bind,
)
