-- ===== src/Gateway/Env.antt =====
-- What the gateway calls and does not implement, and the state that its handlers pass on.
pub mod Keeps
use praetor.Base.{ℕ, Option, none, some, List, [], ◌∷◌, ◌++◌, String, refl, ◌≡◌}
use praetor.Base.Result.{Result, ok, err, ApiError}
use praetor.Api.{Time, DeviceProcess, DeviceProcessSpec}
use praetor.Gateway.Types.{Registry, Event}

-- The API server and the clock act on a world `W`; hashing, JSON and RFC 3339 are functions of their
-- input. Nothing is assumed of them here.
pub record Env (W : Type 0) : Type 0 where
  -- the readings that `time.Now` gives during one stretch of code
  pub clock : W → (ℕ → Time) × W
  -- client.List with the field selector spec.deviceRef.name
  pub list_processes : String → W → Result (List DeviceProcess) × W
  -- client.Get: name, namespace
  pub get_process : String → String → W → Result DeviceProcess × W
  -- client.Status().Patch with an optimistic lock: the object before and after
  pub patch_status : DeviceProcess → DeviceProcess → W → Result (Unit {0}) × W
  pub hmac_sha256_hex : String → String → String
  pub sha256_hex : String → String
  pub marshal_spec : DeviceProcessSpec → String
  pub parse_rfc3339 : String → Option Time
  pub format_rfc3339 : Time → String

pub record Sys (W : Type 0) : Type 0 where
  pub registry : Registry
  pub world : W
  pub events : List Event

-- An action returns a result, or an error, and the state; what was done before an error stays done.
abbrev pub Act : Type 0 → Type 0 → Type 0
Act W A = Sys W → Result A × Sys W

module _ {W : Type 0} where
  abbrev pub pure : {A : Type 0} → A → Act W A
  pure a s = (ok a, s)

  abbrev pub raise : {A : Type 0} → ApiError → Act W A
  raise e s = (err e, s)

  abbrev pub next : {A B : Type 0} → Result A → (A → Act W B) → Act W B
  next (ok a) f s = f a s
  next (err e) f s = (err e, s)

  infixl 5 ◌>>=◌ ◌>>◌
  abbrev pub ◌>>=◌ : {A B : Type 0} → Act W A → (A → Act W B) → Act W B
  ◌>>=◌ m f s = next (m s).0 f (m s).1

  abbrev pub ◌>>◌ : {B : Type 0} → Act W (Unit {0}) → Act W B → Act W B
  m >> k = m >>= λ _. k

  -- The result of an action as a value, for a caller that looks at the error.
  abbrev pub attempt : {A : Type 0} → Act W A → Act W (Result A)
  attempt m s = (ok (m s).0, (m s).1)

  -- A call of the world.
  abbrev pub call : {A : Type 0} → (W → Result A × W) → Act W A
  call f s = ((f s.world).0, record s { world = (f s.world).1 })

  abbrev pub registry : Act W Registry
  registry s = (ok s.registry, s)

  abbrev pub modify_registry : (Registry → Registry) → Act W (Unit {0})
  modify_registry f s = (ok tt, record s { registry = f s.registry })

  abbrev pub emit : Event → Act W (Unit {0})
  emit e s = (ok tt, record s { events = s.events ++ e ∷ [] })

  abbrev pub read_clock : Env W → Act W (ℕ → Time)
  read_clock env s = (ok (env.clock s.world).0, record s { world = (env.clock s.world).1 })
