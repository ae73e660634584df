-- ===== src/Gateway/Auth/Served.antt =====
-- Who a request has to be for the gateway to serve it for a device.
use Prim.Native.String.{◌∷◌}
use mathlib.Core.List.{[], ◌∷◌}
use praetor.Base.{
  ◌≡◌, refl, ◌≢◌, ◌↔◌, ◌⊎◌, inl, inr, Bool, true, false, List, String, Option, none, some, eq_iff,
  arith, Bool-cases, trim_space, if◌then◌else◌,
}
use praetor.Gateway.Types.{Config}
use praetor.Gateway.Env.{Env}
use praetor.Gateway.Auth.{
  Route, not_found, method_not_allowed, unauthorized, desired, report, connect, token_device,
  path_parts, dispatch, compute_device_token, has_device_token, authorize, route_parts,
  handle_device,
}
use praetor.Gateway.Auth.Laws.{
  authorize_iff, ne_unauthorized, devices_path, checked_device_is_served,
}

-- The device whose handler is called.
abbrev pub served : Route → Option String
served not_found = none
served method_not_allowed = none
served unauthorized = none
served (desired device) = some device
served (report device) = some device
served (connect device) = some device

dispatch_device :
    (d action method device : String) → served (dispatch d action method) ≡ some device → d ≡ device
unfolding dispatch
dispatch_device d action method device h = ground arith

admitted_device :
    (admitted : Bool) (d action method device : String)
    → served (if admitted then dispatch d action method else unauthorized) ≡ some device
    → (admitted ≡ true) × (d ≡ device)
admitted_device true d action method device h = (refl, dispatch_device d action method device h)
admitted_device false d action method device h = cc

module _ {W : Type 0} (env : Env W) (cfg : Config) where
  -- The token in the header is the one of the device under the configured secret, or the shared token;
  -- or no shared token is configured.
  abbrev pub MaySpeak : (device header : String) → Type 0
  MaySpeak device header =
      ((cfg.auth_secret ≢ "")
        × ((device ≢ "") × (trim_space header ≡ env.hmac_sha256_hex cfg.auth_secret device)))
      ⊎ ((cfg.auth_token ≡ "") ⊎ (trim_space header ≡ cfg.auth_token))

  has_device_token_iff :
      (path header : String)
      → (has_device_token env cfg path header ≡ true) ↔ (
          (cfg.auth_secret ≢ "")
          × ((token_device path ≢ "")
              × (header ≡ env.hmac_sha256_hex cfg.auth_secret (token_device path))))
  unfolding has_device_token compute_device_token
  has_device_token_iff path header = ground (
    arith,
    eq_iff cfg.auth_secret "",
    eq_iff (token_device path) "",
    eq_iff header (env.hmac_sha256_hex cfg.auth_secret (token_device path)),
  )

  speaks_iff :
      (path header : String)
      → (authorize env cfg path header ≡ true) ↔ MaySpeak (token_device path) header
  speaks_iff path header =
      ground
        (arith, authorize_iff env cfg path header, has_device_token_iff path (trim_space header))

  -- The device that is checked and the device that the routing takes are one.
  module _ (s a b device action : String) (rest : List String)
      (parts : path_parts (devices_path s) ≡ a ∷ b ∷ device ∷ action ∷ rest) where
    speaks_for_part :
        (header : String)
        → (authorize env cfg (devices_path s) header ≡ true) ↔ MaySpeak device header
    speaks_for_part header =
        let same = checked_device_is_served s a b device action rest parts in
        rw (← same) (speaks_iff (devices_path s) header)

    -- A request below /v1/devices/ for a device and an action is refused as unauthorised exactly where
    -- a shared token is configured and its header has neither this token nor, under a secret that is
    -- set and for a name that is not empty, the token of this device.
    pub unauthorized_iff :
        (method header : String)
        → (handle_device env cfg (devices_path s) method header ≡ unauthorized)
          ↔ (¬ MaySpeak device header)
    unfolding handle_device route_parts
    unauthorized_iff method header =
        let speaks = speaks_for_part header in
        elim (Bool-cases (authorize env cfg (devices_path s) header)) [
          | inl admitted ↦
              rw (parts, admitted, route_parts)
                (
                  λ e. absurd (ne_unauthorized env cfg device action method e),
                  λ no. absurd (no (speaks.0 admitted)),
                )
          | inr other ↦
              rw (parts, other, route_parts) (λ e may. cc (other, speaks.1 may), λ no. refl)
        ]

  served_part :
      (s : String) (parts : List String) (method header device : String)
      → path_parts (devices_path s) ≡ parts
      → served (route_parts env cfg (devices_path s) method header parts) ≡ some device
      → MaySpeak device header
  unfolding route_parts
  served_part s (a ∷ b ∷ d ∷ action ∷ rest) method header device same h =
      let (admitted, taken) =
        admitted_device (authorize env cfg (devices_path s) header) d action method device h in
      rw (← taken) ((speaks_for_part s a b d action rest same header).0 admitted)
  served_part s [] method header device same h = cc
  served_part s (a ∷ []) method header device same h = cc
  served_part s (a ∷ b ∷ []) method header device same h = cc
  served_part s (a ∷ b ∷ d ∷ []) method header device same h = cc

  -- Whatever follows /v1/devices/ in the path, whatever the method and the header: where the handler of
  -- a device is called, the request may speak for this device. Its header has the token of this very
  -- device, whose name is not empty, under a secret that is set, or the shared token; or no shared token
  -- is configured.
  pub served-MaySpeak :
      (s method header device : String)
      → served (handle_device env cfg (devices_path s) method header) ≡ some device
      → MaySpeak device header
  unfolding handle_device
  served-MaySpeak s method header device h =
      served_part s (path_parts (devices_path s)) method header device refl h
