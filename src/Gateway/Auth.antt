-- ===== src/Gateway/Auth.antt =====
-- Routing and authorisation of a request: `handleDevice` and `authorize`.
pub mod Laws
pub mod Served
use Prim.Native.Char.{Char, code}
use praetor.Base.{
  Bool, true, false, not, ◌&&◌, ◌||◌, ◌≡◌, List, [], ◌∷◌, String, ◌==◌, eqb, if◌then◌else◌,
  trim_space, trim_prefix, before, split,
}
use praetor.Base.Text.{trim}
use praetor.Gateway.Types.{Config}
use praetor.Gateway.Env.{Env}

abbrev pub is_slash : Char → Bool
is_slash c = eqb (code c) b'/'

pub data Route : Type 0 where
  not_found method_not_allowed unauthorized : Route
  desired report connect : (device : String) → Route

-- The device that the token is checked for.
unfoldable pub token_device : String → String
unfolding trim_prefix before
token_device path = before b'/' (trim_prefix "v1/devices/" (trim_prefix "/" path))

-- strings.Split(strings.Trim(path, "/"), "/")
unfoldable pub path_parts : String → List String
unfolding split
path_parts path = split b'/' (trim is_slash path)

unfoldable pub dispatch : String → String → String → Route
dispatch device action method =
    if action == "desired"
    then (if method == "GET" then desired device else method_not_allowed)
    else if action == "report"
    then (if method == "POST" then report device else method_not_allowed)
    else if action == "connect"
    then (if method == "POST" then connect device else method_not_allowed)
    else not_found

module _ {W : Type 0} (env : Env W) (cfg : Config) where
  unfoldable pub compute_device_token : String → String → String
  compute_device_token secret device = env.hmac_sha256_hex secret device

  -- The test of the per-device token.
  unfoldable pub has_device_token : String → String → Bool
  unfolding token_device compute_device_token
  has_device_token path header =
      not (cfg.auth_secret == "")
      && not (token_device path == "")
      && header == compute_device_token cfg.auth_secret (token_device path)

  unfoldable pub authorize : String → String → Bool
  unfolding has_device_token trim_space
  authorize path raw_header =
      let header = trim_space raw_header in
      if has_device_token path header
      then true
      else if cfg.auth_token == ""
      then true
      else header == cfg.auth_token

  -- `handleDevice` up to the call of the handler: path, method and token header of the request.
  unfoldable pub route_parts : String → String → String → List String → Route
  unfolding authorize dispatch
  route_parts path method header (_ ∷ _ ∷ device ∷ action ∷ _) =
      if authorize path header then dispatch device action method else unauthorized
  route_parts path method header _ = not_found

  unfoldable pub handle_device : String → String → String → Route
  unfolding route_parts path_parts
  handle_device path method header = route_parts path method header (path_parts path)
