-- ===== src/Gateway/Auth/Laws.antt =====
-- Who may speak for a device, and which request reaches which handler.
use Prim.Native.Char.{Char, code}
use Prim.Native.String
use Prim.Native.String.{[], ◌∷◌}
use mathlib.Core.List.{[], ◌∷◌}
use text.Mathlib.TextLemmas.{nil-append, cons-append, append_assoc, append-nil}
use praetor.Base.{
  ◌≡◌, refl, sym, ap, ◌∙◌, ◌≢◌, ◌↔◌, ◌⊎◌, inl, inr, true, List, String, eq_iff, arith, Bool-cases,
  if◌then◌else◌, trim_space, before, split, trim_prefix, eqb,
}
use praetor.Base.Text.{trim, trim_left, trim_right, split_from, keep_unless}
use praetor.Gateway.Types.{Config}
use praetor.Gateway.Env.{Env}
use praetor.Gateway.Auth.{
  is_slash, unauthorized, token_device, path_parts, dispatch, has_device_token, authorize,
  route_parts, handle_device,
}

module _ {W : Type 0} (env : Env W) (cfg : Config) where
  -- A request is authorised exactly where it has the token of its device, where no shared token is
  -- configured, or where it has the shared token.
  pub authorize_iff :
      (path header : String)
      → (authorize env cfg path header ≡ true) ↔ (
          (has_device_token env cfg path (trim_space header) ≡ true)
          ⊎ ((cfg.auth_token ≡ "") ⊎ (trim_space header ≡ cfg.auth_token)))
  unfolding authorize
  authorize_iff path header =
      ground (arith, eq_iff cfg.auth_token "", eq_iff (trim_space header) cfg.auth_token)

  pub ne_unauthorized :
      (device action method : String) → dispatch device action method ≢ unauthorized
  unfolding dispatch
  ne_unauthorized device action method = ground arith

  route_unauthorized :
      (path method header : String) (parts : List String)
      → authorize env cfg path header ≡ true
      → route_parts env cfg path method header parts ≢ unauthorized
  unfolding route_parts
  route_unauthorized path method header (a ∷ b ∷ device ∷ action ∷ rest) h =
      rw (h, route_parts) (ne_unauthorized device action method)
  route_unauthorized path method header [] h = λ e. cc
  route_unauthorized path method header (a ∷ []) h = λ e. cc
  route_unauthorized path method header (a ∷ b ∷ []) h = λ e. cc
  route_unauthorized path method header (a ∷ b ∷ c ∷ []) h = λ e. cc

  -- Without a shared token no request is refused as unauthorised, also where a secret for device
  -- tokens is configured and the request has a wrong token or none.
  pub open_without_shared_token :
      (path method header : String)
      → cfg.auth_token ≡ ""
      → handle_device env cfg path method header ≢ unauthorized
  unfolding handle_device
  open_without_shared_token path method header h =
      route_unauthorized path method header (path_parts path)
        ((authorize_iff path header).1 (inr (inl h)))

before-keep_unless :
    (c : Char) (t : String)
    → before b'/' (keep_unless is_slash c t)
      ≡ (if eqb (code c) b'/' then [] else String.◌∷◌ c (before b'/' t))
unfolding before
before-keep_unless c [] = elim (Bool-cases (is_slash c)) [
  | inl slash ↦ rw slash
  | inr other ↦ rw other (rw other)
]
before-keep_unless c (d ∷ t) = refl

-- The slashes at the end do not change what stands before the first slash.
before-trim_right : (s : String) → before b'/' (trim_right is_slash s) ≡ before b'/' s
unfolding before trim_right
before-trim_right [] = refl
before-trim_right (c ∷ s) =
    before-keep_unless c (trim_right is_slash s)
    ∙ ap (λ t. if eqb (code c) b'/' then [] else String.◌∷◌ c t) (before-trim_right s)

abbrev head_or : String → List String → String
head_or d [] = d
head_or d (x ∷ xs) = x

head-split_from :
    (cur s : String) → head_or "" (split_from b'/' cur s) ≡ String.◌++◌ cur (before b'/' s)
unfolding split_from before
head-split_from cur [] = sym (append-nil cur)
head-split_from cur (c ∷ s) = elim (Bool-cases (eqb (code c) b'/')) [
  | inl slash ↦ rw (slash, split_from) (sym (append-nil cur))
  | inr other ↦
      rw (other, split_from)
        (head-split_from (String.◌++◌ cur (c ∷ [])) s
          ∙ append_assoc cur (c ∷ []) (before b'/' s)
          ∙ ap (String.◌++◌ cur)
              (cons-append c [] (before b'/' s) ∙ ap (String.◌∷◌ c) (nil-append (before b'/' s))))
]

-- The path of the requests that the server hands to the gateway: /v1/devices/ and what follows.
abbrev pub devices_path : String → String
devices_path s = "/" ∷ "v" ∷ "1" ∷ "/" ∷ "d" ∷ "e" ∷ "v" ∷ "i" ∷ "c" ∷ "e" ∷ "s" ∷ "/" ∷ s

devices_path_text : devices_path "r1/report" ≡ "/v1/devices/r1/report"
devices_path_text = refl

trim-devices_path :
    (s : String) (d : Char) (t : String)
    → trim_right is_slash s ≡ d ∷ t
    → trim is_slash (devices_path s)
      ≡ "v" ∷ "1" ∷ "/" ∷ "d" ∷ "e" ∷ "v" ∷ "i" ∷ "c" ∷ "e" ∷ "s" ∷ "/" ∷ d ∷ t
unfolding trim_left trim_right
trim-devices_path s d t h = rw h refl

-- Only slashes follow.
trim-devices_path_alone :
    (s : String) → trim_right is_slash s ≡ [] → trim is_slash (devices_path s) ≡ "v1/devices"
unfolding trim_left trim_right
trim-devices_path_alone s h = rw h refl

abbrev rest_of : List String → List String
rest_of [] = []
rest_of (x ∷ xs) = xs

abbrev third : List String → String
third parts = head_or "" (rest_of (rest_of parts))

third-path_parts_of :
    (s t : String) → trim_right is_slash s ≡ t → third (path_parts (devices_path s)) ≡ before b'/' t
unfolding path_parts split split_from before
third-path_parts_of s [] h = ap (λ p. third (split b'/' p)) (trim-devices_path_alone s h)
third-path_parts_of s (d ∷ t) h =
    ap (λ p. third (split b'/' p)) (trim-devices_path s d t h)
    ∙ head-split_from "" (d ∷ t)
    ∙ nil-append (before b'/' (d ∷ t))

-- On a path below /v1/devices/, whatever follows, the device that the token is checked for is the third
-- part of the path, for which the request is served.
pub checked_device_is_served :
    (s a b device action : String) (rest : List String)
    → path_parts (devices_path s) ≡ a ∷ b ∷ device ∷ action ∷ rest
    → token_device (devices_path s) ≡ device
unfolding token_device trim_prefix
checked_device_is_served s a b device action rest e =
    sym (before-trim_right s)
    ∙ sym (third-path_parts_of s (trim_right is_slash s) refl)
    ∙ ap third e
