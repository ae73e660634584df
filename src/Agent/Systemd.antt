-- ===== src/Agent/Systemd.antt =====
-- agent/systemd/manager.go: the names of units, and the calls of systemctl. The directories are
-- those that the program starts with.
pub mod Files
pub mod Names
pub mod Show
pub mod Contents
pub mod Written
pub mod Kept
use Prim.Native.Char.{Char, code}
use Prim.Native.String
use Prim.Native.String.{String, [], ◌∷◌}
use mathlib.Core.List
use mathlib.Core.List.{List}
use praetor.Base.{
  ℕ, ◌-◌, Bool, ◌&&◌, ◌||◌, Option, none, some, eqb, leb, ◌==◌, if◌then◌else◌, trim_space, join,
}
use praetor.Base.Text.{text_length, text_take, trim, contains}
use praetor.Base.Result.{Result, ok, err, other}
use praetor.Agent.Env.{Env, error_text}

abbrev pub unit_dir : String
unit_dir = "/etc/systemd/system"

abbrev pub env_dir : String
env_dir = "/etc/apollo/env"

abbrev pub max_unit_base_len : ℕ
max_unit_base_len = 80

-- What reInvalid does not match.
abbrev pub is_valid : Char → Bool
is_valid c =
    let n = code c in
    (leb b'a' n && leb n b'z')
    || (leb b'A' n && leb n b'Z')
    || (leb b'0' n && leb n b'9')
    || eqb n b'_'
    || eqb n b'.'
    || eqb n b'-'

-- reInvalid.ReplaceAllString(s, "-")
unfoldable pub replace_invalid : String → String
replace_invalid [] = []
replace_invalid (c ∷ s) =
    let rest = replace_invalid s in if is_valid c then c ∷ rest else "-" ∷ rest

unfoldable pub is_dash : Char → Bool
is_dash c = eqb (code c) b'-'

pub record Paths : Type 0 where
  pub unit_name : String
  pub unit_path : String
  pub env_path : String

module _ {W : Type 0} (env : Env W) where
  unfoldable pub sanitize : String → String
  unfolding trim_space replace_invalid is_dash
  sanitize s =
      let trimmed = trim is_dash (replace_invalid (trim_space (env.to_lower s))) in
      if trimmed == "" then "device" else trimmed

  unfoldable pub shorten : String → String
  unfolding text_length text_take join
  shorten base =
      let suffix = text_take 8 (env.sha256_hex base) in
      let room = max_unit_base_len - text_length suffix - 1 in
      let keep = if leb 1 room then room else 1 in
      join (List.◌∷◌ (text_take keep base) (List.◌∷◌ "-" (List.◌∷◌ suffix List.[])))

  unfoldable pub full_base : String → String → String
  unfolding sanitize join
  full_base namespace name = join (
      List.◌∷◌ "apollo-"
        (List.◌∷◌ (sanitize namespace) (List.◌∷◌ "-" (List.◌∷◌ (sanitize name) List.[]))))

  unfoldable pub sanitized_base : String → String → String
  unfolding full_base shorten text_length
  sanitized_base namespace name =
      let base = full_base namespace name in
      if leb (text_length base) max_unit_base_len then base else shorten base

  unfoldable pub paths_for : String → String → Paths
  unfolding sanitized_base
  paths_for namespace name =
      let base = sanitized_base namespace name in
      let unit = String.◌++◌ base ".service" in
      record {
        unit_name = unit;
        unit_path = env.join_path unit_dir unit;
        env_path = env.join_path env_dir (String.◌++◌ base ".env");
      }

-- "systemctl %s: %w: %s": the command, the error and the trimmed output.
unfoldable pub systemctl_error : String → String → String → String
unfolding join trim_space
systemctl_error command error out = join (
    List.◌∷◌ "systemctl " (
      List.◌∷◌ command
        (List.◌∷◌ ": " (List.◌∷◌ error (List.◌∷◌ ": " (List.◌∷◌ (trim_space out) List.[]))))))

unfoldable pub outcome : String → String × Option String → Result (Unit {0})
unfolding systemctl_error
outcome command (out, none) = ok tt
outcome command (out, some error) = err (other (systemctl_error command error out))

module _ {W : Type 0} (env : Env W) where
  unfoldable pub enable_and_start : String → W → Result (Unit {0}) × W
  unfolding outcome
  enable_and_start unit w =
      let (answer, w') =
        env.systemctl (List.◌∷◌ "enable" (List.◌∷◌ "--now" (List.◌∷◌ unit List.[]))) w in
      (outcome (String.◌++◌ "enable --now " unit) answer, w')

  unfoldable pub start : String → W → Result (Unit {0}) × W
  unfolding outcome
  start unit w =
      let (answer, w') = env.systemctl (List.◌∷◌ "start" (List.◌∷◌ unit List.[])) w in
      (outcome (String.◌++◌ "start " unit) answer, w')

  unfoldable pub restart : String → W → Result (Unit {0}) × W
  unfolding outcome
  restart unit w =
      let (answer, w') = env.systemctl (List.◌∷◌ "restart" (List.◌∷◌ unit List.[])) w in
      (outcome (String.◌++◌ "restart " unit) answer, w')

  unfoldable pub stop_and_disable : String → W → Result (Unit {0}) × W
  unfolding outcome
  stop_and_disable unit w =
      let (answer, w') =
        env.systemctl (List.◌∷◌ "disable" (List.◌∷◌ "--now" (List.◌∷◌ unit List.[]))) w in
      (outcome (String.◌++◌ "disable --now " unit) answer, w')

  unfoldable pub daemon_reload : W → Result (Unit {0}) × W
  unfolding outcome
  daemon_reload w =
      let (answer, w') = env.systemctl (List.◌∷◌ "daemon-reload" List.[]) w in
      (outcome "daemon-reload" answer, w')

  unfoldable pub is_unit_not_found_text : String → Bool
  unfolding contains
  is_unit_not_found_text text =
      let s = env.to_lower text in
      contains s "could not be found"
      || contains s "not-found"
      || contains s "loaded: not-found"
      || contains s "does not exist"
      || (contains s "unit file" && contains s "does not exist")

  -- main.go: stopAndDisableQuiet
  unfoldable pub quiet : Result (Unit {0}) → Result (Unit {0})
  unfolding is_unit_not_found_text
  quiet (ok _) = ok tt
  quiet (err e) = if is_unit_not_found_text (error_text e) then ok tt else err e

  unfoldable pub stop_and_disable_quiet : String → W → Result (Unit {0}) × W
  unfolding quiet stop_and_disable
  stop_and_disable_quiet unit w = let (r, w') = stop_and_disable unit w in (quiet r, w')
