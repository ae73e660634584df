-- ===== src/Agent/Env.antt =====
-- What the agent calls and does not implement: systemctl, the files, the clock, the fetcher of
-- artifacts and the HTTP client act on a world `W`; the functions of the standard library that are
-- fields here are functions of their input.
use praetor.Base.{ℕ, Bool, List, Option, String}
use praetor.Base.Int.{ℤ}
use praetor.Base.Maps.{Map}
use praetor.Base.Result.{
  Result, ApiError, not_found, already_exists, conflict, no_match, bad_request, other,
}
use praetor.Api.{Time}
use praetor.Gateway.Types.{DesiredResponse, Observation}

-- main.go: managedItem
pub record ManagedItem : Type 0 where
  pub unit_name : String
  pub last_action_at : String
  pub last_action_spec_hash : String
  pub last_action_description : String

-- artifact_oci.go: ociResult
pub record OciResult : Type 0 where
  pub digest : String
  pub rootfs_path : String
  pub attempts : ℤ
  pub last_attempt_time : String
  pub last_error : String
  pub downloaded : Bool
  pub verified : Bool
  pub download_reason : String
  pub download_message : String
  pub verify_reason : String
  pub verify_message : String

-- A response to the GET of the desired state; a body that is no document is an error.
pub record DesiredReply : Type 0 where
  pub status_code : ℕ
  pub etag : String
  pub body : Result DesiredResponse

pub record Env (W : Type 0) : Type 0 where
  pub now : W → Time × W
  -- time.Parse(time.RFC3339, ·), and a UTC time in this format
  pub parse_rfc3339 : String → Option Time
  pub format_rfc3339 : Time → String
  -- time.Parse with the layout "Mon 2006-01-02 15:04:05 MST"
  pub parse_systemd_time : String → Option Time
  -- the value, not the error, of strconv.ParseInt(·, 10, 64)
  pub parse_int : String → ℤ
  -- Runner.Run(ctx, "systemctl", args...): the output, and the text of the error
  pub systemctl : List String → W → (String × Option String) × W
  -- os.ReadFile, os.Remove: `none` and `false` for os.ErrNotExist
  pub read_file : String → W → Result (Option String) × W
  pub remove : String → W → Result Bool × W
  pub mkdir_all : String → W → Result (Unit {0}) × W
  -- os.CreateTemp(dir, pattern): the name; Chmod, Write and Close of the file of a name
  pub create_temp : String → String → W → Result String × W
  pub chmod : String → ℕ → W → Result (Unit {0}) × W
  pub write : String → String → W → Result (Unit {0}) × W
  pub close : String → W → Result (Unit {0}) × W
  pub rename : String → String → W → Result (Unit {0}) × W
  -- filepath.Join of two, Dir, Clean, Abs, IsAbs
  pub join_path : String → String → String
  pub dir : String → String
  pub clean : String → String
  pub abs : String → W → Result String × W
  pub is_abs : String → Bool
  pub to_lower : String → String
  pub sha256_hex : String → String
  pub hmac_sha256_hex : String → String → String
  -- ociFetcher.Ensure: the result, and the text of the error
  pub ensure : String → W → (OciResult × Option String) × W
  -- json.MarshalIndent and json.Unmarshal of the state; `none` for a null map
  pub marshal_state : Map ManagedItem → String
  pub unmarshal_state : String → Result (Option (Map ManagedItem))
  -- GET of a URL with If-None-Match and X-Device-Token, each where it is not ""
  pub get_desired : String → String → String → W → Result DesiredReply × W
  -- POST to a URL of a report with a version, the time and the observations, heartbeat set, and
  -- X-Device-Token where it is not "": the status code
  pub post_report : String → String → String → List Observation → String → W → Result ℕ × W

-- err.Error(); the classes of the API server do not occur in the agent.
abbrev pub error_text : ApiError → String
error_text not_found = ""
error_text already_exists = ""
error_text conflict = ""
error_text no_match = ""
error_text (bad_request s) = s
error_text (other s) = s
