-- ===== src/Gateway/Types.antt =====
-- The requests, the responses and the state of the gateway.
use praetor.Base.{trim_space, [], ℕ, Bool, Option, List, String}
use praetor.Base.Int.{ℤ, pos}
use praetor.Base.Maps.{Map}
use praetor.Api.{Time, DeviceProcessSpec}

abbrev pub default_heartbeat_seconds : ℤ
default_heartbeat_seconds = pos 15

abbrev pub connected_reason : String
connected_reason = "AgentConnected"

abbrev pub connected_message : String
connected_message = "device reported"

abbrev pub runtime_semantics_daemon_set : String
runtime_semantics_daemon_set = "DaemonSet"

pub record DesiredItem : Type 0 where
  pub uid : String
  pub namespace : String
  pub name : String
  pub generation : ℤ
  pub spec : DeviceProcessSpec
  pub spec_hash : String

pub record DesiredResponse : Type 0 where
  pub device_name : String
  pub heartbeat_interval_seconds : ℤ
  pub items : List DesiredItem

-- A pointer that may be nil is an `Option`.
pub record Observation : Type 0 where
  pub namespace : String
  pub name : String
  pub observed_spec_hash : String
  pub process_started : Option Bool
  pub healthy : Option Bool
  pub pid : ℤ
  pub start_time : String
  pub error_message : Option String
  pub warning_message : Option String
  pub artifact_digest : String
  pub artifact_download_attempts : ℤ
  pub last_artifact_attempt_time : String
  pub artifact_last_error : String
  pub artifact_downloaded : Option Bool
  pub artifact_verified : Option Bool
  pub artifact_download_reason : String
  pub artifact_download_message : String
  pub artifact_verify_reason : String
  pub artifact_verify_message : String

pub record ReportRequest : Type 0 where
  pub agent_version : String
  pub timestamp : String
  pub heartbeat : Bool
  pub observations : List Observation

-- The fields of `Gateway` that stay as they are after `New`.
pub record Config : Type 0 where
  pub auth_token : String
  pub auth_secret : String
  pub default_interval : ℤ
  pub stale_multiplier : ℤ

-- The fields of `Gateway` behind its mutex.
pub record Registry : Type 0 where
  pub last_seen : Map Time
  pub last_report : Map Time
  pub heartbeat_hints : Map ℤ

-- The settings that `New` takes, and the empty maps that it makes.
unfoldable pub new_config :
    (token token_secret : String) (default_interval stale_multiplier : ℤ) → Config
unfolding trim_space
new_config token token_secret default_interval stale_multiplier = record {
  auth_token = trim_space token;
  auth_secret = trim_space token_secret;
  default_interval = default_interval;
  stale_multiplier = stale_multiplier;
}

unfoldable pub new_registry : Registry
new_registry = record { last_seen = []; last_report = []; heartbeat_hints = [] }

-- What is handed to the event recorder.
pub record Event : Type 0 where
  pub namespace : String
  pub name : String
  pub event_type : String
  pub reason : String
  pub message : String

-- The response of a handler: a status line with its message, or a document.
pub data Response : Type 0 where
  status : (code : ℕ) (message : String) → Response
  not_modified : (etag : String) → Response
  desired : (etag : String) (body : DesiredResponse) → Response
  ack : Response
