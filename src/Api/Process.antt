-- ===== src/Api/Process.antt =====
-- api/azure.com/v1alpha1/deviceprocess_types.go
use Prim.Native.String.{String}
use mathlib.Core.Option.{Option}
use mathlib.Core.List.{List}
use praetor.Base.Int.{ℤ}
use praetor.Api.Meta.{Time, ObjectMeta, Condition}

pub record DeviceRef : Type 0 where
  pub kind : String
  pub name : String
  pub namespace : String

abbrev pub device_ref_kind_network_switch : String
device_ref_kind_network_switch = "NetworkSwitch"

pub record DeviceProcessArtifact : Type 0 where
  pub type : String
  pub url : String
  pub checksum_sha256 : String

pub record DeviceProcessEnvVar : Type 0 where
  pub name : String
  pub value : String

pub record DeviceProcessExecution : Type 0 where
  pub backend : String
  pub command : List String
  pub args : List String
  pub env : List DeviceProcessEnvVar
  pub working_dir : String
  pub user : String

pub record DeviceProcessHealthCheck : Type 0 where
  pub exec : List String
  pub period_seconds : ℤ
  pub timeout_seconds : ℤ
  pub success_threshold : ℤ
  pub failure_threshold : ℤ

pub record DeviceProcessSpec : Type 0 where
  pub device_ref : DeviceRef
  pub artifact : DeviceProcessArtifact
  pub execution : DeviceProcessExecution
  pub restart_policy : String
  pub health_check : Option DeviceProcessHealthCheck

abbrev pub phase_pending : String
phase_pending = "Pending"

abbrev pub phase_running : String
phase_running = "Running"

abbrev pub phase_failed : String
phase_failed = "Failed"

pub record DeviceProcessStatus : Type 0 where
  pub phase : String
  pub conditions : List Condition
  pub observed_spec_hash : String
  pub runtime_semantics : String
  pub artifact_version : String
  pub artifact_digest : String
  pub artifact_download_attempts : ℤ
  pub last_artifact_attempt_time : String
  pub artifact_last_error : String
  pub pid : ℤ
  pub start_time : Option Time
  pub last_transition_time : Option Time
  pub restart_count : ℤ
  pub last_termination_reason : String

pub record DeviceProcess : Type 0 where
  pub metadata : ObjectMeta
  pub spec : DeviceProcessSpec
  pub status : DeviceProcessStatus
