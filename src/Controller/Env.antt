-- ===== src/Controller/Env.antt =====
-- What the reconciler calls and does not implement. The state that is passed on is the world of the
-- API server, its cache and the event recorder.
pub mod Keeps
pub use praetor.Base.Act.{Act, pure, raise, next, ◌>>=◌, ◌>>◌, attempt, step}
use praetor.Base.{ℕ, Bool, Option, List, String, Map}
use praetor.Base.Result.{Result, ApiError}
use praetor.Api.{
  Time, ObjectMeta, LabelSelector, DeviceProcess, DeviceProcessSpec, DeviceProcessDeployment,
}

-- A NetworkSwitch, of which the reconciler reads metadata only.
abbrev pub Device : Type 0
Device = ObjectMeta

pub record Env (W : Type 0) : Type 0 where
  -- the readings that `metav1.Now` gives during one stretch of code
  pub clock : W → (ℕ → Time) × W
  -- client.Get and client.List; names come behind their namespace
  pub get_deployment : String → String → W → Result DeviceProcessDeployment × W
  pub get_process : String → String → W → Result DeviceProcess × W
  pub list_switches : String → LabelSelector → W → Result (List Device) × W
  -- with MatchingLabels{deviceprocessdeployment: name}
  pub list_processes : String → String → W → Result (List DeviceProcess) × W
  -- with MatchingFields{selectorKeys: key}
  pub list_deployments : String → String → W → Result (List DeviceProcessDeployment) × W
  -- client.Patch with client.Apply, Create, Update, Delete, Status().Patch (before, after)
  pub apply_process : DeviceProcess → W → Result (Unit {0}) × W
  pub create_process : DeviceProcess → W → Result (Unit {0}) × W
  pub update_process : DeviceProcess → W → Result (Unit {0}) × W
  pub delete_process : DeviceProcess → W → Result (Unit {0}) × W
  pub patch_status : DeviceProcessDeployment → DeviceProcessDeployment → W → Result (Unit {0}) × W
  -- Recorder.Event: type, reason, message
  pub record_event : DeviceProcessDeployment → String → String → String → W → W
  -- controllerutil.SetControllerReference, metav1.IsControlledBy
  pub set_controller_reference : DeviceProcessDeployment → DeviceProcess → Result DeviceProcess
  pub is_controlled_by : DeviceProcess → DeviceProcessDeployment → Bool
  -- the error of metav1.LabelSelectorAsSelector, and Matches of its selector
  pub selector_error : LabelSelector → Option ApiError
  pub matches : LabelSelector → Map String → Bool
  -- len(errs) == 0, of validation.IsQualifiedName, IsValidLabelValue, IsDNS1123Subdomain
  pub is_qualified_name : String → Bool
  pub is_valid_label_value : String → Bool
  pub is_dns1123_subdomain : String → Bool
  -- err.Error()
  pub error_text : ApiError → String
  pub to_lower : String → String
  pub sha1_hex : String → String
  pub sha256_hex : String → String
  pub marshal_spec : DeviceProcessSpec → String
