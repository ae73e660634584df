-- ===== src/Api/Meta.antt =====
-- Object metadata, status conditions and label selectors, as the source uses them.
use Prim.Native.Nat.{ℕ}
use Prim.Native.String.{String}
use mathlib.Core.Bool.{Bool}
use mathlib.Core.Option.{Option}
use mathlib.Core.List.{List}
use praetor.Base.Maps.{Map}
use praetor.Base.Int.{ℤ}

-- Nanoseconds since Go's zero time, so that `IsZero` is a test against 0.
abbrev pub Time : Type 0
Time = ℕ

pub record OwnerReference : Type 0 where
  pub kind : String
  pub name : String
  pub uid : String
  pub controller : Option Bool

pub record ObjectMeta : Type 0 where
  pub name : String
  pub namespace : String
  pub uid : String
  pub resource_version : String
  pub generation : ℤ
  pub labels : Map String
  pub annotations : Map String
  pub owner_references : List OwnerReference

-- metav1.Condition
pub record Condition : Type 0 where
  pub type : String
  pub status : String
  pub observed_generation : ℤ
  pub last_transition_time : Time
  pub reason : String
  pub message : String

abbrev pub condition_true : String
condition_true = "True"

abbrev pub condition_false : String
condition_false = "False"

-- metav1.LabelSelector
pub record SelectorRequirement : Type 0 where
  pub key : String
  pub operator : String
  pub values : List String

pub record LabelSelector : Type 0 where
  pub match_labels : Map String
  pub match_expressions : List SelectorRequirement

-- api/azure.com/v1alpha1/conditions_types.go
abbrev pub condition_agent_connected : String
condition_agent_connected = "AgentConnected"

abbrev pub condition_spec_observed : String
condition_spec_observed = "SpecObserved"

abbrev pub condition_spec_warning : String
condition_spec_warning = "SpecWarning"

abbrev pub condition_artifact_downloaded : String
condition_artifact_downloaded = "ArtifactDownloaded"

abbrev pub condition_artifact_verified : String
condition_artifact_verified = "ArtifactVerified"

abbrev pub condition_process_started : String
condition_process_started = "ProcessStarted"

abbrev pub condition_healthy : String
condition_healthy = "Healthy"

abbrev pub condition_available : String
condition_available = "Available"

abbrev pub condition_progressing : String
condition_progressing = "Progressing"
