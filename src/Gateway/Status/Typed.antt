-- ===== src/Gateway/Status/Typed.antt =====
-- The types of the conditions that an observation gives.
use praetor.Base.{
  refl, Bool, true, false, Option, none, some, List, String, ◌==◌, if◌then◌else◌, is_nil,
}
use praetor.Api
use praetor.Api.{Time, Condition, DeviceProcessStatus}
use praetor.Conditions.{find_condition, condition}
use praetor.Gateway.Types.{Observation, connected_reason, connected_message}
use praetor.Gateway.Status.{
  artifact_condition, downloaded_condition, verified_condition, started_of, started_condition,
  healthy_of, healthy_condition, trimmed, warning_condition,
}
use praetor.Gateway.Status.Marks.{HasType}

-- What `setAgentConnected` marks in `updateStatusForObservation`.
abbrev pub connected : Option Condition
connected =
    some (
      condition Api.condition_agent_connected Api.condition_true connected_reason connected_message)

artifact-HasType :
    (type done failed done_message failed_message : String) (flag : Option Bool)
    (reason message last_error : String)
    → HasType type (
        artifact_condition type done failed done_message failed_message flag reason message
          last_error)
unfolding artifact_condition
artifact-HasType type done failed done_message failed_message none reason message last_error = tt
artifact-HasType type done failed done_message failed_message (some true) reason message
      last_error =
    refl
artifact-HasType type done failed done_message failed_message (some false) reason message
      last_error =
    refl

pub downloaded-HasType :
    (obs : Observation) → HasType Api.condition_artifact_downloaded (downloaded_condition obs)
unfolding downloaded_condition
downloaded-HasType obs = artifact-HasType _ _ _ _ _ obs.artifact_downloaded _ _ _

pub verified-HasType :
    (obs : Observation) → HasType Api.condition_artifact_verified (verified_condition obs)
unfolding verified_condition
verified-HasType obs = artifact-HasType _ _ _ _ _ obs.artifact_verified _ _ _

pub if-HasType :
    (t : String) (b : Bool) (o p : Option Condition)
    → HasType t o
    → HasType t p
    → HasType t (if b then o else p)
if-HasType t true o p h k = h
if-HasType t false o p h k = k

started_of-HasType :
    (flag : Option Bool) (msg : String)
    → HasType Api.condition_process_started (started_of flag msg)
unfolding started_of
started_of-HasType none msg = tt
started_of-HasType (some true) msg = refl
started_of-HasType (some false) msg = if-HasType _ (msg == "") _ _ refl refl

pub started-HasType :
    (obs : Observation) → HasType Api.condition_process_started (started_condition obs)
unfolding started_condition
started-HasType obs = started_of-HasType obs.process_started _

healthy_of-HasType : (flag : Option Bool) → HasType Api.condition_healthy (healthy_of flag)
unfolding healthy_of
healthy_of-HasType none = tt
healthy_of-HasType (some true) = refl
healthy_of-HasType (some false) = refl

pub healthy-HasType : (obs : Observation) → HasType Api.condition_healthy (healthy_condition obs)
unfolding healthy_condition
healthy-HasType obs = healthy_of-HasType obs.healthy

pub warning-HasType :
    (cs : List Condition) (obs : Observation)
    → HasType Api.condition_spec_warning (warning_condition cs obs)
unfolding warning_condition
warning-HasType cs obs =
    if-HasType _ (trimmed obs.warning_message == "") _ _
      (if-HasType _ (is_nil (find_condition cs Api.condition_spec_warning)) _ _ tt refl) refl
