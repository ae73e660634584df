-- ===== src/Gateway/Status.antt =====
-- The status of a process after an observation: the body of the loop of `updateStatusForObservation`
-- between the read and the write, `setAgentConnected`, and the comparison of two statuses.
pub mod Marks
pub mod Fold
pub mod Phase
pub mod Typed
pub mod Stable
use praetor.Base.{
  ℕ, ◌≡◌, Bool, true, false, not, ◌&&◌, ◌||◌, Option, none, some, List, [], ◌∷◌, String, ◌==◌, eqb,
  is_nil, if◌then◌else◌, trim_space, join,
}
use praetor.Base.Int.{ℤ, eqb_ℤ}
use praetor.Base.Result.{Result, ok, err, bad_request}
use praetor.Api
use praetor.Api.{Time, Condition, DeviceProcessStatus}
use praetor.Conditions.{find_condition, set_condition, condition}
use praetor.Gateway.Types.{
  Observation, connected_reason, connected_message, runtime_semantics_daemon_set,
}
use praetor.Gateway.Env.{Env}

-- The test at the end of `setAgentConnected` on the condition before and after.
differs : Option Condition → Option Condition → Bool
differs (some b) (some a) =
    not (b.status == a.status) || not (b.reason == a.reason) || not (b.message == a.message)
differs _ _ = true

abbrev pub status_text : Bool → String
status_text connected = if connected then Api.condition_true else Api.condition_false

-- The conditions after `setAgentConnected`, and whether the condition differs from the one before.
unfoldable pub set_agent_connected :
    Time → List Condition → Bool → String → String → List Condition × Bool
unfolding differs set_condition find_condition
set_agent_connected now cs connected reason message =
    let cs' =
      set_condition now cs
        (condition Api.condition_agent_connected (status_text connected) reason message) in
    (
      cs',
      differs (find_condition cs Api.condition_agent_connected)
          (find_condition cs' Api.condition_agent_connected),
    )

-- *p, and the empty text for nil, trimmed
abbrev pub trimmed : Option String → String
trimmed none = ""
trimmed (some s) = trim_space s

abbrev pub or_text : String → String → String
or_text s fallback = if s == "" then fallback else s

-- The condition that the code marks for a pointer field, none where it is nil.
unfoldable pub artifact_condition :
    (type done failed done_message failed_message : String)
    → (flag : Option Bool) (reason message last_error : String) → Option Condition
artifact_condition type done failed done_message failed_message none reason message last_error =
    none
artifact_condition type done failed done_message failed_message (some true) reason message
      last_error =
    some (
      condition type Api.condition_true (or_text (trim_space reason) done)
        (or_text (trim_space message) done_message))
artifact_condition type done failed done_message failed_message (some false) reason message
      last_error =
    let r = or_text (trim_space reason) done in
    some (
      condition type Api.condition_false (if r == done then failed else r)
        (or_text (or_text (trim_space message) (trim_space last_error)) failed_message))

unfoldable pub downloaded_condition : Observation → Option Condition
unfolding artifact_condition
downloaded_condition obs =
    artifact_condition Api.condition_artifact_downloaded "ArtifactDownloaded"
      "ArtifactDownloadFailed" "artifact downloaded" "artifact download failed"
      obs.artifact_downloaded obs.artifact_download_reason obs.artifact_download_message
      obs.artifact_last_error

unfoldable pub verified_condition : Observation → Option Condition
unfolding artifact_condition
verified_condition obs =
    artifact_condition Api.condition_artifact_verified "ArtifactVerified" "ArtifactVerifyFailed"
      "artifact verified" "artifact verification failed" obs.artifact_verified
      obs.artifact_verify_reason obs.artifact_verify_message obs.artifact_last_error

started_of : Option Bool → String → Option Condition
started_of none msg = none
started_of (some true) msg =
    some (
      condition Api.condition_process_started Api.condition_true "ProcessStarted" "process started")
started_of (some false) msg =
    if msg == ""
    then some (
        condition Api.condition_process_started Api.condition_false "ProcessNotStarted"
          "process not started")
    else some (condition Api.condition_process_started Api.condition_false "ReconcileError" msg)

unfoldable pub started_condition : Observation → Option Condition
unfolding started_of
started_condition obs = started_of obs.process_started (trimmed obs.error_message)

healthy_of : Option Bool → Option Condition
healthy_of none = none
healthy_of (some true) =
    some (condition Api.condition_healthy Api.condition_true "Healthy" "process healthy")
healthy_of (some false) =
    some
      (condition Api.condition_healthy Api.condition_false "Unhealthy" "process reported unhealthy")

unfoldable pub healthy_condition : Observation → Option Condition
unfolding healthy_of
healthy_condition obs = healthy_of obs.healthy

-- The warning is marked; where there is none, a condition that is there is marked false.
unfoldable pub warning_condition : List Condition → Observation → Option Condition
unfolding find_condition
warning_condition cs obs =
    let warning = trimmed obs.warning_message in
    if warning == ""
    then (if is_nil (find_condition cs Api.condition_spec_warning)
        then none
        else some (
            condition Api.condition_spec_warning Api.condition_false "NoSpecWarning"
              "no spec warning"))
    else some (condition Api.condition_spec_warning Api.condition_true "SpecWarning" warning)

-- Whether the warning condition differs in what the code compares: with a warning the status and the
-- message, without one the status, the reason and the message.
warning_differs : String → Option Condition → Bool
warning_differs warning none = not (warning == "")
warning_differs warning (some e) =
    if warning == ""
    then not (e.status == Api.condition_false)
      || not (e.reason == "NoSpecWarning")
      || not (e.message == "no spec warning")
    else not (e.status == Api.condition_true) || not (e.message == warning)

unfoldable pub warning_changed : List Condition → Observation → Bool
unfolding find_condition warning_differs
warning_changed cs obs =
    warning_differs (trimmed obs.warning_message) (find_condition cs Api.condition_spec_warning)

-- A mark that the code makes or leaves out.
unfoldable pub mark : Time → Option Condition → List Condition → List Condition
unfolding set_condition
mark now none cs = cs
mark now (some c) cs = set_condition now cs c

abbrev pub is_set : Option Bool → Bool
is_set none = false
is_set (some b) = b

unfoldable pub observed_phase : Observation → String
observed_phase obs =
    if trimmed obs.error_message == ""
    then (if is_set obs.process_started then Api.phase_running else Api.phase_pending)
    else Api.phase_failed

-- The health report lifts a pending phase.
unfoldable pub lifted_phase : Observation → String
unfolding observed_phase
lifted_phase obs =
    let phase = observed_phase obs in
    if is_set obs.healthy && (phase == Api.phase_pending || phase == "")
    then Api.phase_running
    else phase

unfoldable pub hash_changed : Observation → DeviceProcessStatus → Bool
hash_changed obs st =
    not (obs.observed_spec_hash == "") && not (st.observed_spec_hash == obs.observed_spec_hash)

module _ {W : Type 0} (env : Env W) where
  unfoldable pub spec_observed_message : String → Option Time → String
  unfolding join
  spec_observed_message hash none = join ("hash=" ∷ hash ∷ [])
  spec_observed_message hash (some t) =
      join ("hash=" ∷ hash ∷ " reportedAt=" ∷ env.format_rfc3339 t ∷ [])

  unfoldable pub spec_observed_condition :
      Observation → Option Time → DeviceProcessStatus → Option Condition
  unfolding hash_changed spec_observed_message
  spec_observed_condition obs reported_at st =
      if hash_changed obs st
      then some (
          condition Api.condition_spec_observed Api.condition_true "SpecObserved"
            (spec_observed_message obs.observed_spec_hash reported_at))
      else none

  unfoldable pub observed_start_time : Observation → Result (Option Time)
  observed_start_time obs =
      if trim_space obs.start_time == "" then ok none else elim (env.parse_rfc3339 obs.start_time) [
        | none ↦ err (bad_request "invalid startTime")
        | some t ↦ ok (some t)
      ]

  -- The marks before the warning, in the order of the code; each reads the clock.
  unfoldable pub early_marks :
      (ℕ → Time) → Observation → Option Time → DeviceProcessStatus → List Condition
  unfolding set_agent_connected mark spec_observed_condition downloaded_condition verified_condition
      started_condition
  early_marks now obs reported_at st = mark (now 4) (started_condition obs) (
      mark (now 3) (verified_condition obs) (
        mark (now 2) (downloaded_condition obs) (
          mark (now 1) (spec_observed_condition obs reported_at st)
            (set_agent_connected (now 0) st.conditions true connected_reason connected_message).0)))

  unfoldable pub all_marks :
      (ℕ → Time) → Observation → Option Time → DeviceProcessStatus → List Condition
  unfolding early_marks warning_condition healthy_condition mark
  all_marks now obs reported_at st =
      let cs = early_marks now obs reported_at st in
      mark (now 6) (healthy_condition obs) (mark (now 5) (warning_condition cs obs) cs)

  -- The status that is written, for a start time that was read.
  unfoldable pub observed_status :
      (ℕ → Time)
      → Observation
      → Option Time
      → Option Time
      → DeviceProcessStatus
      → DeviceProcessStatus
  unfolding all_marks lifted_phase hash_changed
  observed_status now obs reported_at start st = record st {
    phase = lifted_phase obs;
    conditions = all_marks now obs reported_at st;
    observed_spec_hash =
        if hash_changed obs st then obs.observed_spec_hash else st.observed_spec_hash;
    runtime_semantics = runtime_semantics_daemon_set;
    artifact_digest = trim_space obs.artifact_digest;
    artifact_download_attempts = obs.artifact_download_attempts;
    last_artifact_attempt_time = trim_space obs.last_artifact_attempt_time;
    artifact_last_error = trim_space obs.artifact_last_error;
    pid = obs.pid;
    start_time = start;
  }

-- `conditionsEqual`: the transition times are not compared.
unfoldable pub conditions_equal : List Condition → List Condition → Bool
conditions_equal [] [] = true
conditions_equal [] (b ∷ bs) = false
conditions_equal (a ∷ as') [] = false
conditions_equal (a ∷ as') (b ∷ bs) =
    let rest = conditions_equal as' bs in
    a.type == b.type
    && a.status == b.status
    && a.reason == b.reason
    && a.message == b.message
    && rest

-- `equalTimePtr`
unfoldable pub equal_time_ptr : Option Time → Option Time → Bool
equal_time_ptr none none = true
equal_time_ptr (some a) (some b) = eqb a b
equal_time_ptr _ _ = false

unfoldable pub reflect_deep_equal_status : DeviceProcessStatus → DeviceProcessStatus → Bool
unfolding conditions_equal equal_time_ptr
reflect_deep_equal_status a b =
    a.phase == b.phase
    && a.observed_spec_hash == b.observed_spec_hash
    && a.runtime_semantics == b.runtime_semantics
    && conditions_equal a.conditions b.conditions
    && a.artifact_version == b.artifact_version
    && a.artifact_digest == b.artifact_digest
    && eqb_ℤ a.artifact_download_attempts b.artifact_download_attempts
    && a.last_artifact_attempt_time == b.last_artifact_attempt_time
    && a.artifact_last_error == b.artifact_last_error
    && eqb_ℤ a.pid b.pid
    && equal_time_ptr a.start_time b.start_time
    && equal_time_ptr a.last_transition_time b.last_transition_time
    && eqb_ℤ a.restart_count b.restart_count
    && a.last_termination_reason == b.last_termination_reason
