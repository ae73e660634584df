-- ===== src/Gateway/Update.antt =====
-- `updateStatusForObservation`: read, compute, write, with retries on a conflict.
pub mod Isolation
use praetor.Base.{
  ℕ, zero, suc, ◌≡◌, Bool, true, false, not, ◌&&◌, Option, none, some, List, [], ◌∷◌, String, ◌==◌,
  if◌then◌else◌, join,
}
use praetor.Base.Result.{Result, ok, err, ApiError, bad_request, conflict}
use praetor.Api
use praetor.Api.{Time, DeviceProcess, DeviceProcessStatus}
use praetor.Gateway.Types.{Observation, Event, connected_reason, connected_message}
use praetor.Gateway.Env.{Env, Act, pure, raise, call, attempt, emit, read_clock, ◌>>=◌, ◌>>◌}
use praetor.Gateway.Status.{
  set_agent_connected, hash_changed, warning_changed, early_marks, trimmed, is_set, observed_status,
  observed_start_time, reflect_deep_equal_status,
}

abbrev pub event_normal : String
event_normal = "Normal"

abbrev pub event_warning : String
event_warning = "Warning"

abbrev pub event : DeviceProcess → String → String → String → Event
event proc event_type reason message = record {
  namespace = proc.metadata.namespace;
  name = proc.metadata.name;
  event_type = event_type;
  reason = reason;
  message = message;
}

module _ {W : Type 0} (env : Env W) where
  abbrev pub emit_if : Bool → Event → Act W (Unit {0})
  emit_if true e = emit e
  emit_if false e = pure tt

  unfoldable pub observed_message : Observation → Option Time → String
  unfolding join
  observed_message obs none = join ("hash " ∷ obs.observed_spec_hash ∷ [])
  observed_message obs (some t) =
      join ("hash " ∷ obs.observed_spec_hash ∷ " at " ∷ env.format_rfc3339 t ∷ [])

  emit_health : DeviceProcess → Option Bool → Act W (Unit {0})
  emit_health proc none = pure tt
  emit_health proc (some healthy) = emit (
      event proc (if healthy then event_normal else event_warning) "Healthy"
        "process health reported")

  -- The events after a write that went through; `st` is the status that was read, and the tests on it
  -- are the code's `…Changed` flags.
  unfoldable pub emit_changes :
      (device : String) (obs : Observation) (reported_at : Option Time) (now : ℕ → Time)
      → DeviceProcess
      → DeviceProcessStatus
      → Act W (Unit {0})
  unfolding set_agent_connected hash_changed warning_changed observed_message emit_health
  emit_changes device obs reported_at now proc st = do
    emit_if (set_agent_connected (now 0) st.conditions true connected_reason connected_message).1
        (event proc event_normal "AgentConnected" (join ("device " ∷ device ∷ " connected" ∷ [])))
    emit_if (hash_changed obs st)
        (event proc event_normal "SpecObserved" (observed_message obs reported_at))
    emit_if
        (warning_changed (early_marks env now obs reported_at st) obs
          && not (trimmed obs.warning_message == ""))
        (event proc event_warning "SpecWarning" (trimmed obs.warning_message))
    emit_if (is_set obs.process_started)
        (event proc event_normal "ProcessStarted" "process started")
    emit_health proc obs.healthy

  -- What the loop does after the write: `again` is its next round.
  after_patch : Act W (Unit {0}) → Act W (Unit {0}) → Result (Unit {0}) → Act W (Unit {0})
  after_patch again done (ok _) = done
  after_patch again done (err conflict) = again
  after_patch again done (err e) = raise e

  abbrev pub observed_process :
      Observation → Option Time → (ℕ → Time) → Option Time → DeviceProcess → DeviceProcess
  observed_process obs reported_at now start proc = record proc {
    status = observed_status env now obs reported_at start proc.status;
  }

  -- The end of a round: nothing is written where the comparison sees no change.
  unfoldable pub write_observed :
      (device : String) (obs : Observation) (reported_at : Option Time)
      → Act W (Unit {0})
      → DeviceProcess
      → (ℕ → Time)
      → Option Time
      → Act W (Unit {0})
  unfolding observed_status reflect_deep_equal_status emit_changes after_patch
  write_observed device obs reported_at again proc now start =
      let proc' = observed_process obs reported_at now start proc in
      if reflect_deep_equal_status proc.status proc'.status then pure tt else do
        written ← attempt (call (env.patch_status proc proc'))
        after_patch again (emit_changes device obs reported_at now proc' proc.status) written

  -- One round of the loop on the object that was read.
  unfoldable pub apply_observation :
      (device : String) (obs : Observation) (reported_at : Option Time)
      → Act W (Unit {0})
      → DeviceProcess
      → Act W (Unit {0})
  unfolding observed_start_time write_observed
  apply_observation device obs reported_at again proc =
      if not (proc.spec.device_ref.name == device)
      then raise (
          bad_request (
            join (
              "device " ∷ device ∷ " not authorized for " ∷ proc.metadata.namespace ∷ "/"
              ∷ proc.metadata.name ∷ [])))
      else do
        now ← read_clock env
        start ← (λ s. (observed_start_time env obs, s))
        write_observed device obs reported_at again proc now start

  -- The loop, by recursion on the attempts that are left.
  unfoldable pub update_from :
      ℕ → (device : String) (obs : Observation) (reported_at : Option Time) → Act W (Unit {0})
  unfolding apply_observation
  update_from zero device obs reported_at = raise conflict
  update_from (suc left) device obs reported_at = do
    proc ← call (env.get_process obs.name obs.namespace)
    apply_observation device obs reported_at (update_from left device obs reported_at) proc

  abbrev pub max_attempts : ℕ
  max_attempts = 3

  unfoldable pub update_status_for_observation :
      (device : String) (obs : Observation) (reported_at : Option Time) → Act W (Unit {0})
  unfolding update_from
  update_status_for_observation = update_from max_attempts
