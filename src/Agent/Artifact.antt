-- ===== src/Agent/Artifact.antt =====
-- agent/main.go: the part of `reconcile` that fetches an item's artifact.
use praetor.Base.{false, Option, none, some, List, String, ◌==◌, if◌then◌else◌, trim_space}
use praetor.Base.Int.{pos}
use praetor.Base.Result.{Result, ok, err}
use praetor.Base.Act.State.{State, pure, ◌>>=◌, ◌>>◌}
use praetor.Gateway.Types.{DesiredItem, Observation}
use praetor.Agent.Env.{Env, OciResult, error_text}
use praetor.Agent.Units.{restart_policy_never}
use praetor.Agent.Systemd.{stop_and_disable_quiet}
use praetor.Agent.Command.{resolve_command}

abbrev pub backend_systemd : String
backend_systemd = "systemd"

abbrev pub artifact_type_oci : String
artifact_type_oci = "oci"

unfoldable pub default_string : String → String → String
unfolding trim_space
default_string val fallback = if trim_space val == "" then fallback else val

abbrev pub restart_warning : String
restart_warning =
    "DaemonSet semantics: agent will start service when stopped even if Restart=no; RestartPolicy affects systemd only."

-- The observation that an item starts with.
unfoldable pub first_observation : DesiredItem → Observation
first_observation item = record {
  namespace = item.namespace;
  name = item.name;
  observed_spec_hash = item.spec_hash;
  process_started = none;
  healthy = none;
  pid = pos 0;
  start_time = "";
  error_message = none;
  warning_message =
      if item.spec.restart_policy == restart_policy_never then some restart_warning else none;
  artifact_digest = "";
  artifact_download_attempts = pos 0;
  last_artifact_attempt_time = "";
  artifact_last_error = "";
  artifact_downloaded = none;
  artifact_verified = none;
  artifact_download_reason = "";
  artifact_download_message = "";
  artifact_verify_reason = "";
  artifact_verify_message = "";
}

unfoldable pub not_running : Observation → Observation
not_running obs = record obs { process_started = some false; healthy = some false }

unfoldable pub failed : Observation → String → Observation
unfolding not_running
failed obs message = record (not_running obs) { error_message = some message }

unfoldable pub not_applicable : Observation → Observation
not_applicable obs = record obs {
  artifact_digest = "";
  artifact_download_attempts = pos 0;
  last_artifact_attempt_time = "";
  artifact_last_error = "";
  artifact_downloaded = some false;
  artifact_verified = some false;
  artifact_download_reason = "NotApplicable";
  artifact_download_message = "artifact type not oci";
  artifact_verify_reason = "NotApplicable";
  artifact_verify_message = "artifact type not oci";
}

-- The fields that do not depend on the error.
unfoldable pub with_result : Observation → OciResult → Observation
with_result obs result = record obs {
  artifact_digest = result.digest;
  artifact_download_attempts = result.attempts;
  last_artifact_attempt_time = result.last_attempt_time;
  artifact_last_error = result.last_error;
  artifact_downloaded = some result.downloaded;
  artifact_verified = some result.verified;
}

-- The variables downloadReason, downloadMessage, verifyReason and verifyMessage.
pub record Messages : Type 0 where
  pub download_reason : String
  pub download_message : String
  pub verify_reason : String
  pub verify_message : String

unfoldable pub messages_of : OciResult → Messages
unfolding default_string
messages_of result = record {
  download_reason = default_string result.download_reason "ArtifactDownloaded";
  download_message = default_string result.download_message "artifact downloaded";
  verify_reason = default_string result.verify_reason "ArtifactVerified";
  verify_message = default_string result.verify_message "artifact verified";
}

-- The four tests behind an error of the fetch.
unfoldable pub failed_messages : String → Messages → Messages
unfolding trim_space
failed_messages error m =
    let download = if trim_space m.download_message == "" then error else m.download_message in
    record {
      download_reason =
          if m.download_reason == "" then "ArtifactDownloadFailed" else m.download_reason;
      download_message = download;
      verify_reason = if m.verify_reason == "" then "ArtifactVerifyFailed" else m.verify_reason;
      verify_message = if trim_space m.verify_message == "" then download else m.verify_message;
    }

unfoldable pub with_messages : Observation → Messages → Observation
with_messages obs m = record obs {
  artifact_download_reason = m.download_reason;
  artifact_download_message = m.download_message;
  artifact_verify_reason = m.verify_reason;
  artifact_verify_message = m.verify_message;
}

-- The text that is reported for a failed fetch.
unfoldable pub fetch_error : OciResult → String → String
unfolding trim_space
fetch_error result error = if trim_space result.last_error == "" then error else result.last_error

-- Either the item ends here with an observation, or it goes on with a command.
pub data Prepared : Type 0 where
  ended : Observation → Prepared
  ready : Observation → List String → Prepared

module _ {W : Type 0} (env : Env W) where
  -- The command, resolved or not.
  unfoldable pub after_resolve :
      String → Observation → Messages → Result (List String) → State W Prepared
  unfolding failed with_messages stop_and_disable_quiet
  after_resolve unit obs m (ok command) = pure (ready (with_messages obs m) command)
  after_resolve unit obs m (err e) = do
    stop_and_disable_quiet env unit
    pure (ended (with_messages (failed obs (error_text e)) m))

  unfoldable pub after_ensure :
      DesiredItem → String → Observation → OciResult × Option String → State W Prepared
  unfolding failed with_messages with_result failed_messages messages_of fetch_error after_resolve
      resolve_command stop_and_disable_quiet
  after_ensure item unit obs (result, some error) = do
    stop_and_disable_quiet env unit
    pure (
        ended (
          with_messages (failed (with_result obs result) (fetch_error result error))
            (failed_messages error (messages_of result))))
  after_ensure item unit obs (result, none) = do
    command ← resolve_command env item.spec.execution.command result.rootfs_path
    after_resolve unit (with_result obs result) (messages_of result) command

  unfoldable pub fetch_artifact : DesiredItem → String → Observation → State W Prepared
  unfolding not_applicable after_ensure
  fetch_artifact item unit obs =
      if item.spec.artifact.type == artifact_type_oci
      then (do answer ← env.ensure item.spec.artifact.url; after_ensure item unit obs answer)
      else pure (ready (not_applicable obs) item.spec.execution.command)
