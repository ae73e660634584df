-- ===== src/Gateway/Tests.antt =====
-- Runs of the gateway over a world that logs the device of each written process.
use mathlib.Core.List.{Permᴰ}
use Prim.Native.String
use praetor.Base.{
  ◌+◌, ◌≡◌, refl, ◌≢◌, ◌↔◌, true, false, none, some, List, [], ◌∷◌, String, All, eq_iff, lookup,
  trim_space,
}
use praetor.Base.Text.{trim_left, trim_right}
use praetor.Base.Int.{pos}
use praetor.Base.Result.{ok}
use praetor.Api
use praetor.Api.{Time, Condition, DeviceProcess, DeviceProcessStatus}
use praetor.Conditions.Laws.{HasUniqueTypes}
use praetor.Gateway.Types.{new_config, Config, Registry, Observation, ReportRequest, DesiredItem}
use praetor.Gateway.Env.{Sys, Env}
use praetor.Gateway.Env.Keeps.{Keeps, ReadsKeep, WritesKeep}
use praetor.Gateway.Heartbeat.{store_desired_heartbeat, record_report, record_heartbeat}
use praetor.Gateway.Heartbeat.Laws.{Section, Reach, HintsArePositive, Reach-HintsArePositive}
use praetor.Gateway.Auth.{handle_device, path_parts, unauthorized}
use praetor.Gateway.Auth.Laws.{open_without_shared_token, devices_path}
use praetor.Gateway.Auth.Served.{served, MaySpeak, unauthorized_iff, served-MaySpeak}
use praetor.Gateway.Desired.{desired_item, desired_items, hash_desired}
use praetor.Gateway.Desired.Order.{desired_order_independent, HaveDistinctNames}
use praetor.Gateway.Status.{observed_status, all_marks, reflect_deep_equal_status, trimmed, is_set}
use praetor.Gateway.Status.Phase.{phase_of_observation, Failed, IsUp}
use praetor.Gateway.Status.Stable.{observed_twice, all_marks-HasUniqueTypes}
use praetor.Gateway.Handlers.{handle_desired, handle_report}
use praetor.Gateway.Handlers.Isolation.{handle_desired-Keeps, handle_report-Keeps}

abbrev agent_status : DeviceProcessStatus
agent_status = record {
  phase = "";
  conditions = [];
  observed_spec_hash = "";
  runtime_semantics = "";
  artifact_version = "";
  artifact_digest = "";
  artifact_download_attempts = pos 0;
  last_artifact_attempt_time = "";
  artifact_last_error = "";
  pid = pos 0;
  start_time = none;
  last_transition_time = none;
  restart_count = pos 0;
  last_termination_reason = "";
}

-- A process of the name on the device `rack1`.
abbrev process : String → DeviceProcess
process name = record {
  metadata = record {
    name = name;
    namespace = "infra";
    uid = name;
    resource_version = "1";
    generation = pos 1;
    labels = [];
    annotations = [];
    owner_references = [];
  };
  spec = record {
    device_ref = record { kind = "NetworkSwitch"; name = "rack1"; namespace = "" };
    artifact = record { type = "oci"; url = "registry/agent"; checksum_sha256 = "" };
    execution = record {
      backend = "systemd";
      command = "agent" ∷ [];
      args = [];
      env = [];
      working_dir = "";
      user = "";
    };
    restart_policy = "Always";
    health_check = none;
  };
  status = agent_status;
}

-- Hashing is the identity and the token of a device is its name behind the secret.
abbrev logging : Env (List String)
logging = record {
  clock = λ log. ((λ n. 1000 + n), log);
  list_processes = λ device log. (ok (process "a" ∷ process "b" ∷ []), log);
  get_process = λ name namespace log. (ok (process name), log);
  patch_status = λ old new log. (ok tt, old.spec.device_ref.name ∷ log);
  hmac_sha256_hex = λ secret device. Prim.Native.String.◌++◌ secret device;
  sha256_hex = λ s. s;
  marshal_spec = λ spec. spec.restart_policy;
  parse_rfc3339 = λ s. none;
  format_rfc3339 = λ t. "2024";
}

abbrev OnlyRack1 : List String → Type 0
OnlyRack1 log = All (λ device. device ≡ "rack1") log

reads : ReadsKeep logging OnlyRack1
reads = record { clock = λ w h. h; list = λ device w h. h; get = λ name namespace w h. h }

writes : WritesKeep logging "rack1" OnlyRack1
writes = record { patch = λ old new w own h. (own, h) }

abbrev settings : Config
settings = record {
  auth_token = "";
  auth_secret = "s-";
  default_interval = pos 60000000000;
  stale_multiplier = pos 3;
}

settings_of_new : new_config " " " s- " (pos 60000000000) (pos 3) ≡ settings
unfolding new_config trim_space trim_left trim_right
settings_of_new = refl

abbrev started : Observation
started = record {
  namespace = "infra";
  name = "a";
  observed_spec_hash = "sha256:Always";
  process_started = some true;
  healthy = some true;
  pid = pos 7;
  start_time = "";
  error_message = none;
  warning_message = none;
  artifact_digest = "";
  artifact_download_attempts = pos 1;
  last_artifact_attempt_time = "";
  artifact_last_error = "";
  artifact_downloaded = some true;
  artifact_verified = none;
  artifact_download_reason = "";
  artifact_download_message = "";
  artifact_verify_reason = "";
  artifact_verify_message = "";
}

abbrev report : ReportRequest
report = record {
  agent_version = "1";
  timestamp = "";
  heartbeat = true;
  observations = started ∷ [];
}

abbrev empty_registry : Registry
empty_registry = record { last_seen = []; last_report = []; heartbeat_hints = [] }

handle_report-Keeps_example : Keeps OnlyRack1 (handle_report logging settings "rack1" (some report))
handle_report-Keeps_example =
    handle_report-Keeps logging settings OnlyRack1 "rack1" reads writes (some report)

handle_desired-Keeps_example : Keeps OnlyRack1 (handle_desired logging settings "rack1" "")
handle_desired-Keeps_example = handle_desired-Keeps logging settings OnlyRack1 "rack1" reads ""

abbrev done : DeviceProcessStatus
done = observed_status logging (λ n. 10 + n) started (some 5) none agent_status

observed_twice_example :
    reflect_deep_equal_status done
      (observed_status logging (λ n. 99 + n) started (some 77) none done)
    ≡ true
observed_twice_example =
    observed_twice logging (λ n. 10 + n) (λ n. 99 + n) started (some 5) (some 77) none agent_status

all_marks-HasUniqueTypes_example :
    HasUniqueTypes (all_marks logging (λ n. 10 + n) started (some 5) agent_status)
all_marks-HasUniqueTypes_example =
    all_marks-HasUniqueTypes logging (λ n. 10 + n) started (some 5) agent_status tt

phase_of_observation_example :
    (done.phase ≡ Api.phase_failed ↔ Failed started)
    × (done.phase ≡ Api.phase_running ↔ ((trimmed started.error_message ≡ "") × IsUp started))
    × (done.phase ≡ Api.phase_pending ↔ (
        (trimmed started.error_message ≡ "")
        × (is_set started.process_started ≡ false)
        × (is_set started.healthy ≡ false)))
phase_of_observation_example =
    phase_of_observation logging (λ n. 10 + n) started (some 5) none agent_status

open_without_shared_token_example :
    handle_device logging settings "/v1/devices/rack1/report" "POST" "wrong" ≢ unauthorized
open_without_shared_token_example =
    open_without_shared_token logging settings "/v1/devices/rack1/report" "POST" "wrong" refl

rack1_parts : path_parts (devices_path "r1/report") ≡ "v1" ∷ "devices" ∷ "r1" ∷ "report" ∷ []
unfolding path_parts trim_left trim_right
rack1_parts = refl

abbrev guarded : Config
guarded = record settings { auth_token = "shared" }

unauthorized_iff_example :
    (handle_device logging guarded (devices_path "r1/report") "POST" "s-rack2" ≡ unauthorized)
    ↔ (¬ MaySpeak logging guarded "r1" "s-rack2")
unauthorized_iff_example =
    unauthorized_iff logging guarded "r1/report" "v1" "devices" "r1" "report" [] rack1_parts "POST"
      "s-rack2"

r1_is_served :
    served (handle_device logging guarded (devices_path "r1/report") "POST" "s-r1") ≡ some "r1"
unfolding handle_device
r1_is_served = refl

served-MaySpeak_example : MaySpeak logging guarded "r1" "s-r1"
served-MaySpeak_example =
    served-MaySpeak logging guarded "r1/report" "POST" "s-r1" "r1" r1_is_served

a_before_b : HaveDistinctNames (process "b" ∷ process "a" ∷ [])
a_before_b = (((λ e. cc ((eq_iff "b" "a").1 e.1)), tt), (tt, tt))

desired_order_independent_example :
    (desired_items logging (process "b" ∷ process "a" ∷ [])
      ≡ desired_items logging (process "a" ∷ process "b" ∷ []))
    × (hash_desired logging (desired_items logging (process "b" ∷ process "a" ∷ []))
        ≡ hash_desired logging (desired_items logging (process "a" ∷ process "b" ∷ [])))
desired_order_independent_example =
    desired_order_independent logging (Permᴰ.swap refl refl) a_before_b

abbrev two_items : List DesiredItem
two_items = desired_item logging (process "b") ∷ desired_item logging (process "a") ∷ []

abbrev polled : Registry
polled = store_desired_heartbeat "rack1" empty_registry

empty-HintsArePositive : HintsArePositive empty_registry
unfolding lookup
empty-HintsArePositive device h e = cc

Reach-HintsArePositive_example :
    HintsArePositive (record_heartbeat 8 "rack1" (pos 30) (record_report 9 "rack1" polled))
Reach-HintsArePositive_example = Reach-HintsArePositive empty-HintsArePositive (
    Reach.next
      (Reach.next (Reach.next Reach.here (Section.desired empty_registry "rack1"))
        (Section.report polled 9 "rack1"))
      (Section.heartbeat (record_report 9 "rack1" polled) 8 "rack1" (pos 30)))

abbrev seen_at_1 : Registry
seen_at_1 = record {
  last_seen = ("rack1", 1) ∷ [];
  last_report = ("rack1", 1) ∷ [];
  heartbeat_hints = ("rack1", pos 10) ∷ [];
}

abbrev late : Env (List String)
late = record logging { clock = λ log. ((λ n. 41000000000 + n), log) }

abbrev waiting : Sys (List String)
waiting = record { registry = seen_at_1; world = []; events = [] }
