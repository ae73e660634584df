-- ===== src/Controller/Tests.antt =====
-- Runs of the reconciler over a world that logs what is written.
use praetor.Base.{
  ◌+◌, ◌-◌, ◌≤◌, ◌≡◌, ◌∙◌, ap, sym, refl, Bool, true, false, not, ◌&&◌, ◌||◌, none, some, List, [],
  ◌∷◌, String, ◌==◌, All, eq_refl, ltb, eqb, arith, inl, length, count, lookup, or_else,
  if◌then◌else◌, join,
}
use praetor.Base.Int.{pos}
use praetor.Base.Text.{text_length}
use praetor.Base.Result.{Result, ok, err, not_found}
use praetor.Api
use praetor.Api.{
  Time, Condition, DeviceProcess, DeviceProcessStatus, DeviceProcessDeployment, LabelSelector,
}
use praetor.Conditions.{condition, find_condition}
use praetor.Controller.Env.{Env, Device}
use praetor.Controller.Env.Keeps.{ReadsKeep}
use praetor.Controller.Names.{device_process_name}
use praetor.Controller.Names.Laws.{device_process_name-length, names_collide}
use praetor.Controller.Labels.{
  has, ownership_labels, build_desired_device_process, desired_spec, deployment_key,
}
use praetor.Controller.Labels.Laws.{is_wanted, valid_label, lookup-desired_labels}
use praetor.Controller.Requests.{
  Request, label, has_request, request_of, is_selected, changed_label_keys, on_update,
}
use praetor.Controller.Requests.Changed.{has-changed_label_keys}
use praetor.Controller.Requests.Complete.{on_update_complete}
use praetor.Controller.Apply.Isolation.{AppliesKeep, Target, ReferenceKeepsTarget}
use praetor.Controller.Cleanup.{is_stale_process, cleanup_stale}
use praetor.Controller.Cleanup.Isolation.{StaleDeletesKeep, cleanup_stale-Keeps}
use praetor.Controller.Status.{
  counted_status, is_process_ready, is_updated, status_slices, update_status,
}
use praetor.Controller.Status.Counts.{counted_status_exact, conditions_of_counts, status_of, truth}
use praetor.Controller.Status.Aliasing.{EqualPatchesKeep, conditions_never_patched}
use praetor.Controller.Reconcile.{reconcile}
use praetor.Controller.Reconcile.Isolation.{OthersKeep, reconcile-Keeps}

abbrev device : Device
device = record {
  name = "rack1";
  namespace = "infra";
  uid = "d1";
  resource_version = "1";
  generation = pos 1;
  labels = ("role", "leaf") ∷ ("site", "ams") ∷ [];
  annotations = [];
  owner_references = [];
}

abbrev relabelled : Device
relabelled = record device { labels = ("role", "spine") ∷ ("site", "ams") ∷ [] }

abbrev selector : LabelSelector
selector = record { match_labels = ("role", "spine") ∷ []; match_expressions = [] }

abbrev both_conditions : List Condition
both_conditions =
    condition Api.condition_available "False" "NotEnoughAvailable" "0/1 available"
    ∷ condition Api.condition_progressing "True" "Updating" "updated=0 available=0 desired=1"
    ∷ []

abbrev deployment : DeviceProcessDeployment
deployment = record {
  metadata = record {
    name = "agent";
    namespace = "infra";
    uid = "u1";
    resource_version = "1";
    generation = pos 2;
    labels = [];
    annotations = [];
    owner_references = [];
  };
  spec = record {
    selector = selector;
    update_strategy = record { type = "RollingUpdate"; rolling_update = none };
    template = record {
      metadata = record { labels = ("tier", "edge") ∷ []; annotations = [] };
      spec = record {
        artifact = record { type = "oci"; url = "registry/agent"; checksum_sha256 = "" };
        execution = record {
          backend = "systemd";
          command = "agent" ∷ [];
          args = [];
          env = [];
          working_dir = "";
          user = "";
        };
        restart_policy = "Always";
        health_check = none;
      };
    };
  };
  status = record {
    observed_generation = pos 1;
    desired_number_scheduled = pos 1;
    current_number_scheduled = pos 1;
    updated_number_scheduled = pos 0;
    number_ready = pos 0;
    number_available = pos 0;
    number_unavailable = pos 1;
    conditions = both_conditions;
  };
}

abbrev process : DeviceProcess
process = record {
  metadata = record {
    name = "agent-rack9";
    namespace = "infra";
    uid = "p1";
    resource_version = "1";
    generation = pos 1;
    labels = ("deviceprocessdeployment", "agent") ∷ [];
    annotations = [];
    owner_references = [];
  };
  spec = record {
    device_ref = record { kind = "NetworkSwitch"; name = "rack9"; namespace = "" };
    artifact = record { type = "oci"; url = "registry/agent"; checksum_sha256 = "" };
    execution = record {
      backend = "systemd";
      command = "agent" ∷ [];
      args = [];
      env = [];
      working_dir = "";
      user = "";
    };
    restart_policy = "Always";
    health_check = none;
  };
  status = record {
    phase = "Running";
    conditions = condition "AgentConnected" "True" "" "" ∷ condition "Healthy" "True" "" "" ∷ [];
    observed_spec_hash = "sha256:Always";
    runtime_semantics = "";
    artifact_version = "";
    artifact_digest = "";
    artifact_download_attempts = pos 0;
    last_artifact_attempt_time = "";
    artifact_last_error = "";
    pid = pos 0;
    start_time = none;
    last_transition_time = none;
    restart_count = pos 0;
    last_termination_reason = "";
  };
}

-- The log holds what a write is judged by: the restart policy that an object is given, whether a deleted
-- object is controlled by its deployment, and whether a patch of a status leaves the conditions.
data Write : Type 0 where
  applied : String → Write
  deleted : Bool → Write
  patched : Bool → Write

abbrev World : Type 0
World = List Write

abbrev same_messages : List Condition → List Condition → Bool
same_messages [] [] = true
same_messages (a ∷ as') (b ∷ bs) = a.message == b.message && same_messages as' bs
same_messages _ _ = false

same_messages_refl : (cs : List Condition) → same_messages cs cs ≡ true
same_messages_refl [] = refl
same_messages_refl (c ∷ cs) = ground (arith, eq_refl c.message, same_messages_refl cs)

abbrev controls : DeviceProcess → Bool
controls p = p.spec.restart_policy == "Always"

abbrev logging : Env World
logging = record {
  clock = λ w. ((λ n. 1000 + n), w);
  get_deployment = λ namespace name w. (ok deployment, w);
  get_process = λ namespace name w. (err not_found, w);
  list_switches = λ namespace s w. (ok (device ∷ []), w);
  list_processes = λ namespace name w. (ok (process ∷ []), w);
  list_deployments = λ namespace key w. (ok (deployment ∷ []), w);
  apply_process = λ p w. (ok tt, applied p.spec.restart_policy ∷ w);
  create_process = λ p w. (ok tt, applied p.spec.restart_policy ∷ w);
  update_process = λ p w. (ok tt, applied p.spec.restart_policy ∷ w);
  delete_process = λ p w. (ok tt, deleted (controls p) ∷ w);
  patch_status =
      λ old new w. (ok tt, patched (same_messages old.status.conditions new.status.conditions) ∷ w);
  record_event = λ dep type reason message w. w;
  set_controller_reference = λ dep p. ok p;
  is_controlled_by = λ p dep. controls p;
  selector_error = λ s. none;
  matches = λ s labels. true;
  is_qualified_name = λ k. true;
  is_valid_label_value = λ v. true;
  is_dns1123_subdomain = λ s. true;
  error_text = λ e. "";
  to_lower = λ s. s;
  sha1_hex = λ s. s;
  sha256_hex = λ s. s;
  marshal_spec = λ spec. spec.restart_policy;
}

reads : (P : World → Type 0) → ReadsKeep logging P
reads P = record {
  clock = λ w h. h;
  get_deployment = λ namespace name w h. h;
  get_process = λ namespace name w h. h;
  list_switches = λ namespace s w h. h;
  list_processes = λ namespace name w h. h;
}

abbrev process_in : Result DeviceProcess → DeviceProcess → DeviceProcess
process_in (ok p) q = p
process_in (err e) q = q

reference : ReferenceKeepsTarget logging
reference dep p q e =
    let same : q ≡ p = ap (λ r. process_in r p) (sym e) in
    (ap (λ r. r.metadata.namespace) same, (ap (λ r. r.metadata.name) same, ap (λ r. r.spec) same))

abbrev IsAlways : Write → Type 0
IsAlways (applied policy) = policy ≡ "Always"
IsAlways _ = Unit

abbrev IsOwned : Write → Type 0
IsOwned (deleted owned) = owned ≡ true
IsOwned _ = Unit

abbrev IsSame : Write → Type 0
IsSame (patched same) = same ≡ true
IsSame _ = Unit

abbrev target : Target
target = record {
  namespace = "infra";
  name = "agent-rack1";
  spec = desired_spec logging deployment device;
}

applies : AppliesKeep logging target (All IsAlways)
unfolding desired_spec
applies = record {
  apply = λ p w aims h. (ap (λ s. s.restart_policy) aims.1.1, h);
  create = λ p w aims h. (ap (λ s. s.restart_policy) aims.1.1, h);
  update = λ p w aims h. (ap (λ s. s.restart_policy) aims, h);
}

stale_is_owned :
    (dep : DeviceProcessDeployment) (desired : List String) (p : DeviceProcess)
    → is_stale_process logging dep desired p ≡ true
    → controls p ≡ true
unfolding is_stale_process
stale_is_owned dep desired p h = ground arith

stale_deletes : StaleDeletesKeep logging (All IsOwned) deployment ("agent-rack1" ∷ [])
stale_deletes p w stale h = (stale_is_owned deployment ("agent-rack1" ∷ []) p stale, h)

cleanup_stale-Keeps_example :
    All IsOwned (cleanup_stale logging deployment ("agent-rack1" ∷ []) []).1
cleanup_stale-Keeps_example =
    cleanup_stale-Keeps logging (All IsOwned) deployment (reads (All IsOwned)) ("agent-rack1" ∷ [])
      stale_deletes [] tt

others : OthersKeep logging (All IsOwned)
others = record {
  reads = reads (All IsOwned);
  applies = λ t. record {
    apply = λ p w a h. (tt, h);
    create = λ p w a h. (tt, h);
    update = λ p w a h. (tt, h);
  };
  patch_status = λ old new w h. (tt, h);
  record_event = λ dep type reason message w h. h;
}

reconcile-Keeps_example : All IsOwned (reconcile logging 0 "infra" "agent" []).1
reconcile-Keeps_example =
    reconcile-Keeps logging (All IsOwned) others reference "infra" "agent"
      (λ dep desired p w read stale h. (stale_is_owned dep desired p stale, h)) 0 [] tt

equal_patches : EqualPatchesKeep logging (All IsSame)
equal_patches old new w e h =
    (ap (same_messages old.status.conditions) (sym e) ∙ same_messages_refl old.status.conditions, h)

conditions_never_patched_example :
    All IsSame (update_status logging 0 deployment (device ∷ []) []).1
unfolding find_condition
conditions_never_patched_example =
    conditions_never_patched logging (All IsSame) 0 deployment (device ∷ []) refl refl
      (reads (All IsSame)) equal_patches [] tt

counted_status_exact_example :
    let status = counted_status deployment 2 [] (process ∷ []) [] in
    (status.desired_number_scheduled ≡ pos 2)
    × (status.current_number_scheduled ≡ pos (length (process ∷ [])))
    × (status.updated_number_scheduled ≡ pos (count (is_updated []) (process ∷ [])))
    × (status.number_ready ≡ pos (count is_process_ready (process ∷ [])))
    × (status.number_available ≡ pos (count is_process_ready (process ∷ [])))
    × (status.number_unavailable ≡ pos (2 - count is_process_ready (process ∷ [])))
counted_status_exact_example =
    counted_status_exact deployment 2 [] (process ∷ []) [] (omega arith) (omega arith)

conditions_of_counts_example :
    let ready = count is_process_ready (process ∷ []) in
    let updated = count (is_updated []) (process ∷ []) in
    let cs = (status_slices (λ n. n) 0 deployment 2 [] (process ∷ [])).new in
    (status_of Api.condition_available cs ≡ some (truth (ltb 0 2 && eqb ready 2)))
    × (status_of Api.condition_progressing cs
        ≡ some (truth (ltb 0 2 && (ltb updated 2 || ltb ready 2))))
conditions_of_counts_example =
    conditions_of_counts (λ n. n) 0 deployment 2 [] (process ∷ []) (omega arith) (omega arith)

lookup-desired_labels_example :
    lookup "role"
      (build_desired_device_process logging deployment device "agent-rack1").metadata.labels
    ≡ or_else
        (if is_wanted logging selector "role"
          then valid_label logging (lookup "role" device.labels) "role"
          else none)
        (or_else
          (lookup "role" (ownership_labels logging deployment))
          (lookup "role" deployment.spec.template.metadata.labels))
unfolding lookup
lookup-desired_labels_example =
    lookup-desired_labels logging deployment device "agent-rack1" "role" (refl, tt)

abbrev by_owner : DeviceProcessDeployment
by_owner = record deployment {
  spec = record deployment.spec {
    selector = record { match_labels = (deployment_key, "other") ∷ []; match_expressions = [] };
  };
}

abbrev owned_device : Device
owned_device = record device { labels = (deployment_key, "other") ∷ [] }

device_process_name-length_example : text_length (device_process_name logging "agent" "rack1") ≤ 253
device_process_name-length_example = device_process_name-length logging "agent" "rack1"

names_collide_example :
    device_process_name logging (join ("edge" ∷ "-" ∷ "agent" ∷ [])) "rack1"
    ≡ device_process_name logging "edge" (join ("agent" ∷ "-" ∷ "rack1" ∷ []))
unfolding join text_length
names_collide_example = names_collide logging "edge" "agent" "rack1" refl (omega arith)

has-changed_label_keys_example :
    has "role" (changed_label_keys (some device) (some relabelled))
    ≡ not (label "role" relabelled.labels == label "role" device.labels)
has-changed_label_keys_example = has-changed_label_keys device relabelled "role"

abbrev one_request : Request
one_request = record { namespace = "infra"; name = "agent" }

on_update_complete_example :
    has_request (request_of logging deployment) (on_update logging device relabelled []).0 ≡ true
unfolding is_selected label lookup
on_update_complete_example =
    on_update_complete logging device relabelled "role" (deployment ∷ []) deployment refl
      (λ w. refl) (inl refl) refl [] refl
