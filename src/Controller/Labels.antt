-- ===== src/Controller/Labels.antt =====
-- Label keys of a selector, the labels that a DeviceProcess takes from its device, and the desired
-- DeviceProcess. A set of keys is kept in the order in which `sets.List` gives it.
pub mod Keys
pub mod Laws
use praetor.Base.{
  ◌≡◌, Bool, true, false, ◌&&◌, ◌||◌, Option, none, some, List, [], ◌∷◌, String, ◌==◌,
  if◌then◌else◌, text_ltb, Map, lookup, insert, insert_all,
}
use praetor.Base.Int.{pos}
use praetor.Api
use praetor.Api.{
  LabelSelector, SelectorRequirement, ObjectMeta, DeviceProcess, DeviceProcessSpec,
  DeviceProcessStatus, DeviceProcessDeployment,
}
use praetor.Controller.Env.{Env, Device}

abbrev pub deployment_key : String
deployment_key = "deviceprocessdeployment"

abbrev pub deployment_uid_key : String
deployment_uid_key = "deviceprocessdeployment-uid"

abbrev pub all_selector_index_key : String
all_selector_index_key = "__all__"

-- keys.Insert(k)
unfoldable pub insert_key : String → List String → List String
unfolding text_ltb
insert_key k [] = k ∷ []
insert_key k (j ∷ ks) =
    let rest = insert_key k ks in
    if k == j then j ∷ ks else if text_ltb k j then k ∷ j ∷ ks else j ∷ rest

-- keys.Has(k)
unfoldable pub has : String → List String → Bool
has k [] = false
has k (j ∷ ks) = (j == k) || has k ks

unfoldable pub insert_keys : List String → List String → List String
unfolding insert_key
insert_keys [] keys = keys
insert_keys (k ∷ ks) keys = insert_keys ks (insert_key k keys)

abbrev pub map_keys : {V : Type 0} → Map V → List String
map_keys [] = []
map_keys ((k, v) ∷ m) = k ∷ map_keys m

abbrev pub expression_keys : List SelectorRequirement → List String
expression_keys [] = []
expression_keys (e ∷ es) = e.key ∷ expression_keys es

abbrev pub or_all : List String → List String
or_all [] = all_selector_index_key ∷ []
or_all (k ∷ ks) = k ∷ ks

unfoldable pub selector_label_keys : Option LabelSelector → List String
unfolding insert_keys
selector_label_keys none = all_selector_index_key ∷ []
selector_label_keys (some s) =
    or_all
      (insert_keys (expression_keys s.match_expressions) (insert_keys (map_keys s.match_labels) []))

abbrev pub is_unsupported : SelectorRequirement → Bool
is_unsupported e = e.operator == "NotIn" || e.operator == "DoesNotExist"

abbrev any_unsupported : List SelectorRequirement → Bool
any_unsupported [] = false
any_unsupported (e ∷ es) = is_unsupported e || any_unsupported es

unfoldable pub has_unsupported_selector : Option LabelSelector → Bool
has_unsupported_selector none = false
has_unsupported_selector (some s) = any_unsupported s.match_expressions

unfoldable pub merge_string_maps : Map String → Map String → Map String
unfolding insert_all
merge_string_maps base extras = insert_all extras (insert_all base [])

module _ {W : Type 0} (env : Env W) where
  -- One round of the loop of `selectedDeviceLabels`, on what the device has under the key.
  unfoldable pub keep_label : String → Option String → Map String → Map String
  unfolding insert
  keep_label key none result = result
  keep_label key (some v) result =
      if env.is_qualified_name key && env.is_valid_label_value v
      then insert key v result
      else result

  unfoldable pub select_labels : Map String → List String → Map String → Map String
  unfolding keep_label lookup
  select_labels labels [] result = result
  select_labels labels (k ∷ ks) result =
      select_labels labels ks (keep_label k (lookup k labels) result)

  unfoldable pub selected_device_labels : Map String → Option LabelSelector → Map String
  unfolding select_labels selector_label_keys insert_keys
  selected_device_labels [] selector = []
  selected_device_labels (l ∷ labels) selector =
      select_labels (l ∷ labels)
        (insert_keys ("role" ∷ "type" ∷ "rack" ∷ []) (selector_label_keys selector)) []

  unfoldable pub ownership_labels : DeviceProcessDeployment → Map String
  ownership_labels dep =
      ("app", dep.metadata.name)
      ∷ (deployment_key, dep.metadata.name)
      ∷ (deployment_uid_key, dep.metadata.uid)
      ∷ []

  unfoldable pub desired_labels : DeviceProcessDeployment → Device → Map String
  unfolding merge_string_maps selected_device_labels ownership_labels
  desired_labels dep device =
      merge_string_maps (merge_string_maps dep.spec.template.metadata.labels (ownership_labels dep))
        (selected_device_labels device.labels (some dep.spec.selector))

  unfoldable pub desired_spec : DeviceProcessDeployment → Device → DeviceProcessSpec
  desired_spec dep device =
      let template = dep.spec.template.spec in
      record {
        device_ref = record {
          kind = Api.device_ref_kind_network_switch;
          name = device.name;
          namespace = "";
        };
        artifact = template.artifact;
        execution = template.execution;
        restart_policy = template.restart_policy;
        health_check = template.health_check;
      }

  -- The zero value of `DeviceProcessStatus`.
  abbrev pub empty_status : DeviceProcessStatus
  empty_status = record {
    phase = "";
    conditions = [];
    observed_spec_hash = "";
    runtime_semantics = "";
    artifact_version = "";
    artifact_digest = "";
    artifact_download_attempts = pos 0;
    last_artifact_attempt_time = "";
    artifact_last_error = "";
    pid = pos 0;
    start_time = none;
    last_transition_time = none;
    restart_count = pos 0;
    last_termination_reason = "";
  }

  unfoldable pub build_desired_device_process :
      DeviceProcessDeployment → Device → String → DeviceProcess
  unfolding desired_labels desired_spec
  build_desired_device_process dep device name = record {
    metadata = record {
      name = name;
      namespace = dep.metadata.namespace;
      uid = "";
      resource_version = "";
      generation = pos 0;
      labels = desired_labels dep device;
      annotations = dep.spec.template.metadata.annotations;
      owner_references = [];
    };
    spec = desired_spec dep device;
    status = empty_status;
  }
