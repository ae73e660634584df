-- ===== src/Controller/Requests.antt =====
-- Which deployments are reconciled when a NetworkSwitch changes.
pub mod Changed
pub mod Enqueued
pub mod Complete
use praetor.Base.{
  ◌≡◌, Bool, true, false, not, ◌&&◌, ◌||◌, Option, none, some, get_or, is_nil, List, [], ◌∷◌, ◌++◌,
  String, ◌==◌, if◌then◌else◌, Map, lookup,
}
use praetor.Base.Result.{Result, ok, err, ApiError}
use praetor.Api.{DeviceProcessDeployment}
use praetor.Controller.Env.{Env, Device}
use praetor.Controller.Labels.{
  insert_key, insert_keys, has, map_keys, all_selector_index_key, has_unsupported_selector,
}

-- types.NamespacedName
pub record Request : Type 0 where
  pub namespace : String
  pub name : String

unfoldable pub same : Request → Request → Bool
same a b = a.namespace == b.namespace && a.name == b.name

-- _, ok := seen[nn]
unfoldable pub has_request : Request → List Request → Bool
unfolding same
has_request r [] = false
has_request r (q ∷ qs) = same q r || has_request r qs

-- newLabels[k], which is "" where the key is missing
unfoldable pub label : String → Map String → String
unfolding lookup
label k m = get_or (lookup k m) ""

-- One loop of `changedLabelKeys`, over the keys of one of the two maps.
unfoldable pub collect_changed : List String → (old new : Map String) → List String → List String
unfolding label insert_key
collect_changed [] old new keys = keys
collect_changed (k ∷ ks) old new keys =
    collect_changed ks old new
      (if not (label k new == label k old) then insert_key k keys else keys)

unfoldable pub changed_label_keys : Option Device → Option Device → List String
unfolding collect_changed
changed_label_keys none new = []
changed_label_keys (some old) none = []
changed_label_keys (some old) (some new) =
    collect_changed (map_keys new.labels) old.labels new.labels
      (collect_changed (map_keys old.labels) old.labels new.labels [])

-- The body of the loops over requests: the first of each name is appended.
unfoldable pub add_request : Request → List Request → List Request
unfolding has_request
add_request r reqs = if has_request r reqs then reqs else reqs ++ r ∷ []

-- What is handed to the work queue, in order.
unfoldable pub enqueue_from : List Request → List Request → List Request
unfolding add_request
enqueue_from [] queued = queued
enqueue_from (r ∷ reqs) queued = enqueue_from reqs (add_request r queued)

unfoldable pub enqueue_requests : List Request → List Request
unfolding enqueue_from
enqueue_requests reqs = enqueue_from reqs []

module _ {W : Type 0} (env : Env W) where
  unfoldable pub is_selected : DeviceProcessDeployment → Map String → Bool
  is_selected dep labels =
      is_nil (env.selector_error dep.spec.selector) && env.matches dep.spec.selector labels

  abbrev pub request_of : DeviceProcessDeployment → Request
  request_of dep = record { namespace = dep.metadata.namespace; name = dep.metadata.name }

  -- The inner loop of `requestsForNetworkSwitch`.
  unfoldable pub request_deployments :
      Map String → List DeviceProcessDeployment → List Request → List Request
  unfolding is_selected add_request
  request_deployments labels [] reqs = reqs
  request_deployments labels (dep ∷ deps) reqs =
      request_deployments labels deps
        (if is_selected dep labels then add_request (request_of dep) reqs else reqs)

  -- An error of the list is logged, and the loop goes on.
  unfoldable pub request_listed :
      Map String → Result (List DeviceProcessDeployment) → List Request → List Request
  unfolding request_deployments
  request_listed labels (ok deps) reqs = request_deployments labels deps reqs
  request_listed labels (err e) reqs = reqs

  -- The loop over the keys.
  unfoldable pub request_keys : Device → List String → List Request → W → List Request × W
  unfolding request_listed
  request_keys device [] reqs w = (reqs, w)
  request_keys device (k ∷ ks) reqs w =
      let listed = env.list_deployments device.namespace k w in
      request_keys device ks (request_listed device.labels listed.0 reqs) listed.1

  -- The keys that are looked up: those given, or all of the device, and the key of the selectors
  -- that name none.
  unfoldable pub keys_to_check : Map String → List String → List String
  unfolding insert_keys
  keys_to_check labels [] = insert_keys (map_keys labels) (all_selector_index_key ∷ [])
  keys_to_check labels (k ∷ ks) = insert_keys (k ∷ ks) (all_selector_index_key ∷ [])

  unfoldable pub requests_for_network_switch : Device → List String → W → List Request × W
  unfolding request_keys keys_to_check
  requests_for_network_switch device keys w =
      request_keys device (keys_to_check device.labels keys) [] w

  -- The handler of an update event.
  unfoldable pub on_update : (old new : Device) → W → List Request × W
  unfolding changed_label_keys requests_for_network_switch enqueue_requests
  on_update old new w = elim (changed_label_keys (some old) (some new)) [
    | [] ↦ ([], w)
    | k ∷ ks ↦
        let before = requests_for_network_switch old (k ∷ ks) w in
        let after = requests_for_network_switch new (k ∷ ks) before.1 in
        (enqueue_requests (before.0 ++ after.0), after.1)
  ]
