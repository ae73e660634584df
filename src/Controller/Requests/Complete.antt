-- ===== src/Controller/Requests/Complete.antt =====
-- The deployments that are requested for a device.
use praetor.Base.{
  ◌≡◌, ◌∙◌, refl, true, not, ◌||◌, some, List, [], ◌∷◌, ◌++◌, String, ◌==◌, eq_iff, arith, Map,
  Bool-cases, inl, inr, ◌⊎◌,
}
use praetor.Base.Result.{Result, ok, err}
use praetor.Api.{DeviceProcessDeployment}
use praetor.Controller.Env.{Env, Device}
use praetor.Controller.Labels.{has, all_selector_index_key}
use praetor.Controller.Labels.Keys.{has-insert_keys}
use praetor.Controller.Requests.{
  Request, label, has_request, is_selected, request_of, request_deployments, request_listed,
  request_keys, keys_to_check, requests_for_network_switch, changed_label_keys, on_update,
}
use praetor.Controller.Requests.Enqueued.{
  same_refl, has_request-append, has_request-add_request, enqueue_requests_lem,
}
use praetor.Controller.Requests.Changed.{has-changed_label_keys}

-- The deployment is an entry of the list.
abbrev pub IsIn : DeviceProcessDeployment → List DeviceProcessDeployment → Type 0
IsIn dep [] = ⊥
IsIn dep (d ∷ deps) = (d ≡ dep) ⊎ IsIn dep deps

module _ {W : Type 0} (env : Env W) where
  request_deployments_keeps :
      (labels : Map String) (r : Request) (deps : List DeviceProcessDeployment)
      (reqs : List Request)
      → has_request r reqs ≡ true
      → has_request r (request_deployments env labels deps reqs) ≡ true
  unfolding request_deployments
  request_deployments_keeps labels r [] reqs h = h
  request_deployments_keeps labels r (d ∷ deps) reqs h =
      request_deployments_keeps labels r deps _
        (ground (arith, has_request-add_request r (request_of env d) reqs))

  request_deployments_complete :
      (labels : Map String) (dep : DeviceProcessDeployment) (deps : List DeviceProcessDeployment)
      (reqs : List Request)
      → IsIn dep deps
      → is_selected env dep labels ≡ true
      → has_request (request_of env dep) (request_deployments env labels deps reqs) ≡ true
  unfolding request_deployments
  request_deployments_complete labels dep [] reqs m sel = elim m [ ]
  request_deployments_complete labels dep (d ∷ deps) reqs (inl e) sel =
      request_deployments_keeps labels (request_of env dep) deps _ (
        rw e (
          rw sel (
            ground (
              arith,
              has_request-add_request (request_of env dep) (request_of env dep) reqs,
              same_refl (request_of env dep),
            ))))
  request_deployments_complete labels dep (d ∷ deps) reqs (inr m) sel =
      request_deployments_complete labels dep deps _ m sel

  request_listed_keeps :
      (labels : Map String) (r : Request) (listed : Result (List DeviceProcessDeployment))
      (reqs : List Request)
      → has_request r reqs ≡ true
      → has_request r (request_listed env labels listed reqs) ≡ true
  unfolding request_listed
  request_listed_keeps labels r (ok deps) reqs h = request_deployments_keeps labels r deps reqs h
  request_listed_keeps labels r (err e) reqs h = h

  request_keys_keeps :
      (device : Device) (r : Request) (ks : List String) (reqs : List Request) (w : W)
      → has_request r reqs ≡ true
      → has_request r (request_keys env device ks reqs w).0 ≡ true
  unfolding request_keys
  request_keys_keeps device r [] reqs w h = h
  request_keys_keeps device r (k ∷ ks) reqs w h =
      let listed = env.list_deployments device.namespace k w in
      request_keys_keeps device r ks _ listed.1
        (request_listed_keeps device.labels r listed.0 reqs h)

  module _ (device : Device) (k : String) (deps : List DeviceProcessDeployment)
      (dep : DeviceProcessDeployment)
      (indexed : (w : W) → (env.list_deployments device.namespace k w).0 ≡ ok deps)
      (member : IsIn dep deps) (sel : is_selected env dep device.labels ≡ true) where
    request_keys_complete :
        (ks : List String) (reqs : List Request) (w : W)
        → has k ks ≡ true
        → has_request (request_of env dep) (request_keys env device ks reqs w).0 ≡ true
    unfolding request_keys has
    request_keys_complete [] reqs w h = cc
    request_keys_complete (j ∷ ks) reqs w h = elim (Bool-cases (j == k)) [
      | inl e ↦
          let jk : j ≡ k = (eq_iff j k).0 e in
          request_keys_keeps device (request_of env dep) ks _ _ (
            rw jk (
              rw (indexed w) (request_deployments_complete device.labels dep deps reqs member sel)))
      | inr e ↦ request_keys_complete ks _ _ (ground arith)
    ]

    -- A deployment that selects the device and that the index holds under one of the keys is among the
    -- requests.
    pub requests_complete :
        (keys : List String) (w : W)
        → has k keys ≡ true
        → has_request (request_of env dep) (requests_for_network_switch env device keys w).0 ≡ true
    unfolding requests_for_network_switch keys_to_check has
    requests_complete [] w h = cc
    requests_complete (j ∷ keys) w h =
        request_keys_complete (keys_to_check env device.labels (j ∷ keys)) [] w
          (ground (arith, has-insert_keys (j ∷ keys) (all_selector_index_key ∷ []) k))

  module _ (old new : Device) (k : String) (deps : List DeviceProcessDeployment)
      (dep : DeviceProcessDeployment) (same_namespace : new.namespace ≡ old.namespace)
      (indexed : (w : W) → (env.list_deployments old.namespace k w).0 ≡ ok deps)
      (member : IsIn dep deps)
      (sel : is_selected env dep old.labels || is_selected env dep new.labels ≡ true) where
    handled :
        (keys : List String) (w : W)
        → has k keys ≡ true
        → has_request (request_of env dep) (
            (requests_for_network_switch env old keys w).0
            ++ (requests_for_network_switch env new keys
                (requests_for_network_switch env old keys w).1).0)
          ≡ true
    handled keys w h =
        let first = requests_for_network_switch env old keys w in
        let second = requests_for_network_switch env new keys first.1 in
        let split = has_request-append (request_of env dep) first.0 second.0 in
        elim (Bool-cases (is_selected env dep old.labels)) [
          | inl e ↦
              let found = requests_complete old k deps dep indexed member e keys w h in
              ground (arith, split, found)
          | inr e ↦
              let found =
                requests_complete new k deps dep (λ v. rw same_namespace (indexed v)) member
                  (ground (arith, sel, e)) keys first.1 h in
              ground (arith, split, found)
        ]

    update_of_keys :
        (keys : List String) (w : W)
        → changed_label_keys (some old) (some new) ≡ keys
        → has k keys ≡ true
        → has_request (request_of env dep) (on_update env old new w).0 ≡ true
    unfolding on_update has
    update_of_keys [] w e h = cc
    update_of_keys (j ∷ keys) w e h =
        rw (e, on_update) ((enqueue_requests_lem _).1 (request_of env dep) ∙ handled (j ∷ keys) w h)

    -- When the value of a device's label under a key changes, where a missing label counts as an empty
    -- one, every deployment that the index holds under the key, whenever it is asked, and that selected
    -- the device before, or selects it now, is handed to the work queue. A label with an empty value that
    -- is added or removed is no such change. The device stays in its namespace.
    pub on_update_complete :
        (w : W)
        → not (label k new.labels == label k old.labels) ≡ true
        → has_request (request_of env dep) (on_update env old new w).0 ≡ true
    on_update_complete w h =
        update_of_keys (changed_label_keys (some old) (some new)) w refl
          (has-changed_label_keys old new k ∙ h)
