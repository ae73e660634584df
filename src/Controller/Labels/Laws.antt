-- ===== src/Controller/Labels/Laws.antt =====
-- Which labels a desired DeviceProcess has.
use praetor.Base.{
  ◌≡◌, ◌∙◌, refl, Bool, true, ◌||◌, ◌&&◌, Option, none, some, List, [], ◌∷◌, String, ◌==◌, eq_iff,
  arith, if◌then◌else◌, Map, lookup, insert_all, HasUniqueKeys, or_else, lookup-insert,
  lookup-insert_all, last-eq-lookup, insert_all-HasUniqueKeys, insert-HasUniqueKeys,
}
use praetor.Api.{LabelSelector, DeviceProcessDeployment}
use praetor.Controller.Env.{Env, Device}
use praetor.Controller.Labels.{
  insert_keys, has, selector_label_keys, merge_string_maps, keep_label, select_labels,
  selected_device_labels, ownership_labels, desired_labels, build_desired_device_process,
  deployment_key,
}
use praetor.Controller.Labels.Keys.{has-insert_keys}

-- The entries of `extras` come before those of `base`.
pub lookup-merge_string_maps :
    (k : String) (base extras : Map String)
    → HasUniqueKeys base
    → HasUniqueKeys extras
    → lookup k (merge_string_maps base extras) ≡ or_else (lookup k extras) (lookup k base)
unfolding merge_string_maps lookup
lookup-merge_string_maps k base extras ub ue =
    let inner : lookup k (insert_all base []) ≡ or_else (lookup k base) none =
      lookup-insert_all k base [] ∙ last-eq-lookup k base none ub in
    let outer = lookup-insert_all k extras (insert_all base []) in
    let outer' = last-eq-lookup k extras (lookup k (insert_all base [])) ue in
    ground (arith, inner, outer, outer')

merge-HasUniqueKeys : (base extras : Map String) → HasUniqueKeys (merge_string_maps base extras)
unfolding merge_string_maps
merge-HasUniqueKeys base extras =
    insert_all-HasUniqueKeys extras (insert_all base []) (insert_all-HasUniqueKeys base [] tt)

module _ {W : Type 0} (env : Env W) where
  -- The label of a device under a key, where its name and its value are valid.
  abbrev pub valid_label : Option String → String → Option String
  valid_label none k = none
  valid_label (some v) k =
      if env.is_qualified_name k && env.is_valid_label_value v then some v else none

  lookup-keep_label :
      (key k : String) (o : Option String) (result : Map String)
      → lookup k (keep_label env key o result)
        ≡ (if key == k then or_else (valid_label o k) (lookup k result) else lookup k result)
  unfolding keep_label
  lookup-keep_label key k none result = ground arith
  lookup-keep_label key k (some v) result =
      ground (arith, eq_iff key k, lookup-insert key k v result)

  lookup-select_labels :
      (labels : Map String) (k : String) (keys : List String) (result : Map String)
      → lookup k (select_labels env labels keys result) ≡ (
          if has k keys
          then or_else (valid_label (lookup k labels) k) (lookup k result)
          else lookup k result)
  unfolding select_labels has
  lookup-select_labels labels k [] result = refl
  lookup-select_labels labels k (j ∷ keys) result =
      let step = lookup-keep_label j k (lookup j labels) result in
      let rest = lookup-select_labels labels k keys (keep_label env j (lookup j labels) result) in
      ground (arith, eq_iff j k, step, rest)

  keep_label-HasUniqueKeys :
      (key : String) (o : Option String) (result : Map String)
      → HasUniqueKeys result
      → HasUniqueKeys (keep_label env key o result)
  unfolding keep_label
  keep_label-HasUniqueKeys key none result h = h
  keep_label-HasUniqueKeys key (some v) result h =
      ground (arith, insert-HasUniqueKeys key v result h)

  select_labels-HasUniqueKeys :
      (labels : Map String) (keys : List String) (result : Map String)
      → HasUniqueKeys result
      → HasUniqueKeys (select_labels env labels keys result)
  unfolding select_labels
  select_labels-HasUniqueKeys labels [] result h = h
  select_labels-HasUniqueKeys labels (k ∷ keys) result h =
      select_labels-HasUniqueKeys labels keys (keep_label env k (lookup k labels) result)
        (keep_label-HasUniqueKeys k (lookup k labels) result h)

  selected-HasUniqueKeys :
      (labels : Map String) (selector : Option LabelSelector)
      → HasUniqueKeys (selected_device_labels env labels selector)
  unfolding selected_device_labels
  selected-HasUniqueKeys [] selector = tt
  selected-HasUniqueKeys (l ∷ labels) selector =
      select_labels-HasUniqueKeys (l ∷ labels)
        (insert_keys ("role" ∷ "type" ∷ "rack" ∷ []) (selector_label_keys selector)) [] tt

  -- The keys whose labels a process takes from its device.
  abbrev pub is_wanted : LabelSelector → String → Bool
  is_wanted selector k =
      has k ("role" ∷ "type" ∷ "rack" ∷ []) || has k (selector_label_keys (some selector))

  either :
      (b : Bool) (o : Option String)
      → (if b then or_else o none else none) ≡ (if b then o else none)
  either b none = ground arith
  either b (some v) = ground arith

  lookup-selected_device_labels :
      (labels : Map String) (selector : LabelSelector) (k : String)
      → lookup k (selected_device_labels env labels (some selector))
        ≡ (if is_wanted selector k then valid_label (lookup k labels) k else none)
  unfolding selected_device_labels lookup
  lookup-selected_device_labels [] selector k = ground arith
  lookup-selected_device_labels (l ∷ labels) selector k =
      let wanted = ("role" ∷ "type" ∷ "rack" ∷ []) in
      let keys = insert_keys wanted (selector_label_keys (some selector)) in
      let found = lookup-select_labels (l ∷ labels) k keys [] in
      let wants = has-insert_keys wanted (selector_label_keys (some selector)) k in
      found ∙ rw wants (either (is_wanted selector k) (valid_label (lookup k (l ∷ labels)) k))

  -- A label of the desired process is the device's, where the selector or the fixed list names its key
  -- and name and value are valid; else the ownership label; else the template's.
  pub lookup-desired_labels :
      (dep : DeviceProcessDeployment) (device : Device) (name k : String)
      → HasUniqueKeys dep.spec.template.metadata.labels
      → lookup k (build_desired_device_process env dep device name).metadata.labels
        ≡ or_else
            (if is_wanted dep.spec.selector k then valid_label (lookup k device.labels) k else none)
            (or_else
              (lookup k (ownership_labels env dep))
              (lookup k dep.spec.template.metadata.labels))
  unfolding build_desired_device_process desired_labels
  lookup-desired_labels dep device name k unique =
      let template = dep.spec.template.metadata.labels in
      let selected = selected_device_labels env device.labels (some dep.spec.selector) in
      let owned = merge_string_maps template (ownership_labels env dep) in
      let outer =
        lookup-merge_string_maps k owned selected
          (merge-HasUniqueKeys template (ownership_labels env dep))
          (selected-HasUniqueKeys device.labels (some dep.spec.selector)) in
      let inner =
        lookup-merge_string_maps k template (ownership_labels env dep) unique
          (refl, (refl, (refl, tt))) in
      let chosen = lookup-selected_device_labels device.labels dep.spec.selector k in
      rw outer (rw inner (rw chosen refl))

  -- A device label under the key of the owner's name replaces the name of the deployment, where the
  -- selector names the key and the label is valid.
  pub owner_label_overridden :
      (dep : DeviceProcessDeployment) (device : Device) (name owner : String)
      → HasUniqueKeys dep.spec.template.metadata.labels
      → is_wanted dep.spec.selector deployment_key ≡ true
      → valid_label (lookup deployment_key device.labels) deployment_key ≡ some owner
      → lookup deployment_key (build_desired_device_process env dep device name).metadata.labels
        ≡ some owner
  owner_label_overridden dep device name owner unique wanted valid =
      lookup-desired_labels dep device name deployment_key unique ∙ rw wanted (rw valid refl)
