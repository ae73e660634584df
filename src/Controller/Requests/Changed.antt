-- ===== src/Controller/Requests/Changed.antt =====
-- The label keys that a change of a device touches.
use praetor.Base.{
  ◌≡◌, refl, false, not, ◌&&◌, ◌||◌, none, some, get_or, List, [], ◌∷◌, String, ◌==◌, eq_iff,
  eq_refl, arith, if◌then◌else◌, Map, lookup, insert, lookup-insert,
}
use praetor.Controller.Env.{Env, Device}
use praetor.Controller.Labels.{insert_key, has, map_keys}
use praetor.Controller.Labels.Keys.{has-insert_key}
use praetor.Controller.Requests.{label, collect_changed, changed_label_keys, on_update}

has-collect_changed :
    (ks : List String) (old new : Map String) (keys : List String) (k : String)
    → has k (collect_changed ks old new keys)
      ≡ has k keys || (has k ks && not (label k new == label k old))
unfolding collect_changed has
has-collect_changed [] old new keys k = ground arith
has-collect_changed (j ∷ ks) old new keys k =
    let more = if not (label j new == label j old) then insert_key j keys else keys in
    let added : has k more ≡ has k keys || (j == k && not (label k new == label k old)) =
      ground (arith, has-insert_key j k keys, eq_iff j k, eq_refl k) in
    let rest = has-collect_changed ks old new more k in ground (arith, added, rest)

lookup_absent :
    {V : Type 0} (k : String) (m : Map V) → has k (map_keys m) ≡ false → lookup k m ≡ none
unfolding has lookup
lookup_absent k [] h = refl
lookup_absent k ((j, v) ∷ m) h = ground (arith, lookup_absent k m)

-- The changed keys are those whose label differs, where a missing label counts as the empty text.
pub has-changed_label_keys :
    (old new : Device) (k : String)
    → has k (changed_label_keys (some old) (some new))
      ≡ not (label k new.labels == label k old.labels)
unfolding changed_label_keys has label
has-changed_label_keys old new k =
    let inner = has-collect_changed (map_keys old.labels) old.labels new.labels [] k in
    let outer =
      has-collect_changed (map_keys new.labels) old.labels new.labels
        (collect_changed (map_keys old.labels) old.labels new.labels []) k in
    ground (
      arith,
      inner,
      outer,
      lookup_absent k old.labels,
      lookup_absent k new.labels,
      eq_refl (get_or (lookup k old.labels) ""),
    )

none_of_no_has : (ks : List String) → ((k : String) → has k ks ≡ false) → ks ≡ []
unfolding has
none_of_no_has [] h = refl
none_of_no_has (k ∷ ks) h = ground (arith, h k, eq_refl k)

-- A label with an empty value that appears on a device enqueues nothing, whichever selectors ask
-- whether the label exists.
pub empty_label_unnoticed :
    {W : Type 0} (env : Env W) (device : Device) (k : String) (w : W)
    → lookup k device.labels ≡ none
    → on_update env device (record device { labels = insert k "" device.labels }) w ≡ ([], w)
unfolding on_update label
empty_label_unnoticed env device k w absent =
    let device' = record device { labels = insert k "" device.labels } in
    let quiet : (j : String) → has j (changed_label_keys (some device) (some device')) ≡ false =
      λ j. ground (
        arith,
        has-changed_label_keys device device' j,
        lookup-insert k j "" device.labels,
        eq_iff k j,
        eq_refl (label j device.labels),
        eq_refl "",
      ) in
    rw (none_of_no_has (changed_label_keys (some device) (some device')) quiet, on_update) refl
