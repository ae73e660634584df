-- ===== src/Agent/Reconcile/Own.antt =====
-- Which units the loop of `reconcile` touches.
use praetor.Base.{
  Bool, true, false, ◌||◌, Option, none, some, List, [], ◌∷◌, String, ◌==◌, if◌then◌else◌, lookup,
  has_key, All, Map, trim_space, has_prefix,
}
use praetor.Base.Result.{Result, ok, err}
use praetor.Base.Act.Keeps.{Keeps, Keeps-pure, Keeps-raise, Keeps-call, Keeps-if, Keeps-bind}
use praetor.Base.Act.State.{pure, Preserves, Preserves-pure, Preserves-if, Preserves-bind}
use praetor.Gateway.Types.{DesiredItem, Observation}
use praetor.Agent.Env.{Env, ManagedItem, OciResult, error_text}
use praetor.Agent.Keys.{item_key, split_key}
use praetor.Agent.Units.{render_unit_files}
use praetor.Agent.Systemd.{Paths, paths_for}
use praetor.Agent.Systemd.Files.{ensure_unit_with_details}
use praetor.Agent.Systemd.Kept.{
  OwnUnitsKeep, stop-Preserves, reload-Preserves, ensure_unit-Preserves, remove_unit-Preserves,
}
use praetor.Agent.Actions.{carry_managed, or_zero}
use praetor.Agent.Command.{is_within, is_outward, place, resolve_relative, resolve_command}
use praetor.Agent.Artifact.{
  backend_systemd, artifact_type_oci, first_observation, with_result, Messages, messages_of,
  Prepared, ended, ready, after_resolve, after_ensure, fetch_artifact,
}
use praetor.Agent.Reconcile.{
  reload_if, after_files, reject_item, after_render, with_command, after_fetch, reconcile_item,
  reconcile_items, remove_item, remove_missing,
}
use praetor.Agent.Reconcile.Units.{then_stop, stop_failed-Preserves, run_unit-Preserves}

module _ {W : Type 0} (env : Env W) {P : W → Type 0} {IsOwn : String → Type 0}
    (keep : OwnUnitsKeep env P IsOwn) where
  place-Keeps :
      (root normalized first : String) (rest : List String)
      → Keeps P (place env root normalized first rest)
  unfolding place
  place-Keeps root normalized first rest =
      Keeps-bind (env.abs root) _ (Keeps-call (env.abs root) (λ w p. keep.abs root w p))
        (λ root_abs.
          Keeps-bind (env.abs (env.join_path root normalized)) _
            (Keeps-call (env.abs (env.join_path root normalized))
              (λ w p. keep.abs (env.join_path root normalized) w p))
            (λ joined_abs.
              Keeps-if (is_within root_abs joined_abs) _ _ (λ _. Keeps-pure _)
                (λ _. Keeps-raise _)))

  relative-Keeps :
      (root first : String) (rest : List String) → Keeps P (resolve_relative env root first rest)
  unfolding resolve_relative
  relative-Keeps root first rest =
      Keeps-if (trim_space first == "") _ _ (λ _. Keeps-raise _)
        (λ _.
          Keeps-if (is_outward env (env.clean (trim_space first))) _ _ (λ _. Keeps-raise _)
            (λ _. place-Keeps root (env.clean (trim_space first)) first rest))

  resolve-Keeps :
      (command : List String) (rootfs : String) → Keeps P (resolve_command env command rootfs)
  unfolding resolve_command
  resolve-Keeps [] rootfs = Keeps-raise _
  resolve-Keeps (first ∷ rest) rootfs =
      Keeps-if (trim_space rootfs == "") _ _ (λ _. Keeps-raise _)
        (λ _.
          Keeps-if (has_prefix first "/") _ _ (λ _. Keeps-pure _)
            (λ _. relative-Keeps (trim_space rootfs) first rest))

  reload_if-Preserves : (changed : Bool) → Preserves P (reload_if env changed)
  unfolding reload_if
  reload_if-Preserves true = record { at = λ w p. (reload-Preserves env keep).at w p }
  reload_if-Preserves false = Preserves-pure tt

  -- The unit of an item is stopped, and its files are removed.
  module _ (unit : String) (own : IsOwn unit) where
    after_resolve-Preserves :
        (obs : Observation) (m : Messages) (r : Result (List String))
        → Preserves P (after_resolve env unit obs m r)
    unfolding after_resolve
    after_resolve-Preserves obs m (ok command) = Preserves-pure _
    after_resolve-Preserves obs m (err e) = then_stop env keep unit own _

    after_ensure-Preserves :
        (item : DesiredItem) (obs : Observation) (answer : OciResult × Option String)
        → Preserves P (after_ensure env item unit obs answer)
    unfolding after_ensure
    after_ensure-Preserves item obs (result, some error) = then_stop env keep unit own _
    after_ensure-Preserves item obs (result, none) = record {
      at = λ w p.
          (after_resolve-Preserves (with_result obs result) (messages_of result) _).at _
            ((resolve-Keeps item.spec.execution.command result.rootfs_path).at w p);
    }

    fetch-Preserves :
        (item : DesiredItem) (obs : Observation) → Preserves P (fetch_artifact env item unit obs)
    unfolding fetch_artifact
    fetch-Preserves item obs =
        Preserves-if (item.spec.artifact.type == artifact_type_oci) _ _
          (λ _. record {
            at = λ w p.
                (after_ensure-Preserves item obs (env.ensure item.spec.artifact.url w).0).at
                  (env.ensure item.spec.artifact.url w).1 (keep.fetches item.spec.artifact.url w p);
          })
          (λ _. Preserves-pure _)

    after_files-Preserves :
        (prev : Option ManagedItem) (hash : String) (obs : Observation) (r : Result (Bool × Bool))
        → Preserves P (after_files env prev unit hash obs r)
    unfolding after_files
    after_files-Preserves prev hash obs (err e) =
        stop_failed-Preserves env keep unit own obs (error_text e)
          (carry_managed (or_zero prev) unit)
    after_files-Preserves prev hash obs (ok (a, b)) = record {
      at = λ w p.
          (run_unit-Preserves env keep unit own prev hash obs (a || b)).at _
            ((reload_if-Preserves a).at w p);
    }

  reject-Preserves :
      (paths : Paths) (obs : Observation) (text : String) (managed : ManagedItem)
      → IsOwn paths.unit_name
      → Preserves P (reject_item env paths obs text managed)
  unfolding reject_item
  reject-Preserves paths obs text managed own = record {
    at = λ w p. (reload_if-Preserves _).at _ (
        (remove_unit-Preserves env keep paths.unit_path paths.env_path).at _
          ((stop-Preserves env keep paths.unit_name own).at w p));
  }

  after_render-Preserves :
      (prev : Option ManagedItem) (hash : String) (paths : Paths) (obs : Observation)
      (r : Result (String × String))
      → IsOwn paths.unit_name
      → Preserves P (after_render env prev hash paths obs r)
  unfolding after_render
  after_render-Preserves prev hash paths obs (err e) own =
      reject-Preserves paths obs (error_text e) (carry_managed (or_zero prev) paths.unit_name) own
  after_render-Preserves prev hash paths obs (ok (unit_content, env_content)) own =
      Preserves-bind
        (ensure_unit_with_details env paths.unit_name unit_content paths.env_path env_content) _
        (ensure_unit-Preserves env keep paths.unit_name unit_content paths.env_path env_content)
        (λ files. after_files-Preserves paths.unit_name own prev hash obs files)

  after_fetch-Preserves :
      (prev : Option ManagedItem) (item : DesiredItem) (paths : Paths) (prepared : Prepared)
      → IsOwn paths.unit_name
      → Preserves P (after_fetch env prev item paths prepared)
  unfolding after_fetch
  after_fetch-Preserves prev item paths (ended obs) own = Preserves-pure _
  after_fetch-Preserves prev item paths (ready obs command) own =
      after_render-Preserves prev item.spec_hash paths obs
        (render_unit_files (with_command item command) paths.env_path) own

  reconcile_item-Preserves :
      (prev : Option ManagedItem) (item : DesiredItem)
      → IsOwn (paths_for env item.namespace item.name).unit_name
      → Preserves P (reconcile_item env prev item)
  unfolding reconcile_item
  reconcile_item-Preserves prev item own =
      let paths = paths_for env item.namespace item.name in
      Preserves-if (item.spec.execution.backend == backend_systemd) _ _
        (λ _.
          Preserves-bind (fetch_artifact env item paths.unit_name (first_observation item)) _
            (fetch-Preserves paths.unit_name own item (first_observation item))
            (λ prepared. after_fetch-Preserves prev item paths prepared own))
        (λ _. Preserves-pure _)

  pub reconcile_items-Preserves :
      (old : Map ManagedItem) (items : List DesiredItem) (now : Map ManagedItem)
      → All (λ item. IsOwn (paths_for env item.namespace item.name).unit_name) items
      → Preserves P (reconcile_items env old items now)
  unfolding reconcile_items
  reconcile_items-Preserves old [] now own = Preserves-pure _
  reconcile_items-Preserves old (item ∷ items) now (own, more) = record {
    at = λ w p. (reconcile_items-Preserves old items _ more).at _ (
        (reconcile_item-Preserves (lookup (item_key item.namespace item.name) old) item own).at w
          p);
  }

  remove_item-Preserves :
      (managed : ManagedItem) (key : Result (String × String))
      → IsOwn managed.unit_name
      → Preserves P (remove_item env managed key)
  unfolding remove_item
  remove_item-Preserves managed (err e) own = Preserves-pure tt
  remove_item-Preserves managed (ok (ns, name)) own =
      let paths = paths_for env ns name in
      record {
        at = λ w p. (reload_if-Preserves _).at _ (
            (remove_unit-Preserves env keep paths.unit_path paths.env_path).at _
              ((stop-Preserves env keep managed.unit_name own).at w p));
      }

  pub remove_missing-Preserves :
      (now old : Map ManagedItem)
      → All (λ entry. IsOwn entry.1.unit_name) old
      → Preserves P (remove_missing env now old)
  unfolding remove_missing
  remove_missing-Preserves now [] own = Preserves-pure tt
  remove_missing-Preserves now ((key, managed) ∷ old) (own, more) =
      Preserves-bind (if has_key key now then pure tt else remove_item env managed (split_key key))
        _
        (Preserves-if (has_key key now) _ _ (λ _. Preserves-pure tt)
          (λ _. remove_item-Preserves managed (split_key key) own))
        (λ _. remove_missing-Preserves now old more)
