-- ===== src/Agent/Reconcile.antt =====
-- agent/main.go: `reconcile`, from one item to all. The fetcher is the one that `main` sets.
pub mod Observed
pub mod Complete
pub mod Own
pub mod Units
use praetor.Base.{
  Bool, true, false, ◌&&◌, ◌||◌, Option, none, some, is_nil, List, [], ◌∷◌, String, ◌==◌,
  if◌then◌else◌, lookup, insert, has_key,
}
use praetor.Base.Maps.{Map}
use praetor.Base.Result.{Result, ok, err}
use praetor.Base.Act.State.{State, pure, ◌>>=◌, ◌>>◌}
use praetor.Gateway.Types.{DesiredItem, Observation}
use praetor.Agent.Env.{Env, ManagedItem, error_text}
use praetor.Agent.Keys.{item_key, split_key}
use praetor.Agent.Units.{render_unit_files}
use praetor.Agent.Systemd.{Paths, paths_for, daemon_reload, stop_and_disable_quiet}
use praetor.Agent.Systemd.Files.{Removed, ensure_unit_with_details, remove_unit_with_details}
use praetor.Agent.Actions.{carry_managed, or_zero}
use praetor.Agent.Artifact.{
  backend_systemd, first_observation, not_running, failed, Prepared, ended, ready, fetch_artifact,
}
use praetor.Agent.Running.{Outcome, outcome, stop_failed, run_unit}

-- Whether the unit was removed, and no file failed to be.
abbrev pub is_unit_removed : Removed → Bool
is_unit_removed r = r.unit_removed && is_nil r.error

abbrev pub with_command : DesiredItem → List String → DesiredItem
with_command item command = record item {
  spec = record item.spec { execution = record item.spec.execution { command = command } };
}

module _ {W : Type 0} (env : Env W) where
  -- A reload whose error is only logged.
  unfoldable pub reload_if : Bool → State W (Unit {0})
  unfolding daemon_reload
  reload_if true w = (tt, (daemon_reload env w).1)
  reload_if false w = (tt, w)

  unfoldable pub after_files :
      Option ManagedItem → String → String → Observation → Result (Bool × Bool) → State W Outcome
  unfolding run_unit reload_if stop_failed carry_managed
  after_files prev unit spec_hash obs (err e) =
      stop_failed env unit obs (error_text e) (carry_managed (or_zero prev) unit)
  after_files prev unit spec_hash obs (ok (unit_changed, env_changed)) = do
    reload_if unit_changed
    run_unit env prev unit spec_hash obs (unit_changed || env_changed)

  -- The unit of an item that cannot be rendered is stopped and its files are removed.
  unfoldable pub reject_item : Paths → Observation → String → ManagedItem → State W Outcome
  unfolding failed stop_and_disable_quiet remove_unit_with_details reload_if
  reject_item paths obs message managed = do
    stop_and_disable_quiet env paths.unit_name
    r ← remove_unit_with_details env paths.unit_path paths.env_path
    reload_if (is_unit_removed r)
    pure (outcome (failed obs message) managed)

  unfoldable pub after_render :
      Option ManagedItem → String → Paths → Observation → Result (String × String) → State W Outcome
  unfolding after_files reject_item ensure_unit_with_details carry_managed
  after_render prev spec_hash paths obs (err e) =
      reject_item paths obs (error_text e) (carry_managed (or_zero prev) paths.unit_name)
  after_render prev spec_hash paths obs (ok (unit_content, env_content)) = do
    files ← ensure_unit_with_details env paths.unit_name unit_content paths.env_path env_content
    after_files prev paths.unit_name spec_hash obs files

  unfoldable pub after_fetch : Option ManagedItem → DesiredItem → Paths → Prepared → State W Outcome
  unfolding after_render render_unit_files carry_managed
  after_fetch prev item paths (ended obs) =
      pure (outcome obs (carry_managed (or_zero prev) paths.unit_name))
  after_fetch prev item paths (ready obs command) =
      after_render prev item.spec_hash paths obs
        (render_unit_files (with_command item command) paths.env_path)

  -- The body of the loop.
  unfoldable pub reconcile_item : Option ManagedItem → DesiredItem → State W Outcome
  unfolding first_observation not_running fetch_artifact after_fetch paths_for carry_managed
  reconcile_item prev item =
      let paths = paths_for env item.namespace item.name in
      let obs = first_observation item in
      if item.spec.execution.backend == backend_systemd
      then (do
        prepared ← fetch_artifact env item paths.unit_name obs
        after_fetch prev item paths prepared)
      else pure (outcome (not_running obs) (carry_managed (or_zero prev) paths.unit_name))

  -- The observations, and `managedNow` from what it holds so far.
  unfoldable pub reconcile_items :
      Map ManagedItem
      → List DesiredItem
      → Map ManagedItem
      → State W (List Observation × Map ManagedItem)
  unfolding reconcile_item lookup insert item_key
  reconcile_items old [] now = pure ([], now)
  reconcile_items old (item ∷ items) now = do
    let key = item_key item.namespace item.name
    out ← reconcile_item (lookup key old) item
    rest ← reconcile_items old items (insert key out.managed now)
    pure (out.observation ∷ rest.0, rest.1)

  -- An item that is no longer desired: its unit is stopped and its files are removed. Errors are only
  -- logged.
  unfoldable pub remove_item : ManagedItem → Result (String × String) → State W (Unit {0})
  unfolding stop_and_disable_quiet remove_unit_with_details reload_if paths_for
  remove_item managed (err e) = pure tt
  remove_item managed (ok (ns, name)) = do
    let paths = paths_for env ns name
    stop_and_disable_quiet env managed.unit_name
    r ← remove_unit_with_details env paths.unit_path paths.env_path
    reload_if r.unit_removed

  unfoldable pub remove_missing : Map ManagedItem → Map ManagedItem → State W (Unit {0})
  unfolding remove_item lookup split_key
  remove_missing now [] = pure tt
  remove_missing now ((key, managed) ∷ old) = do
    if has_key key now then pure tt else remove_item managed (split_key key)
    remove_missing now old
