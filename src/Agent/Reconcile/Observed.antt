-- ===== src/Agent/Reconcile/Observed.antt =====
-- What `reconcile` reports of the desired items, and which items it manages.
use praetor.Base.{◌≡◌, refl, Bool, inr, ◌||◌, Option, none, some, List, String, ◌==◌, arith}
use praetor.Base.Result.{Result, ok, err}
use praetor.Base.Act.State.{
  Yields, Yields-pure, Yields-if, Yields-bind, Yields-bind_value, Yields-then,
}
use praetor.Gateway.Types.{DesiredItem, Observation}
use praetor.Agent.Env.{Env, ManagedItem, OciResult, error_text}
use praetor.Agent.Units.{render_unit_files}
use praetor.Agent.Systemd.{Paths, paths_for, stop_and_disable_quiet}
use praetor.Agent.Systemd.Files.{ensure_unit_with_details, remove_unit_with_details}
use praetor.Agent.Command.{resolve_command}
use praetor.Agent.Actions.{carry_managed, or_zero}
use praetor.Agent.Artifact.{
  first_observation, not_running, failed, not_applicable, with_result, with_messages, Messages,
  messages_of, failed_messages, fetch_error, Prepared, ended, ready, after_resolve, after_ensure,
  fetch_artifact,
}
use praetor.Agent.Running.{Outcome}
use praetor.Agent.Running.Observed.{
  IsAbout, IsFresh, IsSettled, Reports, failed-Reports, stop_failed-Reports, run_unit-Reports,
}
use praetor.Agent.Reconcile.{
  reload_if, after_files, is_unit_removed, reject_item, after_render, with_command, after_fetch,
  reconcile_item,
}

module _ (namespace name spec_hash : String) where
  abbrev Starts : Observation → Type 0
  Starts obs = IsAbout namespace name spec_hash obs × IsFresh obs

  -- What the fetch of an artifact hands on.
  Hands : Prepared → Type 0
  Hands (ended obs) = IsAbout namespace name spec_hash obs × IsSettled obs
  Hands (ready obs command) = IsAbout namespace name spec_hash obs × IsFresh obs

  -- A failure that is reported with the messages of the artifact.
  failed-Hands :
      (obs : Observation) (message : String) (m : Messages)
      → Starts obs
      → Hands (ended (with_messages (failed obs message) m))
  unfolding Hands with_messages failed not_running
  failed-Hands obs message m h = ground arith

  messages-Starts : (obs : Observation) (m : Messages) → Starts obs → Starts (with_messages obs m)
  unfolding with_messages
  messages-Starts obs m h = ground arith

  result-Starts : (obs : Observation) (r : OciResult) → Starts obs → Starts (with_result obs r)
  unfolding with_result
  result-Starts obs r h = ground arith

  not_applicable-Starts : (obs : Observation) → Starts obs → Starts (not_applicable obs)
  unfolding not_applicable
  not_applicable-Starts obs h = ground arith

  module _ {W : Type 0} (env : Env W) where
    resolve-Hands :
        (unit : String) (obs : Observation) (m : Messages) (r : Result (List String))
        → Starts obs
        → Yields Hands (after_resolve env unit obs m r)
    unfolding after_resolve Hands
    resolve-Hands unit obs m (ok command) h = Yields-pure _ (messages-Starts obs m h)
    resolve-Hands unit obs m (err e) h =
        Yields-then (stop_and_disable_quiet env unit) _
          (Yields-pure _ (failed-Hands obs (error_text e) m h))

    ensure-Hands :
        (item : DesiredItem) (unit : String) (obs : Observation)
        (answer : OciResult × Option String)
        → Starts obs
        → Yields Hands (after_ensure env item unit obs answer)
    unfolding after_ensure
    ensure-Hands item unit obs (result, none) h =
        Yields-bind (resolve_command env item.spec.execution.command result.rootfs_path) _ (λ r.
          resolve-Hands unit (with_result obs result) (messages_of result) r
            (result-Starts obs result h))
    ensure-Hands item unit obs (result, some error) h =
        Yields-then (stop_and_disable_quiet env unit) _ (
          Yields-pure _ (
            failed-Hands (with_result obs result) (fetch_error result error)
              (failed_messages error (messages_of result)) (result-Starts obs result h)))

    fetch_artifact-Hands :
        (item : DesiredItem) (unit : String) (obs : Observation)
        → Starts obs
        → Yields Hands (fetch_artifact env item unit obs)
    unfolding fetch_artifact Hands
    fetch_artifact-Hands item unit obs h =
        Yields-if (item.spec.artifact.type == "oci") _ _
          (Yields-bind (env.ensure item.spec.artifact.url) _
            (λ answer. ensure-Hands item unit obs answer h))
          (Yields-pure _ (not_applicable-Starts obs h))

    files-Reports :
        (prev : Option ManagedItem) (unit : String) (obs : Observation) (r : Result (Bool × Bool))
        → Starts obs
        → Yields (Reports namespace name spec_hash unit) (after_files env prev unit spec_hash obs r)
    unfolding after_files carry_managed
    files-Reports prev unit obs (ok (unit_changed, env_changed)) h =
        Yields-then (reload_if env unit_changed) _ (
          run_unit-Reports env namespace name spec_hash unit prev obs (unit_changed || env_changed)
            h.0 h.1)
    files-Reports prev unit obs (err e) h =
        stop_failed-Reports env namespace name spec_hash unit obs (error_text e)
          (carry_managed (or_zero prev) unit) h.0 h.1 refl

    render-Reports :
        (prev : Option ManagedItem) (paths : Paths) (obs : Observation)
        (r : Result (String × String))
        → Starts obs
        → Yields
            (Reports namespace name spec_hash paths.unit_name)
            (after_render env prev spec_hash paths obs r)
    unfolding after_render reject_item carry_managed
    render-Reports prev paths obs (ok (unit_content, env_content)) h =
        Yields-bind
          (ensure_unit_with_details env paths.unit_name unit_content paths.env_path env_content) _
          (λ r. files-Reports prev paths.unit_name obs r h)
    render-Reports prev paths obs (err e) h =
        Yields-then (stop_and_disable_quiet env paths.unit_name) _ (
          Yields-bind (remove_unit_with_details env paths.unit_path paths.env_path) _ (λ r.
            Yields-then (reload_if env (is_unit_removed r)) _ (
              Yields-pure _ (
                failed-Reports env namespace name spec_hash paths.unit_name obs (error_text e)
                  (carry_managed (or_zero prev) paths.unit_name) h.0 h.1 refl))))

    fetch-Reports :
        (prev : Option ManagedItem) (item : DesiredItem) (paths : Paths) (prepared : Prepared)
        → item.spec_hash ≡ spec_hash
        → Hands prepared
        → Yields
            (Reports namespace name spec_hash paths.unit_name)
            (after_fetch env prev item paths prepared)
    unfolding after_fetch Hands carry_managed
    fetch-Reports prev item paths (ended obs) same h =
        Yields-pure _ (record { about = h.0; settled = h.1; names_unit = refl })
    fetch-Reports prev item paths (ready obs command) same h = rw same (
        render-Reports prev paths obs (render_unit_files (with_command item command) paths.env_path)
          h)

module _ {W : Type 0} (env : Env W) where
  -- What a desired item's outcome says.
  abbrev pub ReportsItem : DesiredItem → Outcome → Type 0
  ReportsItem item out =
      Reports item.namespace item.name item.spec_hash
        (paths_for env item.namespace item.name).unit_name out

  pub reconcile_item-Reports :
      (prev : Option ManagedItem) (item : DesiredItem)
      → Yields (ReportsItem item) (reconcile_item env prev item)
  unfolding reconcile_item first_observation not_running carry_managed
  reconcile_item-Reports prev item =
      let paths = paths_for env item.namespace item.name in
      let fresh : IsFresh (first_observation item) = record { no_pid = refl; no_start = refl } in
      let about : IsAbout item.namespace item.name item.spec_hash (first_observation item) =
        record { same_namespace = refl; same_name = refl; same_hash = refl } in
      Yields-if (item.spec.execution.backend == "systemd") _ _
        (Yields-bind_value (Hands item.namespace item.name item.spec_hash)
          (fetch_artifact env item paths.unit_name (first_observation item)) _
          (fetch_artifact-Hands item.namespace item.name item.spec_hash env item paths.unit_name
            (first_observation item) (about, fresh))
          (λ prepared h.
            fetch-Reports item.namespace item.name item.spec_hash env prev item paths prepared refl
              h))
        (Yields-pure _ (record {
          about = record { same_namespace = refl; same_name = refl; same_hash = refl };
          settled = record { started_is_healthy = refl; up_or_down = inr (refl, (refl, refl)) };
          names_unit = refl;
        }))
