-- ===== src/Controller/Reconcile/Isolation.antt =====
-- What `Reconcile` deletes.
use praetor.Base.{ℕ, ◌≡◌, ltb, length, true, Option, none, some, List, [], ◌∷◌, String}
use praetor.Base.Result.{Result, ok, err, not_found, ApiError}
use praetor.Api.{
  DeviceProcess, DeviceProcessDeployment, DeviceProcessDeploymentStatus, LabelSelector,
}
use praetor.Controller.Env.{Env, Device, pure, step}
use praetor.Controller.Env.Keeps.{
  Keeps, ReadsKeep, Keeps-pure, Keeps-raise, Keeps-attempt, Keeps-call, Keeps-step, Keeps-if,
  Keeps-bind, Keeps-bind_result, Keeps-list_processes, Keeps-clock,
}
use praetor.Controller.Labels.{has_unsupported_selector}
use praetor.Controller.Names.{device_process_name}
use praetor.Controller.Apply.Isolation.{
  Target, AppliesKeep, ReferenceKeepsTarget, apply_device_process-Keeps,
}
use praetor.Controller.Cleanup.{is_stale_process}
use praetor.Controller.Cleanup.Isolation.{cleanup_stale-Keeps}
use praetor.Controller.Status.{
  Slices, desired_hashes, status_slices, counted_status, deep_equal, write_status, status_at,
  update_status,
}
use praetor.Controller.Reconcile.{
  Switches, listed, unavailable, failed, Applied, list_network_switches, apply_all, event,
  count_event, reconcile_devices, reconcile_switches, reconcile_selector, reconcile_got, reconcile,
}

-- Everything but deletes keeps `P`.
pub record OthersKeep {W : Type 0} (env : Env W) (P : W → Type 0) : Type 0 where
  pub reads : ReadsKeep env P
  pub applies : (t : Target) → AppliesKeep env t P
  pub patch_status :
      (old new : DeviceProcessDeployment) (w : W) → P w → P (env.patch_status old new w).1
  pub record_event :
      (dep : DeviceProcessDeployment) (type reason message : String) (w : W)
      → P w
      → P (env.record_event dep type reason message w)

-- The deployment is one that a read under the names returns.
abbrev pub IsRead : {W : Type 0} → Env W → String → String → DeviceProcessDeployment → Type 0
IsRead {W} env namespace name dep = (w : W) × ((env.get_deployment namespace name w).0 ≡ ok dep)

module _ {W : Type 0} (env : Env W) (P : W → Type 0) (others : OthersKeep env P)
    (reference : ReferenceKeepsTarget env) where
  event-Keeps :
      (dep : DeviceProcessDeployment) (type reason message : String)
      → Keeps P (event env dep type reason message)
  unfolding event
  event-Keeps dep type reason message = record {
    at = λ w h. others.record_event dep type reason message w h;
  }

  count_event-Keeps :
      (dep : DeviceProcessDeployment) (reason verb noun : String) (n : ℕ)
      → Keeps P (count_event env dep reason verb noun n)
  unfolding count_event
  count_event-Keeps dep reason verb noun n =
      Keeps-if (ltb 0 n) _ _ (λ x. event-Keeps dep "Normal" reason _) (λ x. Keeps-pure _)

  apply_all-Keeps :
      (dep : DeviceProcessDeployment) (devices : List Device) (applied : Applied)
      → Keeps P (apply_all env dep devices applied)
  unfolding apply_all
  apply_all-Keeps dep [] applied = Keeps-pure _
  apply_all-Keeps dep (device ∷ devices) applied =
      let name = device_process_name env dep.metadata.name device.name in
      Keeps-bind _ _
        (Keeps-call _ (λ w h.
          apply_device_process-Keeps env P dep device name others.reads reference (others.applies _)
            w h))
        (λ created. apply_all-Keeps dep devices _)

  write_status-Keeps :
      (dep : DeviceProcessDeployment) (status : DeviceProcessDeploymentStatus) (s : Slices)
      → Keeps P (write_status env dep status s)
  unfolding write_status
  write_status-Keeps dep status s =
      let seen = record dep { status = record dep.status { conditions = s.old } } in
      let written = record seen { status = status } in
      Keeps-if (deep_equal seen.status status) (pure tt) (env.patch_status seen written)
        (λ x. Keeps-pure tt) (λ x. Keeps-call _ (λ w h. others.patch_status seen written w h))

  status_at-Keeps :
      (spare : ℕ) (dep : DeviceProcessDeployment) (devices : List Device)
      (procs : List DeviceProcess) (now : ℕ → ℕ)
      → Keeps P (status_at env spare dep devices procs now)
  unfolding status_at
  status_at-Keeps spare dep devices procs now =
      let hashes = desired_hashes env dep devices [] in
      let slices = status_slices now spare dep (length devices) hashes procs in
      write_status-Keeps dep (counted_status dep (length devices) hashes procs slices.new) slices

  update_status-Keeps :
      (spare : ℕ) (dep : DeviceProcessDeployment) (devices : List Device)
      → Keeps P (update_status env spare dep devices)
  unfolding update_status
  update_status-Keeps spare dep devices =
      Keeps-bind _ _
        (Keeps-list_processes env others.reads dep.metadata.namespace dep.metadata.name)
        (λ procs.
          Keeps-bind _ _ (Keeps-clock env others.reads)
            (λ now. status_at-Keeps spare dep devices procs now))

  module _ (namespace name : String)
      (deletes : (dep : DeviceProcessDeployment) (desired : List String) (process : DeviceProcess)
          (w : W)
        → IsRead env namespace name dep
        → is_stale_process env dep desired process ≡ true
        → P w
        → P (env.delete_process process w).1) where
    reconcile_devices-Keeps :
        (spare : ℕ) (dep : DeviceProcessDeployment) (devices : List Device)
        → IsRead env namespace name dep
        → Keeps P (reconcile_devices env spare dep devices)
    unfolding reconcile_devices
    reconcile_devices-Keeps spare dep devices read =
        Keeps-bind _ _ (apply_all-Keeps dep devices _) (λ applied.
          Keeps-bind _ _
            (Keeps-call _ (
              cleanup_stale-Keeps env P dep others.reads applied.names
                (λ process w stale h. deletes dep applied.names process w read stale h)))
            (λ deleted.
              Keeps-bind _ _
                (count_event-Keeps dep "CreatedDeviceProcess" "Created" "DeviceProcess object(s)"
                  applied.created)
                (λ u.
                  Keeps-bind _ _
                    (count_event-Keeps dep "DeletedDeviceProcess" "Deleted"
                      "stale DeviceProcess object(s)" deleted)
                    (λ v.
                      Keeps-bind _ _ (update_status-Keeps spare dep devices) (λ x. Keeps-pure 0)))))

    reconcile_switches-Keeps :
        (spare : ℕ) (dep : DeviceProcessDeployment) (switches : Switches)
        → IsRead env namespace name dep
        → Keeps P (reconcile_switches env spare dep switches)
    unfolding reconcile_switches
    reconcile_switches-Keeps spare dep (listed devices) read =
        reconcile_devices-Keeps spare dep devices read
    reconcile_switches-Keeps spare dep unavailable read = Keeps-pure _
    reconcile_switches-Keeps spare dep (failed e) read = Keeps-raise _

    list-Keeps : (ns : String) (s : LabelSelector) → Keeps P (step (list_network_switches env ns s))
    unfolding list_network_switches
    list-Keeps ns s = Keeps-step _ (λ w h. others.reads.list_switches ns s w h)

    reconcile_selector-Keeps :
        (spare : ℕ) (dep : DeviceProcessDeployment) (e : Option ApiError)
        → IsRead env namespace name dep
        → Keeps P (reconcile_selector env spare dep e)
    unfolding reconcile_selector
    reconcile_selector-Keeps spare dep (some e) read = Keeps-raise _
    reconcile_selector-Keeps spare dep none read =
        Keeps-if (has_unsupported_selector (some dep.spec.selector)) _ _
          (λ x.
            Keeps-bind _ _
              (event-Keeps dep "Warning" "UnsupportedSelector"
                "selector uses NotIn/DoesNotExist; reconcile skipped")
              (λ u. Keeps-pure 0))
          (λ x.
            Keeps-bind _ _ (list-Keeps dep.metadata.namespace dep.spec.selector)
              (λ switches. reconcile_switches-Keeps spare dep switches read))

    reconcile_got-Keeps :
        (spare : ℕ) (w : W) (r : Result DeviceProcessDeployment)
        → (env.get_deployment namespace name w).0 ≡ r
        → Keeps P (reconcile_got env spare r)
    unfolding reconcile_got
    reconcile_got-Keeps spare w (ok dep) e = reconcile_selector-Keeps spare dep _ (w, e)
    reconcile_got-Keeps spare w (err not_found) e = Keeps-pure _
    reconcile_got-Keeps spare w (err _) e = Keeps-raise _

    -- `Reconcile` deletes only processes that the deployment which it read controls, and whose label of
    -- the uid is missing or that of the deployment: what all other calls and such deletes keep, it keeps,
    -- whichever calls fail, where setting the owner of a process changes neither name nor namespace nor
    -- spec.
    pub reconcile-Keeps : (spare : ℕ) (w : W) → P w → P (reconcile env spare namespace name w).1
    unfolding reconcile
    reconcile-Keeps spare =
        (Keeps-bind_result _ _
          (Keeps-attempt _ (
            Keeps-call (env.get_deployment namespace name)
              (λ w h. others.reads.get_deployment namespace name w h)))
          (λ w r e. reconcile_got-Keeps spare w r cc)).at
