-- ===== src/Controller/Reconcile.antt =====
-- `Reconcile` and `listNetworkSwitches`. Log lines are left out.
pub mod Isolation
use praetor.Base.{
  ℕ, suc, ltb, ◌*◌, ◌^◌, Bool, true, false, Option, none, some, List, [], ◌∷◌, String,
  if◌then◌else◌, join,
}
use praetor.Base.Int.{pos}
use praetor.Base.Decimal.{format_int}
use praetor.Base.Result.{Result, ok, err, ApiError, no_match, not_found}
use praetor.Api.{DeviceProcessDeployment, LabelSelector}
use praetor.Controller.Env.{Env, Act, Device, pure, raise, attempt, step, ◌>>=◌, ◌>>◌}
use praetor.Controller.Names.{device_process_name}
use praetor.Controller.Labels.{insert_key, has_unsupported_selector}
use praetor.Controller.Apply.{apply_device_process}
use praetor.Controller.Cleanup.{cleanup_stale}
use praetor.Controller.Status.{update_status}

-- The result of `listNetworkSwitches`, whose own error tells that the kind is not installed.
pub data Switches : Type 0 where
  listed : List Device → Switches
  unavailable : Switches
  failed : ApiError → Switches

-- ctrl.Result: the nanoseconds of RequeueAfter.
abbrev pub Requeue : Type 0
Requeue = ℕ

abbrev pub minute : Requeue
minute = 60000000000

-- The names that are desired, and the number of objects that were created.
pub record Applied : Type 0 where
  pub names : List String
  pub created : ℕ

module _ {W : Type 0} (env : Env W) where
  unfoldable pub switches_of : Result (List Device) → Switches
  switches_of (ok devices) = listed devices
  switches_of (err no_match) = unavailable
  switches_of (err e) = failed e

  unfoldable pub list_network_switches : String → LabelSelector → W → Switches × W
  unfolding switches_of
  list_network_switches namespace selector w =
      let r = env.list_switches namespace selector w in (switches_of r.0, r.1)

  -- The loop over the devices.
  unfoldable pub apply_all : DeviceProcessDeployment → List Device → Applied → Act W Applied
  unfolding device_process_name insert_key
  apply_all dep [] applied = pure applied
  apply_all dep (device ∷ devices) applied = do
    let name = device_process_name env dep.metadata.name device.name
    created ← apply_device_process env dep device name
    apply_all dep devices (record {
      names = insert_key name applied.names;
      created = if created then suc applied.created else applied.created;
    })

  event : DeviceProcessDeployment → String → String → String → Act W (Unit {0})
  event dep type reason message w = (ok tt, env.record_event dep type reason message w)

  -- The event of a count that is not 0.
  unfoldable pub count_event :
      DeviceProcessDeployment → (reason verb noun : String) → ℕ → Act W (Unit {0})
  unfolding event format_int join
  count_event dep reason verb noun n =
      if ltb 0 n
      then event dep "Normal" reason (join (verb ∷ " " ∷ format_int (pos n) ∷ " " ∷ noun ∷ []))
      else pure tt

  unfoldable pub reconcile_devices :
      (spare : ℕ) → DeviceProcessDeployment → List Device → Act W Requeue
  unfolding apply_all count_event
  reconcile_devices spare dep devices = do
    applied ← apply_all dep devices (record { names = []; created = 0 })
    deleted ← cleanup_stale env dep applied.names
    count_event dep "CreatedDeviceProcess" "Created" "DeviceProcess object(s)" applied.created
    count_event dep "DeletedDeviceProcess" "Deleted" "stale DeviceProcess object(s)" deleted
    update_status env spare dep devices
    pure 0

  unfoldable pub reconcile_switches :
      (spare : ℕ) → DeviceProcessDeployment → Switches → Act W Requeue
  unfolding reconcile_devices
  reconcile_switches spare dep (listed devices) = reconcile_devices spare dep devices
  reconcile_switches spare dep unavailable = pure minute
  reconcile_switches spare dep (failed e) = raise e

  -- The tests of the selector, and what follows them.
  unfoldable pub reconcile_selector :
      (spare : ℕ) → DeviceProcessDeployment → Option ApiError → Act W Requeue
  unfolding has_unsupported_selector event list_network_switches reconcile_switches
  reconcile_selector spare dep (some e) = raise e
  reconcile_selector spare dep none =
      if has_unsupported_selector (some dep.spec.selector)
      then (do
        event dep "Warning" "UnsupportedSelector"
            "selector uses NotIn/DoesNotExist; reconcile skipped"
        pure 0)
      else (do
        switches ← step (list_network_switches dep.metadata.namespace dep.spec.selector)
        reconcile_switches spare dep switches)

  unfoldable pub reconcile_got : (spare : ℕ) → Result DeviceProcessDeployment → Act W Requeue
  unfolding reconcile_selector
  reconcile_got spare (ok dep) = reconcile_selector spare dep (env.selector_error dep.spec.selector)
  reconcile_got spare (err not_found) = pure 0
  reconcile_got spare (err e) = raise e

  -- `spare` is the room behind the conditions of the deployment that is read.
  unfoldable pub reconcile : (spare : ℕ) (namespace name : String) → Act W Requeue
  unfolding reconcile_got
  reconcile spare namespace name = do
    got ← attempt (env.get_deployment namespace name)
    reconcile_got spare got
