-- ===== src/Gateway/Sweep.antt =====
-- Marking the processes of a device connected and disconnected, and the sweep for stale devices.
pub mod Isolation
pub mod Laws
use praetor.Base.{
  ℕ, ◌≡◌, Bool, true, false, Option, none, some, List, [], ◌∷◌, String, ◌==◌, if◌then◌else◌, join,
}
use praetor.Base.Int.{ℤ, ltb_ℤ}
use praetor.Base.Maps.{Map}
use praetor.Base.Result.{Result, ok, err}
use praetor.Api
use praetor.Api.{Time, DeviceProcess, DeviceProcessStatus}
use praetor.Gateway.Types.{Config, Registry, Event, connected_reason, connected_message}
use praetor.Gateway.Env.{
  Env, Act, pure, call, attempt, emit, read_clock, registry, modify_registry, ◌>>=◌, ◌>>◌,
}
use praetor.Gateway.Heartbeat.{record_report, normalize_heartbeat, hint_at, stale_after, since}
use praetor.Gateway.Desired.{list_device_processes}
use praetor.Gateway.Status.{set_agent_connected}
use praetor.Gateway.Update.{event, event_normal, event_warning}

-- The status after `setAgentConnected`.
abbrev pub with_conditions : DeviceProcess → String → List Api.Condition → DeviceProcess
with_conditions proc phase cs = record proc {
  status = record proc.status { conditions = cs; phase = phase };
}

abbrev pub pending_if_empty : String → String
pending_if_empty phase = if phase == "" then Api.phase_pending else phase

-- The test of the sweep on one device: now.Sub(seen) > staleAfter.
unfoldable pub is_overdue : Config → Time → Registry → String → Time → Bool
unfolding normalize_heartbeat stale_after since
is_overdue cfg now r device seen =
    ltb_ℤ (stale_after cfg (normalize_heartbeat cfg (hint_at device r.heartbeat_hints)))
      (since now seen)

module _ {W : Type 0} (env : Env W) where
  -- The end of the loop bodies: a process whose condition stays is passed over.
  unfoldable pub patch_changed : Bool → (old new : DeviceProcess) → Event → Act W (Unit {0})
  patch_changed true old new e = do call (env.patch_status old new); emit e
  patch_changed false old new e = pure tt

  unfoldable pub connect_process : DeviceProcess → Act W (Unit {0})
  unfolding set_agent_connected
  connect_process proc = do
    now ← read_clock env
    let marked =
        set_agent_connected (now 0) proc.status.conditions true connected_reason connected_message
    patch_changed marked.1 proc (with_conditions proc proc.status.phase marked.0)
        (event proc event_normal "AgentConnected" "device connected")

  -- A `for` loop that returns at the first error.
  unfoldable pub for_each : {A : Type 0} → (A → Act W (Unit {0})) → List A → Act W (Unit {0})
  for_each f [] = pure tt
  for_each f (x ∷ xs) = do f x; for_each f xs

  unfoldable pub mark_device_connected : String → Act W (Unit {0})
  mark_device_connected device = do
    procs ← list_device_processes env device
    for_each connect_process procs
    now ← read_clock env
    modify_registry (record_report (now 0) device)

  unfoldable pub disconnect_process : String → DeviceProcess → Act W (Unit {0})
  unfolding set_agent_connected
  disconnect_process device proc = do
    now ← read_clock env
    let marked =
        set_agent_connected (now 0) proc.status.conditions false "AgentDisconnected"
          "device stale (no recent reports)"
    patch_changed marked.1 proc (with_conditions proc (pending_if_empty proc.status.phase) marked.0)
        (event proc event_warning "AgentDisconnected" (join ("device " ∷ device ∷ " stale" ∷ [])))

  unfoldable pub mark_device_disconnected : String → Act W (Unit {0})
  mark_device_disconnected device = do
    procs ← list_device_processes env device
    for_each (disconnect_process device) procs

  -- The loop of the sweep over the copy of `lastSeen`; an error is logged, and the loop goes on.
  unfoldable pub sweep_from : Config → Time → Registry → Map Time → Act W (Unit {0})
  sweep_from cfg now r [] = pure tt
  sweep_from cfg now r ((device, seen) ∷ seens) =
      let rest = sweep_from cfg now r seens in
      if is_overdue cfg now r device seen
      then (do _ ← attempt (mark_device_disconnected device); rest)
      else rest

  unfoldable pub mark_stale_devices : Config → Act W (Unit {0})
  mark_stale_devices cfg = do
    now ← read_clock env
    r ← registry
    sweep_from cfg (now 0) r r.last_seen
