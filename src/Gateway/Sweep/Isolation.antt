-- ===== src/Gateway/Sweep/Isolation.antt =====
-- What marking a device connected or disconnected writes.
use praetor.Base.{
  ◌≡◌, Bool, true, false, List, [], ◌∷◌, String, ◌==◌, eq_iff, All, All-select, select,
}
use praetor.Base.Result.{Result, ok, err}
use praetor.Api.{DeviceProcess}
use praetor.Gateway.Types.{Event}
use praetor.Gateway.Env.{Env, Sys, Act, pure, next}
use praetor.Gateway.Env.Keeps.{
  Keeps, ReadsKeep, WritesKeep, Keeps-call, Keeps-bind, Keeps-bind_result, Keeps-pure,
  Keeps-read_clock, Keeps-emit, keeps_rules,
}
use praetor.Gateway.Desired.{list_device_processes}
use praetor.Gateway.Sweep.{
  patch_changed, connect_process, disconnect_process, for_each, mark_device_connected,
  mark_device_disconnected,
}

abbrev pub IsOf : String → DeviceProcess → Type 0
IsOf device proc = proc.spec.device_ref.name ≡ device

module _ {W : Type 0} (env : Env W) (P : W → Type 0) where
  for_each-Keeps :
      {A : Type 0} (Q : A → Type 0) (f : A → Act W (Unit {0}))
      → ((x : A) → Q x → Keeps P (f x))
      → (xs : List A) → All Q xs
      → Keeps P (for_each env f xs)
  unfolding for_each
  for_each-Keeps Q f k [] all = search keeps_rules
  for_each-Keeps Q f k (x ∷ xs) (q, all) = Keeps-bind _ _ (k x q) (λ u. for_each-Keeps Q f k xs all)

  module _ (device : String) (reads : ReadsKeep env P) where
    pub list-Keeps : Keeps P (list_device_processes env device)
    unfolding list_device_processes
    list-Keeps =
        Keeps-bind _ _ (Keeps-call _ (λ w h. reads.list device w h)) (λ items. Keeps-pure _)

    kept_processes_lem :
        (r : Result (List DeviceProcess)) (s : Sys W) (procs : List DeviceProcess)
        → (next r (λ items. pure (select (λ p. p.spec.device_ref.name == device) items)) s).0
          ≡ ok procs
        → All (IsOf device) procs
    kept_processes_lem (ok items) s procs e =
        let same : select (λ p. p.spec.device_ref.name == device) items ≡ procs = cc in
        rw (← same) (
          All-select (IsOf device) (λ p. p.spec.device_ref.name == device) items
            (λ p t. (eq_iff p.spec.device_ref.name device).0 t))
    kept_processes_lem (err x) s procs e = cc

    -- The list that is returned holds processes of the device only.
    pub listed_processes_lem :
        (s : Sys W) (procs : List DeviceProcess)
        → (list_device_processes env device s).0 ≡ ok procs
        → All (IsOf device) procs
    unfolding list_device_processes
    listed_processes_lem s procs e =
        kept_processes_lem (env.list_processes device s.world).0
          (record s { world = (env.list_processes device s.world).1 }) procs e

    module _ (writes : WritesKeep env device P) where
      patch_changed-Keeps :
          (changed : Bool) (old new : DeviceProcess) (e : Event)
          → IsOf device old
          → Keeps P (patch_changed env changed old new e)
      unfolding patch_changed
      patch_changed-Keeps true old new e own =
          Keeps-bind _ _ (Keeps-call _ (λ w h. writes.patch old new w own h)) (λ u. Keeps-emit e)
      patch_changed-Keeps false old new e own = Keeps-pure tt

      connect-Keeps : (proc : DeviceProcess) → IsOf device proc → Keeps P (connect_process env proc)
      unfolding connect_process
      connect-Keeps proc own = search (Keeps-read_clock, Keeps-bind, patch_changed-Keeps)

      disconnect-Keeps :
          (proc : DeviceProcess) → IsOf device proc → Keeps P (disconnect_process env device proc)
      unfolding disconnect_process
      disconnect-Keeps proc own = search (Keeps-read_clock, Keeps-bind, patch_changed-Keeps)

      pub mark_connected-Keeps : Keeps P (mark_device_connected env device)
      unfolding mark_device_connected
      mark_connected-Keeps =
          Keeps-bind_result (list_device_processes env device) _ list-Keeps (λ s procs e.
            let marked =
              for_each-Keeps (IsOf device) (connect_process env) connect-Keeps procs
                (listed_processes_lem s procs e) in
            search keeps_rules)

      -- Marking a device disconnected keeps what reads and writes to its own processes keep.
      pub mark_disconnected-Keeps : Keeps P (mark_device_disconnected env device)
      unfolding mark_device_disconnected
      mark_disconnected-Keeps =
          Keeps-bind_result (list_device_processes env device) _ list-Keeps (λ s procs e.
            for_each-Keeps (IsOf device) (disconnect_process env device) disconnect-Keeps procs
              (listed_processes_lem s procs e))
