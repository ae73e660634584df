-- ===== src/Agent/Poll/Isolated.antt =====
-- Which units a whole run of `reconcile` touches.
use praetor.Base.{[], String, All, Map}
use praetor.Base.Act.State.{Preserves}
use praetor.Gateway.Types.{DesiredResponse}
use praetor.Agent.Env.{Env, ManagedItem}
use praetor.Agent.Systemd.{paths_for}
use praetor.Agent.Systemd.Kept.{OwnUnitsKeep, write_new-Keeps}
use praetor.Agent.Reconcile.{reconcile_items}
use praetor.Agent.Reconcile.Own.{reconcile_items-Preserves, remove_missing-Preserves}
use praetor.Agent.StateFile.{write_file_atomic, persist_state}
use praetor.Agent.Poll.{Config, reconcile}

module _ {W : Type 0} (env : Env W) {P : W → Type 0} {IsOwn : String → Type 0}
    (keep : OwnUnitsKeep env P IsOwn) where
  persist_state-Preserves :
      (path : String) (managed : Map ManagedItem) → Preserves P (persist_state env path managed)
  unfolding persist_state write_file_atomic
  persist_state-Preserves path managed = record {
    at =
        (write_new-Keeps env keep ".tmp-agent-state-*" path (env.marshal_state managed)
          (λ tmp. env.chmod tmp 0o600) (λ tmp. record { at = λ w p. keep.sets tmp 0o600 w p })).at;
  }

  -- A run of `reconcile` calls systemctl only for `daemon-reload` and on units of its own: the units of
  -- the desired items and of the managed items. Whatever holds before it, and is kept by such calls
  -- and by the calls on files, on the clock and on artifacts, holds after it, on every path.
  pub reconcile-Preserves :
      (config : Config) (managed : Map ManagedItem) (desired : DesiredResponse) (w : W)
      → All (λ item. IsOwn (paths_for env item.namespace item.name).unit_name) desired.items
      → All (λ entry. IsOwn entry.1.unit_name) managed
      → P w
      → P (reconcile env config managed desired w).1
  unfolding reconcile
  reconcile-Preserves config managed desired w wanted held p =
      let out = reconcile_items env managed desired.items [] w in
      let after = (reconcile_items-Preserves env keep managed desired.items [] wanted).at w p in
      (persist_state-Preserves config.state_path out.0.1).at _
        ((remove_missing-Preserves env keep out.0.1 managed held).at out.1 after)
