-- ===== src/Controller/Cleanup/Isolation.antt =====
-- What `cleanupStale` deletes.
use praetor.Base.{ℕ, ◌≡◌, true, List, [], ◌∷◌, String}
use praetor.Base.Result.{Result, ok, err, not_found}
use praetor.Api.{DeviceProcess, DeviceProcessDeployment}
use praetor.Controller.Env.{Env}
use praetor.Controller.Env.Keeps.{
  Keeps, ReadsKeep, Keeps-pure, Keeps-raise, Keeps-attempt, Keeps-call, Keeps-if, Keeps-bind,
  Keeps-list_processes,
}
use praetor.Controller.Cleanup.{is_stale_process, after_delete, delete_stale, cleanup_stale}

module _ {W : Type 0} (env : Env W) (P : W → Type 0) (dep : DeviceProcessDeployment) where
  -- The deletes of the processes that pass the three tests keep `P`.
  abbrev pub StaleDeletesKeep : List String → Type 0
  StaleDeletesKeep desired =
      (process : DeviceProcess) (w : W)
      → is_stale_process env dep desired process ≡ true
      → P w
      → P (env.delete_process process w).1

  after_delete-Keeps : (deleted : ℕ) (r : Result (Unit {0})) → Keeps P (after_delete env deleted r)
  unfolding after_delete
  after_delete-Keeps deleted (ok u) = Keeps-pure _
  after_delete-Keeps deleted (err not_found) = Keeps-pure _
  after_delete-Keeps deleted (err _) = Keeps-raise _

  delete_stale-Keeps :
      (desired : List String)
      → StaleDeletesKeep desired
      → (procs : List DeviceProcess) (deleted : ℕ)
      → Keeps P (delete_stale env dep desired procs deleted)
  unfolding delete_stale
  delete_stale-Keeps desired deletes [] deleted = Keeps-pure _
  delete_stale-Keeps desired deletes (process ∷ procs) deleted =
      Keeps-if (is_stale_process env dep desired process) _ _
        (λ stale.
          Keeps-bind _ _
            (Keeps-attempt _
              (Keeps-call (env.delete_process process) (λ w h. deletes process w stale h)))
            (λ gone.
              Keeps-bind _ _ (after_delete-Keeps deleted gone)
                (λ more. delete_stale-Keeps desired deletes procs more)))
        (λ fresh. delete_stale-Keeps desired deletes procs deleted)

  -- `cleanupStale` deletes only what is not desired, whose label of the uid is missing or that of the
  -- deployment, and what the deployment controls: what the lists and such deletes keep, it keeps,
  -- whichever calls fail.
  pub cleanup_stale-Keeps :
      ReadsKeep env P
      → (desired : List String) → StaleDeletesKeep desired
      → (w : W) → P w
      → P (cleanup_stale env dep desired w).1
  unfolding cleanup_stale
  cleanup_stale-Keeps reads desired deletes =
      (Keeps-bind _ _ (Keeps-list_processes env reads dep.metadata.namespace dep.metadata.name)
        (λ procs. delete_stale-Keeps desired deletes procs 0)).at
