-- ===== src/Controller/Cleanup.antt =====
-- `cleanupStale`.
pub mod Isolation
use praetor.Base.{
  ℕ, suc, Bool, true, false, not, ◌&&◌, Option, none, some, List, [], ◌∷◌, String, ◌==◌,
  if◌then◌else◌, lookup,
}
use praetor.Base.Result.{Result, ok, err, ApiError, not_found}
use praetor.Api.{DeviceProcess, DeviceProcessDeployment}
use praetor.Controller.Env.{Env, Act, pure, raise, attempt, ◌>>=◌}
use praetor.Controller.Labels.{has, deployment_uid_key}

module _ {W : Type 0} (env : Env W) where
  -- The label of the uid, where it is there, is that of the deployment.
  unfoldable pub uid_agrees : DeviceProcessDeployment → Option String → Bool
  uid_agrees dep none = true
  uid_agrees dep (some uid) = uid == dep.metadata.uid

  -- The three tests of the loop: a process that passes is deleted.
  unfoldable pub is_stale_process : DeviceProcessDeployment → List String → DeviceProcess → Bool
  unfolding has uid_agrees lookup
  is_stale_process dep desired process =
      not (has process.metadata.name desired)
      && uid_agrees dep (lookup deployment_uid_key process.metadata.labels)
      && env.is_controlled_by process dep

  -- After a `Delete`: the number of objects deleted so far, or the error that stops the loop.
  unfoldable pub after_delete : ℕ → Result (Unit {0}) → Act W ℕ
  after_delete deleted (ok _) = pure (suc deleted)
  after_delete deleted (err not_found) = pure deleted
  after_delete deleted (err e) = raise e

  unfoldable pub delete_stale :
      DeviceProcessDeployment → List String → List DeviceProcess → ℕ → Act W ℕ
  unfolding is_stale_process after_delete
  delete_stale dep desired [] deleted = pure deleted
  delete_stale dep desired (process ∷ processes) deleted =
      if is_stale_process dep desired process
      then (do
        gone ← attempt (env.delete_process process)
        deleted' ← after_delete deleted gone
        delete_stale dep desired processes deleted')
      else delete_stale dep desired processes deleted

  unfoldable pub cleanup_stale : DeviceProcessDeployment → List String → Act W ℕ
  unfolding delete_stale
  cleanup_stale dep desired = do
    processes ← env.list_processes dep.metadata.namespace dep.metadata.name
    delete_stale dep desired processes 0
