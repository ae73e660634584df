-- ===== src/Controller/Apply.antt =====
-- `applyDeviceProcess` and `upsertWithoutSSA`.
pub mod Isolation
use praetor.Base.{
  ◌≡◌, Bool, true, false, Option, none, some, List, [], ◌∷◌, String, ◌==◌, if◌then◌else◌, Map,
}
use praetor.Base.Text.{contains}
use praetor.Base.Result.{Result, ok, err, ApiError, is_not_found, is_already_exists}
use praetor.Api.{DeviceProcess, DeviceProcessDeployment}
use praetor.Controller.Env.{Env, Act, Device, pure, raise, attempt, ◌>>=◌, ◌>>◌}
use praetor.Controller.Labels.{merge_string_maps, build_desired_device_process}

-- What the update writes: the object that was read, with the desired labels, annotations, spec and owners.
unfoldable pub merged_process : (current desired : DeviceProcess) → DeviceProcess
unfolding merge_string_maps
merged_process current desired = record current {
  metadata = record current.metadata {
    labels = merge_string_maps current.metadata.labels desired.metadata.labels;
    annotations = merge_string_maps current.metadata.annotations desired.metadata.annotations;
    owner_references = desired.metadata.owner_references;
  };
  spec = desired.spec;
}

abbrev pub without_version : DeviceProcess → DeviceProcess
without_version p = record p { metadata = record p.metadata { resource_version = "" } }

module _ {W : Type 0} (env : Env W) where
  unfoldable pub is_apply_not_supported : ApiError → Bool
  unfolding contains
  is_apply_not_supported e = contains (env.error_text e) "apply patches are not supported"

  unfoldable pub update_current : DeviceProcess → Bool → Act W Bool
  unfolding merged_process
  update_current desired created = do
    current ← env.get_process desired.metadata.namespace desired.metadata.name
    env.update_process (merged_process current desired)
    pure created

  -- After the `Create` of the upsert.
  unfoldable pub after_create : DeviceProcess → Result (Unit {0}) → Act W Bool
  unfolding update_current
  after_create desired (ok _) = pure true
  after_create desired (err e) =
      if is_already_exists e then update_current desired false else raise e

  unfoldable pub upsert : DeviceProcess → Bool → Act W Bool
  unfolding after_create update_current
  upsert desired true = do made ← attempt (env.create_process desired); after_create desired made
  upsert desired false = update_current desired false

  unfoldable pub upsert_without_ssa : DeviceProcess → Bool → Act W Bool
  unfolding upsert
  upsert_without_ssa desired created = upsert (without_version desired) created

  -- After the patch that follows a `Create`.
  unfoldable pub after_second_patch : DeviceProcess → Result (Unit {0}) → Act W Bool
  unfolding is_apply_not_supported upsert_without_ssa
  after_second_patch desired (ok _) = pure true
  after_second_patch desired (err e) =
      if is_apply_not_supported e then upsert_without_ssa desired true else raise e

  -- The errors of `Create` that stop the function.
  unfoldable pub created_or_there : Result (Unit {0}) → Act W (Unit {0})
  created_or_there (ok _) = pure tt
  created_or_there (err e) = if is_already_exists e then pure tt else raise e

  unfoldable pub create_and_patch : DeviceProcess → Act W Bool
  unfolding created_or_there after_second_patch
  create_and_patch desired = do
    made ← attempt (env.create_process desired)
    created_or_there made
    patched ← attempt (env.apply_process desired)
    after_second_patch desired patched

  -- After the first patch.
  unfoldable pub after_first_patch : DeviceProcess → Bool → Result (Unit {0}) → Act W Bool
  unfolding is_apply_not_supported upsert_without_ssa create_and_patch
  after_first_patch desired created (ok _) = pure created
  after_first_patch desired created (err e) =
      if is_apply_not_supported e
      then upsert_without_ssa desired created
      else if is_not_found e
      then create_and_patch desired
      else raise e

  -- Whether the object is to be created, as the `Get` tells.
  unfoldable pub is_missing : Result DeviceProcess → Act W Bool
  is_missing (ok existing) = pure false
  is_missing (err e) = if is_not_found e then pure true else raise e

  unfoldable pub apply_device_process : DeviceProcessDeployment → Device → String → Act W Bool
  unfolding is_missing build_desired_device_process after_first_patch
  apply_device_process dep device name = do
    existing ← attempt (env.get_process dep.metadata.namespace name)
    created ← is_missing existing
    desired ← λ w. (
      env.set_controller_reference dep
          (without_version (build_desired_device_process env dep device name)),
      w,
    )
    patched ← attempt (env.apply_process desired)
    after_first_patch desired created patched
