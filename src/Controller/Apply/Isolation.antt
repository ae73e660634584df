-- ===== src/Controller/Apply/Isolation.antt =====
-- What `applyDeviceProcess` writes.
use praetor.Base.{◌≡◌, Bool, true, false, String}
use praetor.Base.Result.{Result, ok, err, is_not_found, is_already_exists}
use praetor.Api.{DeviceProcess, DeviceProcessSpec, DeviceProcessDeployment}
use praetor.Controller.Env.{Env, Device}
use praetor.Controller.Env.Keeps.{
  Keeps, ReadsKeep, Keeps-pure, Keeps-raise, Keeps-value, Keeps-attempt, Keeps-call, Keeps-if,
  Keeps-bind, Keeps-bind_result, Keeps-get_process,
}
use praetor.Controller.Labels.{build_desired_device_process, desired_spec}
use praetor.Controller.Apply.{
  merged_process, without_version, is_apply_not_supported, update_current, after_create, upsert,
  upsert_without_ssa, after_second_patch, created_or_there, create_and_patch, after_first_patch,
  is_missing, apply_device_process,
}

-- The object that is written: its namespace, its name, and the spec that it gets.
pub record Target : Type 0 where
  pub namespace : String
  pub name : String
  pub spec : DeviceProcessSpec

abbrev pub Aims : Target → DeviceProcess → Type 0
Aims t p = (p.metadata.namespace ≡ t.namespace) × ((p.metadata.name ≡ t.name) × (p.spec ≡ t.spec))

-- Patches and creations of the target keep `P`, and so do updates that write its spec.
pub record AppliesKeep {W : Type 0} (env : Env W) (t : Target) (P : W → Type 0) : Type 0 where
  pub apply : (p : DeviceProcess) (w : W) → Aims t p → P w → P (env.apply_process p w).1
  pub create : (p : DeviceProcess) (w : W) → Aims t p → P w → P (env.create_process p w).1
  pub update : (p : DeviceProcess) (w : W) → p.spec ≡ t.spec → P w → P (env.update_process p w).1

-- SetControllerReference changes neither name nor namespace nor spec.
abbrev pub ReferenceKeepsTarget : {W : Type 0} → Env W → Type 0
ReferenceKeepsTarget env =
    (dep : DeviceProcessDeployment) (p q : DeviceProcess)
    → env.set_controller_reference dep p ≡ ok q
    → (q.metadata.namespace ≡ p.metadata.namespace)
      × ((q.metadata.name ≡ p.metadata.name) × (q.spec ≡ p.spec))

module _ {W : Type 0} (env : Env W) (P : W → Type 0) (reads : ReadsKeep env P) (t : Target)
    (writes : AppliesKeep env t P) where
  update_current-Keeps :
      (p : DeviceProcess) (created : Bool) → Aims t p → Keeps P (update_current env p created)
  unfolding update_current merged_process
  update_current-Keeps p created aims =
      Keeps-bind _ _ (Keeps-get_process env reads p.metadata.namespace p.metadata.name) (λ current.
        Keeps-bind (env.update_process (merged_process current p)) _
          (Keeps-call _ (λ w h. writes.update (merged_process current p) w aims.1.1 h))
          (λ u. Keeps-pure created))

  after_create-Keeps :
      (p : DeviceProcess) (r : Result (Unit {0})) → Aims t p → Keeps P (after_create env p r)
  unfolding after_create
  after_create-Keeps p (ok u) aims = Keeps-pure _
  after_create-Keeps p (err e) aims =
      Keeps-if (is_already_exists e) _ _ (λ x. update_current-Keeps p false aims)
        (λ x. Keeps-raise e)

  upsert-Keeps : (p : DeviceProcess) (created : Bool) → Aims t p → Keeps P (upsert env p created)
  unfolding upsert
  upsert-Keeps p true aims =
      Keeps-bind _ _
        (Keeps-attempt _ (Keeps-call (env.create_process p) (λ w h. writes.create p w aims h)))
        (λ r. after_create-Keeps p r aims)
  upsert-Keeps p false aims = update_current-Keeps p false aims

  upsert_without_ssa-Keeps :
      (p : DeviceProcess) (created : Bool) → Aims t p → Keeps P (upsert_without_ssa env p created)
  unfolding upsert_without_ssa
  upsert_without_ssa-Keeps p created aims = upsert-Keeps (without_version p) created aims

  after_second_patch-Keeps :
      (p : DeviceProcess) (r : Result (Unit {0})) → Aims t p → Keeps P (after_second_patch env p r)
  unfolding after_second_patch
  after_second_patch-Keeps p (ok u) aims = Keeps-pure _
  after_second_patch-Keeps p (err e) aims =
      Keeps-if (is_apply_not_supported env e) _ _ (λ x. upsert_without_ssa-Keeps p true aims)
        (λ x. Keeps-raise e)

  created_or_there-Keeps : (r : Result (Unit {0})) → Keeps P (created_or_there env r)
  unfolding created_or_there
  created_or_there-Keeps (ok u) = Keeps-pure _
  created_or_there-Keeps (err e) =
      Keeps-if (is_already_exists e) _ _ (λ x. Keeps-pure _) (λ x. Keeps-raise e)

  create_and_patch-Keeps : (p : DeviceProcess) → Aims t p → Keeps P (create_and_patch env p)
  unfolding create_and_patch
  create_and_patch-Keeps p aims =
      Keeps-bind _ _
        (Keeps-attempt _ (Keeps-call (env.create_process p) (λ w h. writes.create p w aims h)))
        (λ made. Keeps-bind _ _ (created_or_there-Keeps made) (λ u.
          Keeps-bind _ _
            (Keeps-attempt _ (Keeps-call (env.apply_process p) (λ w h. writes.apply p w aims h)))
            (λ r. after_second_patch-Keeps p r aims)))

  after_first_patch-Keeps :
      (p : DeviceProcess) (created : Bool) (r : Result (Unit {0}))
      → Aims t p
      → Keeps P (after_first_patch env p created r)
  unfolding after_first_patch
  after_first_patch-Keeps p created (ok u) aims = Keeps-pure _
  after_first_patch-Keeps p created (err e) aims =
      Keeps-if (is_apply_not_supported env e) _ _ (λ x. upsert_without_ssa-Keeps p created aims)
        (λ x.
          Keeps-if (is_not_found e) _ _ (λ y. create_and_patch-Keeps p aims) (λ y. Keeps-raise e))

  is_missing-Keeps : (r : Result DeviceProcess) → Keeps P (is_missing env r)
  unfolding is_missing
  is_missing-Keeps (ok p) = Keeps-pure _
  is_missing-Keeps (err e) = Keeps-if (is_not_found e) _ _ (λ x. Keeps-pure _) (λ x. Keeps-raise e)

pub apply_device_process-Keeps :
    {W : Type 0} (env : Env W) (P : W → Type 0) (dep : DeviceProcessDeployment) (device : Device)
    (name : String)
    → ReadsKeep env P
    → ReferenceKeepsTarget env
    → AppliesKeep env
        (record {
          namespace = dep.metadata.namespace;
          name = name;
          spec = desired_spec env dep device;
        })
        P
    → (w : W) → P w
    → P (apply_device_process env dep device name w).1
unfolding apply_device_process build_desired_device_process
apply_device_process-Keeps env P dep device name reads reference writes =
    let target : Target = record {
      namespace = dep.metadata.namespace;
      name = name;
      spec = desired_spec env dep device;
    } in
    let built = without_version (build_desired_device_process env dep device name) in
    (Keeps-bind _ _ (Keeps-attempt _ (Keeps-get_process env reads dep.metadata.namespace name))
      (λ existing. Keeps-bind _ _ (is_missing-Keeps env P reads target writes existing) (λ created.
        Keeps-bind_result _ _ (Keeps-value (env.set_controller_reference dep built)) (λ w desired e.
          let aims : Aims target desired = reference dep built desired e in
          Keeps-bind _ _
            (Keeps-attempt _
              (Keeps-call (env.apply_process desired) (λ w h. writes.apply desired w aims h)))
            (λ r. after_first_patch-Keeps env P reads target writes desired created r aims))))).at
