-- ===== src/Gateway/Update/Isolation.antt =====
-- What the update of a status writes.
use praetor.Base.{
  ℕ, zero, suc, ◌≡◌, Bool, true, false, not, Option, none, some, String, ◌==◌, eq_iff, arith,
}
use praetor.Base.Result.{Result, ok, err, conflict}
use praetor.Api.{Time, DeviceProcess, DeviceProcessStatus}
use praetor.Gateway.Types.{Observation, Event}
use praetor.Gateway.Env.{Env, Act, pure, call, attempt}
use praetor.Gateway.Env.Keeps.{
  Keeps, ReadsKeep, WritesKeep, Keeps-call, Keeps-bind, Keeps-if, Keeps-pure, Keeps-raise,
  Keeps-attempt, Keeps-read_clock, keeps_rules,
}
use praetor.Gateway.Status.{observed_start_time, reflect_deep_equal_status}
use praetor.Gateway.Update.{
  emit_if, emit_health, emit_changes, after_patch, observed_process, write_observed,
  apply_observation, update_from, update_status_for_observation,
}

module _ {W : Type 0} (env : Env W) (P : W → Type 0) where
  emit_if-Keeps : (b : Bool) (e : Event) → Keeps P (emit_if env b e)
  emit_if-Keeps true e = search keeps_rules
  emit_if-Keeps false e = search keeps_rules

  emit_health-Keeps :
      (proc : DeviceProcess) (healthy : Option Bool) → Keeps P (emit_health env proc healthy)
  unfolding emit_health
  emit_health-Keeps proc none = search keeps_rules
  emit_health-Keeps proc (some b) = search keeps_rules

  emit_changes-Keeps :
      (device : String) (obs : Observation) (reported_at : Option Time) (now : ℕ → Time)
      (proc : DeviceProcess) (st : DeviceProcessStatus)
      → Keeps P (emit_changes env device obs reported_at now proc st)
  unfolding emit_changes
  emit_changes-Keeps device obs reported_at now proc st =
      search (keeps_rules, emit_if-Keeps, emit_health-Keeps) depth 9

  after_patch-Keeps :
      (again done : Act W (Unit {0})) (r : Result (Unit {0}))
      → Keeps P again
      → Keeps P done
      → Keeps P (after_patch env again done r)
  unfolding after_patch
  after_patch-Keeps again done (ok u) ka kd = kd
  after_patch-Keeps again done (err conflict) ka kd = ka
  after_patch-Keeps again done (err _) ka kd = search keeps_rules

  start-Keeps : (obs : Observation) → Keeps P (λ s. (observed_start_time env obs, s))
  start-Keeps obs = record { at = λ s h. h }

  module _ (device : String) (reads : ReadsKeep env P) (writes : WritesKeep env device P) where
    write_observed-Keeps :
        (obs : Observation) (reported_at : Option Time) (again : Act W (Unit {0}))
        (proc : DeviceProcess) (now : ℕ → Time) (start : Option Time)
        → proc.spec.device_ref.name ≡ device
        → Keeps P again
        → Keeps P (write_observed env device obs reported_at again proc now start)
    unfolding write_observed
    write_observed-Keeps obs reported_at again proc now start own k =
        let proc' = observed_process env obs reported_at now start proc in
        Keeps-if (reflect_deep_equal_status proc.status proc'.status) (pure tt) _
          (λ _. Keeps-pure tt)
          (λ _.
            Keeps-bind (attempt (call (env.patch_status proc proc'))) _
              (Keeps-attempt _ (Keeps-call _ (λ w h. writes.patch proc proc' w own h)))
              (λ r.
                after_patch-Keeps again _ r k
                  (emit_changes-Keeps device obs reported_at now proc' proc.status)))

    apply_observation-Keeps :
        (obs : Observation) (reported_at : Option Time) (again : Act W (Unit {0}))
        (proc : DeviceProcess)
        → Keeps P again
        → Keeps P (apply_observation env device obs reported_at again proc)
    unfolding apply_observation
    apply_observation-Keeps obs reported_at again proc k =
        Keeps-if (not (proc.spec.device_ref.name == device)) _ _ (λ e. Keeps-raise _)
          (λ e.
            let own : proc.spec.device_ref.name ≡ device =
              ground (arith, eq_iff proc.spec.device_ref.name device) in
            Keeps-bind _ _ (Keeps-read_clock env reads) (λ now.
              Keeps-bind _ _ (start-Keeps obs)
                (λ start. write_observed-Keeps obs reported_at again proc now start own k)))

    update_from-Keeps :
        (left : ℕ) (obs : Observation) (reported_at : Option Time)
        → Keeps P (update_from env left device obs reported_at)
    unfolding update_from
    update_from-Keeps zero obs reported_at = search keeps_rules
    update_from-Keeps (suc left) obs reported_at =
        Keeps-bind _ _ (Keeps-call _ (λ w h. reads.get obs.name obs.namespace w h)) (λ proc.
          apply_observation-Keeps obs reported_at (update_from env left device obs reported_at) proc
            (update_from-Keeps left obs reported_at))

    -- Whatever is kept by reads and by writes to processes of the device is kept by the update.
    pub update_status-Keeps :
        (obs : Observation) (reported_at : Option Time)
        → Keeps P (update_status_for_observation env device obs reported_at)
    unfolding update_status_for_observation
    update_status-Keeps obs reported_at = update_from-Keeps 3 obs reported_at
