-- ===== src/Gateway/Status/Stable.antt =====
-- The conditions that an observation leaves, and what the same observation does to them again.
use praetor.Base.{
  ℕ, ◌≡◌, refl, ap, ◌∙◌, true, false, Option, none, some, List, [], ◌∷◌, ◌==◌, eq_iff, eq_refl,
  arith, if◌then◌else◌, is_nil, Bool-cases, inl, inr,
}
use praetor.Base.Int.{ℤ, eqb_ℤ, pos, negsuc}
use praetor.Api
use praetor.Api.{Time, Condition, DeviceProcessStatus}
use praetor.Conditions.{find_condition, condition}
use praetor.Conditions.Laws.{HasUniqueTypes, find-set_condition}
use praetor.Gateway.Types.{Observation}
use praetor.Gateway.Env.{Env}
use praetor.Gateway.Status.{
  set_agent_connected, downloaded_condition, verified_condition, started_condition,
  healthy_condition, trimmed, warning_condition, mark, hash_changed, spec_observed_condition,
  early_marks, all_marks, observed_status, conditions_equal, equal_time_ptr,
  reflect_deep_equal_status,
}
use praetor.Gateway.Status.Fold.{
  Mark, fold_marks, AllTyped, AllAgree, AreDistinct, AllAgree-fold_marks, find-fold_marks_ne,
  equal-fold_marks, fold_marks-HasUniqueTypes,
}
use praetor.Gateway.Status.Marks.{HasType, find-mark_ne, conditions_equal_refl}
use praetor.Gateway.Status.Typed.{
  if-HasType, connected, downloaded-HasType, verified-HasType, started-HasType, healthy-HasType,
  warning-HasType,
}

module _ {W : Type 0} (env : Env W) where
  observed-HasType :
      (obs : Observation) (reported_at : Option Time) (st : DeviceProcessStatus)
      → HasType Api.condition_spec_observed (spec_observed_condition env obs reported_at st)
  unfolding spec_observed_condition
  observed-HasType obs reported_at st = if-HasType _ (hash_changed obs st) _ _ refl tt

  -- The marks before the warning.
  abbrev early_row : Observation → Option Time → DeviceProcessStatus → List Mark
  early_row obs reported_at st =
      (Api.condition_agent_connected, connected)
      ∷ (Api.condition_spec_observed, spec_observed_condition env obs reported_at st)
      ∷ (Api.condition_artifact_downloaded, downloaded_condition obs)
      ∷ (Api.condition_artifact_verified, verified_condition obs)
      ∷ (Api.condition_process_started, started_condition obs)
      ∷ []

  -- All marks, with the warning that the conditions before it call for.
  abbrev row : Observation → Option Time → DeviceProcessStatus → List Condition → List Mark
  row obs reported_at st early =
      (Api.condition_agent_connected, connected)
      ∷ (Api.condition_spec_observed, spec_observed_condition env obs reported_at st)
      ∷ (Api.condition_artifact_downloaded, downloaded_condition obs)
      ∷ (Api.condition_artifact_verified, verified_condition obs)
      ∷ (Api.condition_process_started, started_condition obs)
      ∷ (Api.condition_spec_warning, warning_condition early obs)
      ∷ (Api.condition_healthy, healthy_condition obs)
      ∷ []

  module _ (now : ℕ → Time) (obs : Observation) (reported_at : Option Time)
      (st : DeviceProcessStatus) where
    early_marks-eq-fold :
        early_marks env now obs reported_at st
        ≡ fold_marks now (early_row obs reported_at st) st.conditions
    unfolding early_marks set_agent_connected mark
    early_marks-eq-fold = refl

    all_marks-eq-fold :
        all_marks env now obs reported_at st
        ≡ fold_marks now
            (row obs reported_at st (early_marks env now obs reported_at st))
            st.conditions
    unfolding all_marks early_marks set_agent_connected mark
    all_marks-eq-fold = refl

    row-AllTyped : (early : List Condition) → AllTyped (row obs reported_at st early)
    row-AllTyped early = assumption (
      refl,
      observed-HasType obs reported_at st,
      downloaded-HasType obs,
      verified-HasType obs,
      started-HasType obs,
      warning-HasType early obs,
      healthy-HasType obs,
      tt,
    )

    early_row-AllTyped : AllTyped (early_row obs reported_at st)
    early_row-AllTyped = assumption (
      refl,
      observed-HasType obs reported_at st,
      downloaded-HasType obs,
      verified-HasType obs,
      started-HasType obs,
      tt,
    )

    row-AreDistinct : (early : List Condition) → AreDistinct (row obs reported_at st early)
    row-AreDistinct early = assumption (refl, tt)

    -- The conditions that are written show every mark that the observation calls for.
    all_marks-AllAgree :
        AllAgree
          (row obs reported_at st (early_marks env now obs reported_at st))
          (all_marks env now obs reported_at st)
    all_marks-AllAgree =
        let early = early_marks env now obs reported_at st in
        rw all_marks-eq-fold (
          AllAgree-fold_marks now (row obs reported_at st early) st.conditions (row-AllTyped early)
            (row-AreDistinct early))

    -- An observation leaves one condition for each type, where there was one.
    pub all_marks-HasUniqueTypes :
        HasUniqueTypes st.conditions → HasUniqueTypes (all_marks env now obs reported_at st)
    all_marks-HasUniqueTypes h = rw all_marks-eq-fold (
        fold_marks-HasUniqueTypes now
          (row obs reported_at st (early_marks env now obs reported_at st)) st.conditions h)

    -- The marks before the warning do not touch it.
    warning-early :
        find_condition (early_marks env now obs reported_at st) Api.condition_spec_warning
        ≡ find_condition st.conditions Api.condition_spec_warning
    warning-early = rw early_marks-eq-fold (
        find-fold_marks_ne now Api.condition_spec_warning (early_row obs reported_at st)
          st.conditions early_row-AllTyped (assumption (refl, tt)))

no_warning : Condition
no_warning =
    condition Api.condition_spec_warning Api.condition_false "NoSpecWarning" "no spec warning"

warning_blank :
    (cs : List Condition) (obs : Observation)
    → (trimmed obs.warning_message == "") ≡ true
    → warning_condition cs obs
      ≡ (if is_nil (find_condition cs Api.condition_spec_warning) then none else some no_warning)
unfolding warning_condition no_warning
warning_blank cs obs blank = rw (blank, warning_condition)

warning_of_mark :
    (now : Time) (cs : List Condition) (obs : Observation)
    → (trimmed obs.warning_message == "") ≡ true
    → is_nil (find_condition (mark now (warning_condition cs obs) cs) Api.condition_spec_warning)
      ≡ is_nil (find_condition cs Api.condition_spec_warning)
unfolding mark no_warning
warning_of_mark now cs obs blank =
    elim (Bool-cases (is_nil (find_condition cs Api.condition_spec_warning))) [
      | inl absent ↦ rw (warning_blank cs obs blank) (rw absent absent)
      | inr there ↦ rw (warning_blank cs obs blank) (rw there (rw find-set_condition refl))
    ]

-- The warning is chosen by the text of the observation, and where that is blank by whether a warning
-- stands there.
warning_by :
    (cs ds : List Condition) (obs : Observation)
    → ((trimmed obs.warning_message == "") ≡ true
        → is_nil (find_condition ds Api.condition_spec_warning)
          ≡ is_nil (find_condition cs Api.condition_spec_warning))
    → warning_condition ds obs ≡ warning_condition cs obs
unfolding warning_condition
warning_by cs ds obs h = elim (Bool-cases (trimmed obs.warning_message == "")) [
  | inl blank ↦ rw (blank, warning_condition) (rw (h blank))
  | inr text ↦ rw (text, warning_condition) refl
]

equal_time_ptr_refl : (t : Option Time) → equal_time_ptr t t ≡ true
unfolding equal_time_ptr
equal_time_ptr_refl none = refl
equal_time_ptr_refl (some t) = ground arith

eqb_ℤ_refl : (a : ℤ) → eqb_ℤ a a ≡ true
eqb_ℤ_refl (pos n) = ground arith
eqb_ℤ_refl (negsuc n) = ground arith

-- Two statuses that differ in their conditions compare as these do.
equal_but_conditions :
    (st : DeviceProcessStatus) (cs : List Condition)
    → conditions_equal st.conditions cs ≡ true
    → reflect_deep_equal_status st (record st { conditions = cs }) ≡ true
unfolding reflect_deep_equal_status
equal_but_conditions st cs h = simp (eq_refl, h, eqb_ℤ_refl, equal_time_ptr_refl)

module _ {W : Type 0} (env : Env W) (now now' : ℕ → Time) (obs : Observation)
    (reported_at reported_at' start : Option Time) (st : DeviceProcessStatus) where
  abbrev early : List Condition
  early = early_marks env now obs reported_at st

  abbrev done : DeviceProcessStatus
  done = observed_status env now obs reported_at start st

  hash_settled : hash_changed obs done ≡ false
  unfolding hash_changed observed_status
  hash_settled = ground (
    arith,
    eq_iff obs.observed_spec_hash "",
    eq_iff st.observed_spec_hash obs.observed_spec_hash,
    eq_refl obs.observed_spec_hash,
  )

  find_done :
      find_condition (early_marks env now' obs reported_at' done) Api.condition_spec_warning
      ≡ find_condition (mark (now 5) (warning_condition early obs) early) Api.condition_spec_warning
  unfolding observed_status all_marks
  find_done =
      warning-early env now' obs reported_at' done
      ∙ find-mark_ne (now 6) Api.condition_spec_warning Api.condition_healthy
          (healthy_condition obs) (mark (now 5) (warning_condition early obs) early)
          (healthy-HasType obs) refl

  same_warning :
      warning_condition (early_marks env now' obs reported_at' done) obs
      ≡ warning_condition early obs
  same_warning =
      warning_by early (early_marks env now' obs reported_at' done) obs
        (λ blank. ap is_nil find_done ∙ warning_of_mark (now 5) early obs blank)

  nothing_observed : spec_observed_condition env obs reported_at' done ≡ none
  unfolding spec_observed_condition
  nothing_observed = rw (hash_settled, spec_observed_condition)

  -- The second row of marks is the first, less the hash.
  settled_agree :
      AllAgree
        (row env obs reported_at' done (early_marks env now' obs reported_at' done))
        done.conditions
  unfolding observed_status
  settled_agree =
      let facts = all_marks-AllAgree env now obs reported_at st in
      let later = facts.1.1 in
      (
        facts.0,
        (
          rw nothing_observed tt,
          (later.0, (later.1.0, (later.1.1.0, (rw same_warning later.1.1.1.0, later.1.1.1.1)))),
        ),
      )

  settled_conditions :
      conditions_equal done.conditions (all_marks env now' obs reported_at' done) ≡ true
  settled_conditions = rw all_marks-eq-fold (
      equal-fold_marks now'
        (row env obs reported_at' done (early_marks env now' obs reported_at' done)) done.conditions
        done.conditions settled_agree (conditions_equal_refl done.conditions))

  settled_hash :
      (if hash_changed obs done then obs.observed_spec_hash else done.observed_spec_hash)
      ≡ done.observed_spec_hash
  settled_hash = rw hash_settled

  settled_status :
      observed_status env now' obs reported_at' start done
      ≡ record done { conditions = all_marks env now' obs reported_at' done }
  unfolding observed_status
  settled_status = λ i. record done {
    conditions = all_marks env now' obs reported_at' done;
    observed_spec_hash = settled_hash i;
  }

  -- An observation that was applied once gives a status that compares as unchanged when it is applied
  -- again with the same start time, whatever the clock and the time of the report are then.
  pub observed_twice :
      reflect_deep_equal_status done (observed_status env now' obs reported_at' start done) ≡ true
  observed_twice =
      rw settled_status
        (equal_but_conditions done (all_marks env now' obs reported_at' done) settled_conditions)
