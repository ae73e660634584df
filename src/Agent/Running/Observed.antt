-- ===== src/Agent/Running/Observed.antt =====
-- What is observed of a unit.
use praetor.Base.{
  ◌≡◌, ◌⊎◌, refl, Bool, true, false, inl, inr, Bool-cases, ◌&&◌, Option, none, some, String, ◌==◌,
  if◌then◌else◌, arith,
}
use praetor.Base.Int.{pos, ltb_ℤ, eqb_ℤ}
use praetor.Base.Result.{Result, ok, err}
use praetor.Base.Act.State.{
  pure, ◌>>=◌, Yields, Yields-pure, Yields-if, Yields-bind, Yields-bind_value, Yields-then,
}
use praetor.Gateway.Types.{Observation}
use praetor.Agent.Env.{Env, ManagedItem, error_text}
use praetor.Agent.Systemd.{enable_and_start, restart, stop_and_disable_quiet}
use praetor.Agent.Systemd.Show.{Shown, show}
use praetor.Agent.Actions.{seconds, carry_managed, or_zero, mark_action, should_attempt_action}
use praetor.Agent.Artifact.{not_running, failed}
use praetor.Agent.Running.{
  Outcome, outcome, nothing_shown, is_started, needs_start, conclude, stop_failed,
  after_second_show, after_correction, correct_drift, correct_if, after_show, inspect, after_action,
  run_unit,
}

-- The fields of an observation that name what it is about.
pub record IsAbout (namespace name spec_hash : String) (obs : Observation) : Type 0 where
  pub same_namespace : obs.namespace ≡ namespace
  pub same_name : obs.name ≡ name
  pub same_hash : obs.observed_spec_hash ≡ spec_hash

-- Nothing is said yet of the process.
pub record IsFresh (obs : Observation) : Type 0 where
  pub no_pid : obs.pid ≡ pos 0
  pub no_start : obs.start_time ≡ ""

-- The process is up with a process id, or it is down, with none and without a start.
abbrev pub IsUp : Observation → Type 0
IsUp obs = (obs.process_started ≡ some true) × (ltb_ℤ (pos 0) obs.pid ≡ true)

abbrev pub IsDown : Observation → Type 0
IsDown obs = (obs.process_started ≡ some false) × ((obs.pid ≡ pos 0) × (obs.start_time ≡ ""))

pub record IsSettled (obs : Observation) : Type 0 where
  pub started_is_healthy : obs.healthy ≡ obs.process_started
  pub up_or_down : IsUp obs ⊎ IsDown obs

-- What an item's outcome says: it is about the item, settled, and names the unit.
pub record Reports (namespace name spec_hash unit : String) (out : Outcome) : Type 0 where
  pub about : IsAbout namespace name spec_hash out.observation
  pub settled : IsSettled out.observation
  pub names_unit : out.managed.unit_name ≡ unit

module _ {W : Type 0} (env : Env W) (namespace name spec_hash unit : String) where
  conclude-Reports :
      (obs : Observation) (s : Shown) (managed : ManagedItem)
      → IsAbout namespace name spec_hash obs
      → managed.unit_name ≡ unit
      → Reports namespace name spec_hash unit (outcome (conclude env obs s) managed)
  unfolding conclude is_started
  conclude-Reports obs s managed about named = elim (Bool-cases (is_started s)) [
    | inl e ↦ rw e (ground arith)
    | inr e ↦ rw e (ground arith)
  ]

  pub failed-Reports :
      (obs : Observation) (message : String) (managed : ManagedItem)
      → IsAbout namespace name spec_hash obs
      → IsFresh obs
      → managed.unit_name ≡ unit
      → Reports namespace name spec_hash unit (outcome (failed obs message) managed)
  unfolding failed not_running
  failed-Reports obs message managed about fresh named = ground arith

  second_show-Reports :
      (obs : Observation) (again : Result Shown) (managed : ManagedItem)
      → IsAbout namespace name spec_hash obs
      → managed.unit_name ≡ unit
      → Reports namespace name spec_hash unit (outcome (after_second_show env obs again) managed)
  unfolding after_second_show
  second_show-Reports obs (ok s) managed about named = conclude-Reports obs s managed about named
  second_show-Reports obs (err e) managed about named =
      conclude-Reports (record obs { error_message = some (error_text e) }) nothing_shown managed
        (record {
          same_namespace = about.same_namespace;
          same_name = about.same_name;
          same_hash = about.same_hash;
        })
        named

  failed-IsAbout :
      (obs : Observation) (message : String)
      → IsAbout namespace name spec_hash obs
      → IsAbout namespace name spec_hash (failed obs message)
  unfolding failed not_running
  failed-IsAbout obs message about = record {
    same_namespace = about.same_namespace;
    same_name = about.same_name;
    same_hash = about.same_hash;
  }

  correction-Reports :
      (obs : Observation) (s : Shown) (managed : ManagedItem) (r : Result (Unit {0}))
      → IsAbout namespace name spec_hash obs
      → managed.unit_name ≡ unit
      → Yields (Reports namespace name spec_hash unit) (after_correction env unit obs s managed r)
  unfolding after_correction
  correction-Reports obs s managed (ok u) about named =
      Yields-bind (show env unit) _
        (λ again. Yields-pure _ (second_show-Reports obs again managed about named))
  correction-Reports obs s managed (err e) about named =
      Yields-then (stop_and_disable_quiet env unit) _ (
        Yields-pure _ (
          conclude-Reports (failed obs (error_text e)) s managed
            (failed-IsAbout obs (error_text e) about) named))

  -- The mark of an action leaves the unit's name.
  mark_action-Yields :
      (managed : ManagedItem) (desc : String)
      → managed.unit_name ≡ unit
      → Yields (λ mi. mi.unit_name ≡ unit) (mark_action env managed spec_hash desc)
  unfolding mark_action
  mark_action-Yields managed desc named = record { at = λ w. named }

  drift-Reports :
      (obs : Observation) (s : Shown) (managed : ManagedItem) (attempted : Bool)
      → IsAbout namespace name spec_hash obs
      → managed.unit_name ≡ unit
      → Yields
          (Reports namespace name spec_hash unit)
          (correct_if env attempted unit spec_hash obs s managed)
  unfolding correct_if correct_drift
  drift-Reports obs s managed attempted about named =
      let corrected : (r : Result (Unit {0})) (desc : String)
          → Yields (Reports namespace name spec_hash unit) (
              mark_action env managed spec_hash desc >>= λ marked.
              after_correction env unit obs s marked r) =
        λ r desc.
          Yields-bind_value (λ mi. mi.unit_name ≡ unit) (mark_action env managed spec_hash desc) _
            (mark_action-Yields managed desc named)
            (λ marked same. correction-Reports obs s marked r about same) in
      Yields-if attempted _ _
        (Yields-if (s.active_state == "active" && eqb_ℤ s.pid (pos 0)) _ _
          (Yields-bind (restart env unit) _ (λ r. corrected r "restart-drift"))
          (Yields-bind (enable_and_start env unit) _ (λ r. corrected r "enable-and-start-drift")))
        (Yields-pure _ (conclude-Reports obs s managed about named))

  show-Reports :
      (obs : Observation) (managed : ManagedItem) (shown : Result Shown)
      → IsAbout namespace name spec_hash obs
      → IsFresh obs
      → managed.unit_name ≡ unit
      → Yields
          (Reports namespace name spec_hash unit)
          (after_show env unit spec_hash obs managed shown)
  unfolding after_show
  show-Reports obs managed (ok s) about fresh named =
      Yields-bind
        (if needs_start s
          then should_attempt_action env managed spec_hash (seconds 5)
          else pure false)
        _ (λ attempted. drift-Reports obs s managed attempted about named)
  show-Reports obs managed (err e) about fresh named =
      Yields-pure _ (failed-Reports obs (error_text e) managed about fresh named)

  inspect-Reports :
      (obs : Observation) (managed : ManagedItem)
      → IsAbout namespace name spec_hash obs
      → IsFresh obs
      → managed.unit_name ≡ unit
      → Yields (Reports namespace name spec_hash unit) (inspect env unit spec_hash obs managed)
  unfolding inspect
  inspect-Reports obs managed about fresh named =
      Yields-bind (show env unit) _ (λ shown. show-Reports obs managed shown about fresh named)

  pub stop_failed-Reports :
      (obs : Observation) (message : String) (managed : ManagedItem)
      → IsAbout namespace name spec_hash obs
      → IsFresh obs
      → managed.unit_name ≡ unit
      → Yields (Reports namespace name spec_hash unit) (stop_failed env unit obs message managed)
  unfolding stop_failed
  stop_failed-Reports obs message managed about fresh named =
      Yields-then (stop_and_disable_quiet env unit) _
        (Yields-pure _ (failed-Reports obs message managed about fresh named))

  action-Reports :
      (desc : String) (obs : Observation) (managed : ManagedItem) (r : Result (Unit {0}))
      → IsAbout namespace name spec_hash obs
      → IsFresh obs
      → managed.unit_name ≡ unit
      → Yields
          (Reports namespace name spec_hash unit)
          (after_action env desc unit spec_hash obs managed r)
  unfolding after_action
  action-Reports desc obs managed (ok u) about fresh named =
      Yields-bind_value (λ mi. mi.unit_name ≡ unit) (mark_action env managed spec_hash desc) _
        (mark_action-Yields managed desc named)
        (λ marked same. inspect-Reports obs marked about fresh same)
  action-Reports desc obs managed (err e) about fresh named =
      stop_failed-Reports obs (error_text e) managed about fresh named

  pub run_unit-Reports :
      (prev : Option ManagedItem) (obs : Observation) (changed : Bool)
      → IsAbout namespace name spec_hash obs
      → IsFresh obs
      → Yields
          (Reports namespace name spec_hash unit)
          (run_unit env prev unit spec_hash obs changed)
  unfolding run_unit carry_managed
  run_unit-Reports none obs changed about fresh = Yields-bind (enable_and_start env unit) _ (λ r.
      action-Reports "enable-and-start" obs (carry_managed (or_zero none) unit) r about fresh refl)
  run_unit-Reports (some prev) obs true about fresh =
      Yields-bind (restart env unit) _
        (λ r. action-Reports "restart" obs (carry_managed prev unit) r about fresh refl)
  run_unit-Reports (some prev) obs false about fresh =
      inspect-Reports obs (carry_managed prev unit) about fresh refl
