-- ===== src/Agent/Running.antt =====
-- agent/main.go: the part of `reconcile` that brings a unit to run and looks at it.
pub mod Observed
use praetor.Base.{
  ℕ, Bool, true, false, not, ◌&&◌, ◌||◌, Option, none, some, List, [], ◌∷◌, String, ◌==◌, eqb,
  if◌then◌else◌,
}
use praetor.Base.Int.{ℤ, pos, ltb_ℤ, eqb_ℤ}
use praetor.Base.Result.{Result, ok, err}
use praetor.Base.Act.State.{State, pure, ◌>>=◌, ◌>>◌}
use praetor.Gateway.Types.{Observation}
use praetor.Agent.Env.{Env, ManagedItem, error_text}
use praetor.Agent.Systemd.{enable_and_start, restart, stop_and_disable_quiet}
use praetor.Agent.Systemd.Show.{Shown, show}
use praetor.Agent.Actions.{seconds, carry_managed, or_zero, mark_action, should_attempt_action}
use praetor.Agent.Artifact.{failed}

-- What an item appends to `obs`, and what it stores in `managedNow`.
pub record Outcome : Type 0 where
  pub observation : Observation
  pub managed : ManagedItem

abbrev pub outcome : Observation → ManagedItem → Outcome
outcome obs managed = record { observation = obs; managed = managed }

-- What Show returns beside an error.
abbrev pub nothing_shown : Shown
nothing_shown = record { pid = pos 0; start_time = 0; active_state = ""; sub_state = "" }

unfoldable pub is_started : Shown → Bool
is_started s = s.active_state == "active" && ltb_ℤ (pos 0) s.pid

unfoldable pub needs_start : Shown → Bool
needs_start s = not (s.active_state == "active") || eqb_ℤ s.pid (pos 0)

module _ {W : Type 0} (env : Env W) where
  unfoldable pub start_text : Shown → String
  start_text s = if eqb s.start_time 0 then "" else env.format_rfc3339 s.start_time

  -- The process as it was shown last.
  unfoldable pub conclude : Observation → Shown → Observation
  unfolding is_started start_text
  conclude obs s =
      if is_started s
      then record obs {
        process_started = some true;
        healthy = some true;
        pid = s.pid;
        start_time = start_text s;
      }
      else record obs {
        process_started = some false;
        healthy = some false;
        pid = pos 0;
        start_time = "";
      }

  unfoldable pub stop_failed : String → Observation → String → ManagedItem → State W Outcome
  unfolding failed stop_and_disable_quiet
  stop_failed unit obs message managed = do
    stop_and_disable_quiet env unit
    pure (outcome (failed obs message) managed)

  -- Behind the attempt to correct a drift: the unit is shown again, or stopped.
  unfoldable pub after_second_show : Observation → Result Shown → Observation
  unfolding conclude
  after_second_show obs (ok s) = conclude obs s
  after_second_show obs (err e) =
      conclude (record obs { error_message = some (error_text e) }) nothing_shown

  unfoldable pub after_correction :
      String → Observation → Shown → ManagedItem → Result (Unit {0}) → State W Outcome
  unfolding after_second_show conclude failed stop_and_disable_quiet show
  after_correction unit obs s managed (ok _) = do
    again ← show env unit
    pure (outcome (after_second_show obs again) managed)
  after_correction unit obs s managed (err e) = do
    stop_and_disable_quiet env unit
    pure (outcome (conclude (failed obs (error_text e)) s) managed)

  -- The process is active without a process id: it is restarted; else it is started.
  unfoldable pub correct_drift :
      String → String → Observation → Shown → ManagedItem → State W Outcome
  unfolding after_correction mark_action enable_and_start restart
  correct_drift unit spec_hash obs s managed =
      if s.active_state == "active" && eqb_ℤ s.pid (pos 0)
      then (do
        r ← restart env unit
        marked ← mark_action env managed spec_hash "restart-drift"
        after_correction unit obs s marked r)
      else (do
        r ← enable_and_start env unit
        marked ← mark_action env managed spec_hash "enable-and-start-drift"
        after_correction unit obs s marked r)

  unfoldable pub correct_if :
      Bool → String → String → Observation → Shown → ManagedItem → State W Outcome
  unfolding correct_drift conclude
  correct_if attempted unit spec_hash obs s managed =
      if attempted
      then correct_drift unit spec_hash obs s managed
      else pure (outcome (conclude obs s) managed)

  unfoldable pub after_show :
      String → String → Observation → ManagedItem → Result Shown → State W Outcome
  unfolding correct_if failed needs_start should_attempt_action
  after_show unit spec_hash obs managed (err e) = pure (outcome (failed obs (error_text e)) managed)
  after_show unit spec_hash obs managed (ok s) = do
    attempted ←
        if needs_start s
        then should_attempt_action env managed spec_hash (seconds 5)
        else pure false
    correct_if attempted unit spec_hash obs s managed

  unfoldable pub inspect : String → String → Observation → ManagedItem → State W Outcome
  unfolding after_show show
  inspect unit spec_hash obs managed = do
    shown ← show env unit
    after_show unit spec_hash obs managed shown

  -- Behind EnableAndStart or Restart, which a description names.
  unfoldable pub after_action :
      String → String → String → Observation → ManagedItem → Result (Unit {0}) → State W Outcome
  unfolding inspect mark_action stop_failed
  after_action desc unit spec_hash obs managed (err e) = stop_failed unit obs (error_text e) managed
  after_action desc unit spec_hash obs managed (ok _) = do
    marked ← mark_action env managed spec_hash desc
    inspect unit spec_hash obs marked

  -- An item that is new is started; one whose files changed is restarted.
  unfoldable pub run_unit :
      Option ManagedItem → String → String → Observation → Bool → State W Outcome
  unfolding after_action inspect enable_and_start restart carry_managed
  run_unit none unit spec_hash obs changed = do
    r ← enable_and_start env unit
    after_action "enable-and-start" unit spec_hash obs (carry_managed (or_zero none) unit) r
  run_unit (some prev) unit spec_hash obs true = do
    r ← restart env unit
    after_action "restart" unit spec_hash obs (carry_managed prev unit) r
  run_unit (some prev) unit spec_hash obs false =
      inspect unit spec_hash obs (carry_managed prev unit)
