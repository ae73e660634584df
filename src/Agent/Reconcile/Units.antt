-- ===== src/Agent/Reconcile/Units.antt =====
-- What the start, the restart and the inspection of one unit keep of the world.
use praetor.Base.{
  ℕ, Bool, true, false, ◌&&◌, Option, none, some, String, ◌==◌, if◌then◌else◌, trim_space, not,
}
use praetor.Base.Int.{pos, eqb_ℤ}
use praetor.Base.Result.{Result, ok, err}
use praetor.Base.Act.State.{
  pure, ◌>>=◌, ◌>>◌, Preserves, Preserves-pure, Preserves-if, Preserves-bind,
}
use praetor.Gateway.Types.{Observation}
use praetor.Agent.Env.{Env, ManagedItem, error_text}
use praetor.Agent.Systemd.{enable_and_start, restart, stop_and_disable_quiet}
use praetor.Agent.Systemd.Show.{Shown, show}
use praetor.Agent.Systemd.Kept.{
  OwnUnitsKeep, enable-Preserves, restart-Preserves, stop-Preserves, show-Preserves,
}
use praetor.Agent.Actions.{
  seconds, carry_managed, or_zero, mark_action, is_over, should_attempt_action,
}
use praetor.Agent.Running.{
  needs_start, stop_failed, after_correction, correct_drift, correct_if, after_show, inspect,
  after_action, run_unit,
}

module _ {W : Type 0} (env : Env W) {P : W → Type 0} {IsOwn : String → Type 0}
    (keep : OwnUnitsKeep env P IsOwn) where
  mark_action-Preserves :
      (mi : ManagedItem) (hash desc : String) → Preserves P (mark_action env mi hash desc)
  unfolding mark_action
  mark_action-Preserves mi hash desc = record { at = λ w p. keep.now w p }

  is_over-Preserves : (min : ℕ) (o : Option ℕ) → Preserves P (is_over env min o)
  unfolding is_over
  is_over-Preserves min none = record { at = λ w p. p }
  is_over-Preserves min (some at) = record { at = λ w p. keep.now w p }

  attempt-Preserves :
      (mi : ManagedItem) (hash : String)
      → Preserves P (should_attempt_action env mi hash (seconds 5))
  unfolding should_attempt_action
  attempt-Preserves mi hash =
      Preserves-if (trim_space mi.last_action_at == "") _ _ (λ _. Preserves-pure true)
        (λ _.
          Preserves-if
            (not (mi.last_action_spec_hash == "") && not (mi.last_action_spec_hash == hash)) _ _
            (λ _. Preserves-pure true)
            (λ _. is_over-Preserves (seconds 5) (env.parse_rfc3339 mi.last_action_at)))

  module _ (unit : String) (own : IsOwn unit) where
    -- The unit is stopped, and a value is handed on.
    pub then_stop : {A : Type 0} (a : A) → Preserves P (stop_and_disable_quiet env unit >> pure a)
    then_stop a = record { at = λ w p. (stop-Preserves env keep unit own).at w p }

    correction-Preserves :
        (obs : Observation) (s : Shown) (mi : ManagedItem) (r : Result (Unit {0}))
        → Preserves P (after_correction env unit obs s mi r)
    unfolding after_correction
    correction-Preserves obs s mi (ok u) = record {
      at = λ w p. (show-Preserves env keep unit own).at w p;
    }
    correction-Preserves obs s mi (err e) = then_stop _

    marked-Preserves :
        (obs : Observation) (s : Shown) (mi : ManagedItem) (hash desc : String)
        (r : Result (Unit {0}))
        → Preserves P
            (mark_action env mi hash desc >>= λ marked. after_correction env unit obs s marked r)
    marked-Preserves obs s mi hash desc r =
        Preserves-bind (mark_action env mi hash desc) _ (mark_action-Preserves mi hash desc)
          (λ marked. correction-Preserves obs s marked r)

    correct_if-Preserves :
        (attempted : Bool) (hash : String) (obs : Observation) (s : Shown) (mi : ManagedItem)
        → Preserves P (correct_if env attempted unit hash obs s mi)
    unfolding correct_if correct_drift
    correct_if-Preserves attempted hash obs s mi =
        Preserves-if attempted _ _
          (λ _.
            Preserves-if (s.active_state == "active" && eqb_ℤ s.pid (pos 0)) _ _
              (λ _.
                Preserves-bind (restart env unit) _ (restart-Preserves env keep unit own)
                  (λ r. marked-Preserves obs s mi hash "restart-drift" r))
              (λ _.
                Preserves-bind (enable_and_start env unit) _ (enable-Preserves env keep unit own)
                  (λ r. marked-Preserves obs s mi hash "enable-and-start-drift" r)))
          (λ _. Preserves-pure _)

    after_show-Preserves :
        (hash : String) (obs : Observation) (mi : ManagedItem) (shown : Result Shown)
        → Preserves P (after_show env unit hash obs mi shown)
    unfolding after_show
    after_show-Preserves hash obs mi (ok s) =
        Preserves-bind
          (if needs_start s then should_attempt_action env mi hash (seconds 5) else pure false) _
          (Preserves-if (needs_start s) _ _ (λ _. attempt-Preserves mi hash)
            (λ _. Preserves-pure false))
          (λ attempted. correct_if-Preserves attempted hash obs s mi)
    after_show-Preserves hash obs mi (err e) = Preserves-pure _

    inspect-Preserves :
        (hash : String) (obs : Observation) (mi : ManagedItem)
        → Preserves P (inspect env unit hash obs mi)
    unfolding inspect
    inspect-Preserves hash obs mi =
        Preserves-bind (show env unit) _ (show-Preserves env keep unit own)
          (λ shown. after_show-Preserves hash obs mi shown)

    pub stop_failed-Preserves :
        (obs : Observation) (text : String) (mi : ManagedItem)
        → Preserves P (stop_failed env unit obs text mi)
    unfolding stop_failed
    stop_failed-Preserves obs text mi = then_stop _

    after_action-Preserves :
        (desc hash : String) (obs : Observation) (mi : ManagedItem) (r : Result (Unit {0}))
        → Preserves P (after_action env desc unit hash obs mi r)
    unfolding after_action
    after_action-Preserves desc hash obs mi (ok u) =
        Preserves-bind (mark_action env mi hash desc) _ (mark_action-Preserves mi hash desc)
          (λ marked. inspect-Preserves hash obs marked)
    after_action-Preserves desc hash obs mi (err e) = stop_failed-Preserves obs (error_text e) mi

    pub run_unit-Preserves :
        (prev : Option ManagedItem) (hash : String) (obs : Observation) (changed : Bool)
        → Preserves P (run_unit env prev unit hash obs changed)
    unfolding run_unit
    run_unit-Preserves none hash obs changed =
        Preserves-bind (enable_and_start env unit) _ (enable-Preserves env keep unit own) (λ r.
          after_action-Preserves "enable-and-start" hash obs (carry_managed (or_zero none) unit) r)
    run_unit-Preserves (some prev) hash obs true =
        Preserves-bind (restart env unit) _ (restart-Preserves env keep unit own)
          (λ r. after_action-Preserves "restart" hash obs (carry_managed prev unit) r)
    run_unit-Preserves (some prev) hash obs false =
        inspect-Preserves hash obs (carry_managed prev unit)
