-- ===== src/Agent/Run/Backoff.antt =====
-- The backoff of the loop.
use praetor.Base.{◌≤◌, ℕ, List, arith}
use praetor.Agent.Env.{Env}
use praetor.Agent.Actions.{seconds}
use praetor.Agent.Poll.{Config, Agent}
use praetor.Agent.Run.{
  Loop, Event, enter, settle, back_off, Step, poll, fail_poll, report, fail_report, Run, here, next,
}

module _ {W : Type 0} (env : Env W) (config : Config) where
  abbrev IsBounded : Loop W → Type 0
  IsBounded s = (seconds 2 ≤ s.backoff) × (s.backoff ≤ seconds 30)

  Step-IsBounded : {s t : Loop W} {e : Event} → Step env config s e t → IsBounded s → IsBounded t
  unfolding settle back_off
  Step-IsBounded (poll took period due good beat positive) b = (omega arith, omega arith)
  Step-IsBounded (fail_poll took jitter e due bad short) b = ground arith
  Step-IsBounded (report took period due good beat positive) b = (omega arith, omega arith)
  Step-IsBounded (fail_report took jitter e due bad short) b = ground arith

  -- In every run of the loop, whatever fails and however often, the backoff stays between two and
  -- thirty seconds.
  pub Run-IsBounded :
      (a : Agent) (w : W) (now period : ℕ) {es : List Event} {t : Loop W}
      → Run env config (enter a w now period) es t
      → (seconds 2 ≤ t.backoff) × (t.backoff ≤ seconds 30)
  unfolding enter
  Run-IsBounded a w now period here = (omega arith, omega arith)
  Run-IsBounded a w now period (next run step) =
      Step-IsBounded step (Run-IsBounded a w now period run)
