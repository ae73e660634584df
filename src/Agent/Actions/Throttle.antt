-- ===== src/Agent/Actions/Throttle.antt =====
-- When a drift is corrected again.
use praetor.Base.{
  ◌≡◌, refl, ◌+◌, false, not, ◌&&◌, ◌||◌, some, String, ◌==◌, leb, inl, inr, Bool-cases, trim_space,
}
use praetor.Api.{Time}
use praetor.Agent.Env.{Env, ManagedItem}
use praetor.Agent.Actions.{mark_action, is_over, should_attempt_action}

module _ {W : Type 0} (env : Env W) where
  -- An action that was marked at a time that reads back as `at` may be tried again exactly where the
  -- hash of the spec is another one, and not empty before, or the interval is over by the clock at
  -- that time. The time reads back where formatting and parsing agree on it, and is not blank.
  pub should_attempt-mark :
      (mi : ManagedItem) (marked asked desc : String) (interval at : Time) (w v : W)
      → (trim_space (env.format_rfc3339 (env.now w).0) == "") ≡ false
      → env.parse_rfc3339 (env.format_rfc3339 (env.now w).0) ≡ some at
      → (should_attempt_action env (mark_action env mi marked desc w).0 asked interval v).0
        ≡ ((not (marked == "") && not (marked == asked)) || leb (at + interval) (env.now v).0)
  unfolding should_attempt_action mark_action is_over
  should_attempt-mark mi marked asked desc interval at w v shown back =
      rw shown (elim (Bool-cases (not (marked == "") && not (marked == asked))) [
        | inl e ↦ rw e refl
        | inr e ↦ rw e (rw back refl)
      ])
