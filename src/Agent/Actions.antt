-- ===== src/Agent/Actions.antt =====
-- agent/main.go: the marks of the actions on a unit.
pub mod Throttle
use praetor.Base.{
  ℕ, ◌+◌, ◌*◌, Bool, true, not, ◌&&◌, ◌||◌, Option, none, some, String, ◌==◌, leb, if◌then◌else◌,
  trim_space,
}
use praetor.Base.Act.State.{State, pure}
use praetor.Api.{Time}
use praetor.Agent.Env.{Env, ManagedItem}

abbrev pub seconds : ℕ → Time
seconds n = n * 1000000000

-- The zero value.
abbrev pub no_item : ManagedItem
no_item = record {
  unit_name = "";
  last_action_at = "";
  last_action_spec_hash = "";
  last_action_description = "";
}

unfoldable pub carry_managed : ManagedItem → String → ManagedItem
carry_managed prev unit_name = record prev { unit_name = unit_name }

-- prev, hadPrev := a.managed[key]
abbrev pub or_zero : Option ManagedItem → ManagedItem
or_zero none = no_item
or_zero (some mi) = mi

module _ {W : Type 0} (env : Env W) where
  unfoldable pub mark_action : ManagedItem → String → String → State W ManagedItem
  mark_action mi spec_hash desc w =
      let (t, w') = env.now w in
      (
        record mi {
          last_action_at = env.format_rfc3339 t;
          last_action_spec_hash = spec_hash;
          last_action_description = desc;
        },
        w',
      )

  -- time.Since(last) >= minInterval, and true where there is no time to go by.
  unfoldable pub is_over : Time → Option Time → State W Bool
  is_over min_interval none w = (true, w)
  is_over min_interval (some at) w = let (t, w') = env.now w in (leb (at + min_interval) t, w')

  unfoldable pub should_attempt_action : ManagedItem → String → Time → State W Bool
  unfolding trim_space is_over
  should_attempt_action mi spec_hash min_interval =
      if trim_space mi.last_action_at == ""
      then pure true
      else if not (mi.last_action_spec_hash == "") && not (mi.last_action_spec_hash == spec_hash)
      then pure true
      else is_over min_interval (env.parse_rfc3339 mi.last_action_at)
