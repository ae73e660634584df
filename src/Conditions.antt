-- ===== src/Conditions.antt =====
-- pkg/conditions/conditions.go. The slice behind the pointer is passed and returned, and the time
-- that `SetCondition` reads from the clock is its argument `now`.
pub mod Laws
pub mod Tests
use praetor.Base.{◌≡◌, Bool, Option, none, some, List, [], ◌∷◌, String, ◌==◌, if◌then◌else◌}
use praetor.Base.Int.{pos}
use praetor.Api.{Time, Condition, condition_true, condition_false}

-- The first condition with the type.
unfoldable pub find_condition : List Condition → String → Option Condition
find_condition [] t = none
find_condition (c ∷ cs) t = let rest = find_condition cs t in if c.type == t then some c else rest

-- The transition time is the old one where the status stays.
unfoldable pub stamp : Condition → Condition → Condition
stamp existing c =
    if existing.status == c.status
    then record c { last_transition_time = existing.last_transition_time }
    else c

-- The loop of `SetCondition`, over a condition that already has the current time.
unfoldable pub set_from : List Condition → Condition → List Condition
unfolding stamp
set_from [] c = c ∷ []
set_from (existing ∷ cs) c =
    let rest = set_from cs c in
    if existing.type == c.type then stamp existing c ∷ cs else existing ∷ rest

unfoldable pub set_condition : Time → List Condition → Condition → List Condition
unfolding set_from
set_condition now cs c = set_from cs (record c { last_transition_time = now })

-- A condition as a caller of `SetCondition` writes it: no time, no generation.
abbrev pub condition : String → String → String → String → Condition
condition type status reason message = record {
  type = type;
  status = status;
  observed_generation = pos 0;
  last_transition_time = 0;
  reason = reason;
  message = message;
}

unfoldable pub mark_true : Time → List Condition → String → String → String → List Condition
unfolding set_condition
mark_true now cs type reason message =
    set_condition now cs (condition type condition_true reason message)

unfoldable pub mark_false : Time → List Condition → String → String → String → List Condition
unfolding set_condition
mark_false now cs type reason message =
    set_condition now cs (condition type condition_false reason message)
