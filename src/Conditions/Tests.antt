-- ===== src/Conditions/Tests.antt =====
-- Runs of the condition helpers on small lists.
use praetor.Base.{◌≡◌, refl, some, List, [], ◌∷◌, ◌==◌, if◌then◌else◌}
use praetor.Api.{Condition}
use praetor.Conditions.{find_condition, set_condition, condition}
use praetor.Conditions.Laws.{stored, find-set_condition, HasUniqueTypes}

abbrev started : Condition
started = condition "ProcessStarted" "True" "ProcessStarted" "process started"

abbrev healthy : Condition
healthy = condition "Healthy" "True" "Healthy" "process healthy"

abbrev unhealthy : Condition
unhealthy = condition "Healthy" "False" "Unhealthy" "process reported unhealthy"

abbrev two_conditions : List Condition
two_conditions = started ∷ healthy ∷ []

find-set_condition_example : find_condition (set_condition 7 two_conditions unhealthy) "Healthy" ≡ (
    if unhealthy.type == "Healthy"
    then some (stored 7 unhealthy (find_condition two_conditions unhealthy.type))
    else find_condition two_conditions "Healthy")
find-set_condition_example = find-set_condition 7 two_conditions unhealthy "Healthy"

two_conditions-HasUniqueTypes : HasUniqueTypes two_conditions
unfolding find_condition
two_conditions-HasUniqueTypes = (refl, (refl, tt))

status_that_changes :
    find_condition (set_condition 7 two_conditions unhealthy) "Healthy"
    ≡ some (record unhealthy { last_transition_time = 7 })
unfolding find_condition set_condition
status_that_changes = refl

status_that_stays : find_condition (set_condition 7 two_conditions healthy) "Healthy" ≡ some healthy
unfolding find_condition set_condition
status_that_stays = refl
