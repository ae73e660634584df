-- ===== src/Conditions/Laws.antt =====
-- What the conditions of an object are after `SetCondition`.
use praetor.Base.{
  ◌≡◌, refl, Option, none, some, List, [], ◌∷◌, ◌++◌, map, String, ◌==◌, eq_iff, arith,
  if◌then◌else◌, is_nil,
}
use praetor.Api.{Time, Condition}
use praetor.Conditions.{find_condition, stamp, set_from, set_condition}

-- The condition that is stored when `c` is set at the time `now` over the one that was there.
abbrev pub stored : Time → Condition → Option Condition → Condition
stored now c none = record c { last_transition_time = now }
stored now c (some old) =
    if old.status == c.status
    then record c { last_transition_time = old.last_transition_time }
    else record c { last_transition_time = now }

find-set_from :
    (cs : List Condition) (c : Condition) (t : String)
    → find_condition (set_from cs c) t ≡ (
        if c.type == t
        then some (stored c.last_transition_time c (find_condition cs c.type))
        else find_condition cs t)
unfolding find_condition set_from stamp
find-set_from [] c t = ground arith
find-set_from (e ∷ cs) c t =
    ground (arith, find-set_from cs c t, eq_iff e.type c.type, eq_iff e.type t, eq_iff c.type t)

-- After `SetCondition` the condition of its type is the new one, with the old transition time exactly
-- where a condition of the type with the same status was there, and `now` otherwise; the conditions
-- of the other types are found as before.
pub find-set_condition :
    (now : Time) (cs : List Condition) (c : Condition) (t : String)
    → find_condition (set_condition now cs c) t ≡ (
        if c.type == t then some (stored now c (find_condition cs c.type)) else find_condition cs t)
unfolding set_condition
find-set_condition now cs c t = find-set_from cs (record c { last_transition_time = now }) t

abbrev pub types : List Condition → List String
types cs = map (λ c. c.type) cs

types-set_from :
    (cs : List Condition) (c : Condition)
    → types (set_from cs c)
      ≡ (if is_nil (find_condition cs c.type) then types cs ++ c.type ∷ [] else types cs)
unfolding find_condition set_from stamp
types-set_from [] c = refl
types-set_from (e ∷ cs) c = ground (arith, types-set_from cs c, eq_iff e.type c.type)

-- `SetCondition` keeps the order of the conditions: the types stay as they are where the type is
-- there, and a new type goes to the end.
pub types-set_condition :
    (now : Time) (cs : List Condition) (c : Condition)
    → types (set_condition now cs c)
      ≡ (if is_nil (find_condition cs c.type) then types cs ++ c.type ∷ [] else types cs)
unfolding set_condition
types-set_condition now cs c = types-set_from cs (record c { last_transition_time = now })

-- One condition for each type.
abbrev pub HasUniqueTypes : List Condition → Type 0
HasUniqueTypes [] = Unit
HasUniqueTypes (c ∷ cs) = (find_condition cs c.type ≡ none) × HasUniqueTypes cs

set_from-HasUniqueTypes :
    (cs : List Condition) (c : Condition) → HasUniqueTypes cs → HasUniqueTypes (set_from cs c)
unfolding set_from stamp find_condition
set_from-HasUniqueTypes [] c h = (refl, tt)
set_from-HasUniqueTypes (e ∷ cs) c h = ground (
  arith,
  set_from-HasUniqueTypes cs c h.1,
  find-set_from cs c e.type,
  eq_iff e.type c.type,
  eq_iff c.type e.type,
)

-- `SetCondition` never leaves two conditions of one type in a list that had none.
pub set_condition-HasUniqueTypes :
    (now : Time) (cs : List Condition) (c : Condition)
    → HasUniqueTypes cs
    → HasUniqueTypes (set_condition now cs c)
unfolding set_condition
set_condition-HasUniqueTypes now cs c h =
    set_from-HasUniqueTypes cs (record c { last_transition_time = now }) h
