-- ===== src/Gateway/Status/Marks.antt =====
-- Marking conditions one after another: what a mark leaves alone, and when it changes nothing that
-- the comparison of statuses sees.
use praetor.Base.{
  ◌≡◌, refl, true, false, Option, none, some, List, [], ◌∷◌, String, ◌==◌, eq_iff, eq_refl, arith,
  is_nil,
}
use praetor.Api.{Time, Condition}
use praetor.Conditions.{find_condition, stamp, set_from, set_condition}
use praetor.Conditions.Laws.{
  stored, find-set_condition, HasUniqueTypes, set_condition-HasUniqueTypes,
}
use praetor.Gateway.Status.{mark, conditions_equal}

abbrev pub HasType : String → Option Condition → Type 0
HasType t none = Unit
HasType t (some c) = c.type ≡ t

-- A condition that is found shows the status, the reason and the message of `c`.
abbrev pub Shows : Condition → Option Condition → Type 0
Shows c none = ⊥
Shows c (some e) = (e.status ≡ c.status) × (e.reason ≡ c.reason) × (e.message ≡ c.message)

-- The conditions hold what the mark would write, apart from the time.
abbrev pub Agrees : Option Condition → List Condition → Type 0
Agrees none cs = Unit
Agrees (some c) cs = Shows c (find_condition cs c.type)

Shows-stored :
    (now : Time) (c : Condition) (old : Option Condition) → Shows c (some (stored now c old))
Shows-stored now c none = (refl, refl, refl)
Shows-stored now c (some old) = ground arith

-- What was marked is there.
pub Agrees-mark_self :
    (now : Time) (o : Option Condition) (cs : List Condition) → Agrees o (mark now o cs)
unfolding mark
Agrees-mark_self now none cs = tt
Agrees-mark_self now (some c) cs =
    rw find-set_condition (rw eq_refl (Shows-stored now c (find_condition cs c.type)))

-- A mark of one type leaves the conditions of another as they are found.
pub find-mark_ne :
    (now : Time) (t u : String) (p : Option Condition) (cs : List Condition)
    → HasType u p
    → (u == t) ≡ false
    → find_condition (mark now p cs) t ≡ find_condition cs t
unfolding mark
find-mark_ne now t u none cs h ne = refl
find-mark_ne now t u (some c) cs h ne = rw find-set_condition (rw h (rw ne))

pub Agrees-mark_ne :
    (now : Time) (t u : String) (o p : Option Condition) (cs : List Condition)
    → HasType t o
    → HasType u p
    → (u == t) ≡ false
    → Agrees o cs
    → Agrees o (mark now p cs)
Agrees-mark_ne now t u none p cs h k ne a = tt
Agrees-mark_ne now t u (some c) p cs h k ne a = rw (find-mark_ne now c.type u p cs k (rw h ne)) a

pub conditions_equal_refl : (cs : List Condition) → conditions_equal cs cs ≡ true
unfolding conditions_equal
conditions_equal_refl [] = refl
conditions_equal_refl (c ∷ cs) = simp (eq_refl, conditions_equal_refl cs)

pub conditions_equal_trans :
    (as' bs cs : List Condition)
    → conditions_equal as' bs ≡ true
    → conditions_equal bs cs ≡ true
    → conditions_equal as' cs ≡ true
unfolding conditions_equal
conditions_equal_trans [] [] cs h k = k
conditions_equal_trans [] (b ∷ bs) cs h k = cc
conditions_equal_trans (a ∷ as') [] cs h k = cc
conditions_equal_trans (a ∷ as') (b ∷ bs) [] h k = cc
conditions_equal_trans (a ∷ as') (b ∷ bs) (c ∷ cs) h k = ground (
  arith,
  conditions_equal_trans as' bs cs,
  eq_iff a.type b.type,
  eq_iff a.status b.status,
  eq_iff a.reason b.reason,
  eq_iff a.message b.message,
)

Shows-of_equal :
    (c : Condition) (as' bs : List Condition) (t : String)
    → conditions_equal as' bs ≡ true
    → Shows c (find_condition as' t)
    → Shows c (find_condition bs t)
unfolding conditions_equal find_condition
Shows-of_equal c [] bs t h s = absurd s
Shows-of_equal c (a ∷ as') [] t h s = cc
Shows-of_equal c (a ∷ as') (b ∷ bs) t h s = ground (
  arith,
  Shows-of_equal c as' bs t,
  eq_iff a.type b.type,
  eq_iff a.status b.status,
  eq_iff a.reason b.reason,
  eq_iff a.message b.message,
)

equal-set_from :
    (cs : List Condition) (c : Condition)
    → Shows c (find_condition cs c.type)
    → conditions_equal cs (set_from cs c) ≡ true
unfolding conditions_equal find_condition set_from stamp
equal-set_from [] c s = absurd s
equal-set_from (e ∷ cs) c s = ground (
  arith,
  equal-set_from cs c,
  conditions_equal_refl cs,
  eq_iff e.type c.type,
  eq_refl e.type,
  eq_refl e.status,
  eq_refl e.reason,
  eq_refl e.message,
)

-- A mark that is there already is not seen by the comparison, after any number of such marks.
pub equal-mark :
    (now : Time) (o : Option Condition) (as' cs : List Condition)
    → Agrees o as'
    → conditions_equal as' cs ≡ true
    → conditions_equal as' (mark now o cs) ≡ true
unfolding mark set_condition
equal-mark now none as' cs a e = e
equal-mark now (some c) as' cs a e =
    conditions_equal_trans as' cs (set_from cs (record c { last_transition_time = now })) e (
      equal-set_from cs (record c { last_transition_time = now })
        (Shows-of_equal c as' cs c.type e a))

pub is_nil_of_equal :
    (as' bs : List Condition) (t : String)
    → conditions_equal as' bs ≡ true
    → is_nil (find_condition bs t) ≡ is_nil (find_condition as' t)
unfolding conditions_equal find_condition
is_nil_of_equal [] [] t h = refl
is_nil_of_equal [] (b ∷ bs) t h = cc
is_nil_of_equal (a ∷ as') [] t h = cc
is_nil_of_equal (a ∷ as') (b ∷ bs) t h =
    ground (arith, is_nil_of_equal as' bs t, eq_iff a.type b.type)

pub mark-HasUniqueTypes :
    (now : Time) (o : Option Condition) (cs : List Condition)
    → HasUniqueTypes cs
    → HasUniqueTypes (mark now o cs)
unfolding mark
mark-HasUniqueTypes now none cs h = h
mark-HasUniqueTypes now (some c) cs h = set_condition-HasUniqueTypes now cs c h
