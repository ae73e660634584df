-- ===== src/Gateway/Status/Fold.antt =====
-- A row of marks of different types.
use praetor.Base.{ℕ, suc, ◌≡◌, ◌∙◌, true, false, Option, List, [], ◌∷◌, String, ◌==◌, All}
use praetor.Api.{Time, Condition}
use praetor.Conditions.{find_condition}
use praetor.Conditions.Laws.{HasUniqueTypes}
use praetor.Gateway.Status.{mark, conditions_equal}
use praetor.Gateway.Status.Marks.{
  HasType, Agrees, Agrees-mark_self, Agrees-mark_ne, equal-mark, find-mark_ne, mark-HasUniqueTypes,
}

-- A mark with the type that it is of, if it is made.
abbrev pub Mark : Type 0
Mark = String × Option Condition

abbrev pub fold_marks : (ℕ → Time) → List Mark → List Condition → List Condition
fold_marks now [] cs = cs
fold_marks now ((t, o) ∷ ms) cs = fold_marks (λ i. now (suc i)) ms (mark (now 0) o cs)

abbrev pub AllTyped : List Mark → Type 0
AllTyped = All (λ m. HasType m.0 m.1)

abbrev pub AllAgree : List Mark → List Condition → Type 0
AllAgree ms cs = All (λ m. Agrees m.1 cs) ms

-- No mark of the row is of the type.
abbrev pub Avoids : String → List Mark → Type 0
Avoids t = All (λ m. (m.0 == t) ≡ false)

abbrev pub AreDistinct : List Mark → Type 0
AreDistinct [] = Unit
AreDistinct ((t, o) ∷ ms) = Avoids t ms × AreDistinct ms

Agrees-fold_marks :
    (now : ℕ → Time) (t : String) (o : Option Condition) (ms : List Mark) (cs : List Condition)
    → HasType t o
    → AllTyped ms
    → Avoids t ms
    → Agrees o cs
    → Agrees o (fold_marks now ms cs)
Agrees-fold_marks now t o [] cs h typed avoids a = a
Agrees-fold_marks now t o ((u, p) ∷ ms) cs h (k, typed) (ne, avoids) a =
    Agrees-fold_marks (λ i. now (suc i)) t o ms (mark (now 0) p cs) h typed avoids
      (Agrees-mark_ne (now 0) t u o p cs h k ne a)

-- After the row the conditions show every mark of it.
pub AllAgree-fold_marks :
    (now : ℕ → Time) (ms : List Mark) (cs : List Condition)
    → AllTyped ms
    → AreDistinct ms
    → AllAgree ms (fold_marks now ms cs)
AllAgree-fold_marks now [] cs typed distinct = tt
AllAgree-fold_marks now ((t, o) ∷ ms) cs (h, typed) (avoids, distinct) = (
  Agrees-fold_marks (λ i. now (suc i)) t o ms (mark (now 0) o cs) h typed avoids
      (Agrees-mark_self (now 0) o cs),
  AllAgree-fold_marks (λ i. now (suc i)) ms (mark (now 0) o cs) typed distinct,
)

pub find-fold_marks_ne :
    (now : ℕ → Time) (t : String) (ms : List Mark) (cs : List Condition)
    → AllTyped ms
    → Avoids t ms
    → find_condition (fold_marks now ms cs) t ≡ find_condition cs t
find-fold_marks_ne now t [] cs typed avoids = λ i. find_condition cs t
find-fold_marks_ne now t ((u, p) ∷ ms) cs (k, typed) (ne, avoids) =
    find-fold_marks_ne (λ i. now (suc i)) t ms (mark (now 0) p cs) typed avoids
    ∙ find-mark_ne (now 0) t u p cs k ne

-- A row that the conditions show already is not seen by the comparison.
pub equal-fold_marks :
    (now : ℕ → Time) (ms : List Mark) (as' cs : List Condition)
    → AllAgree ms as'
    → conditions_equal as' cs ≡ true
    → conditions_equal as' (fold_marks now ms cs) ≡ true
equal-fold_marks now [] as' cs agree e = e
equal-fold_marks now ((t, o) ∷ ms) as' cs (a, agree) e =
    equal-fold_marks (λ i. now (suc i)) ms as' (mark (now 0) o cs) agree
      (equal-mark (now 0) o as' cs a e)

pub fold_marks-HasUniqueTypes :
    (now : ℕ → Time) (ms : List Mark) (cs : List Condition)
    → HasUniqueTypes cs
    → HasUniqueTypes (fold_marks now ms cs)
fold_marks-HasUniqueTypes now [] cs h = h
fold_marks-HasUniqueTypes now ((t, o) ∷ ms) cs h =
    fold_marks-HasUniqueTypes (λ i. now (suc i)) ms (mark (now 0) o cs)
      (mark-HasUniqueTypes (now 0) o cs h)
