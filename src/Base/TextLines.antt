-- ===== src/Base/TextLines.antt =====
-- The newlines of texts.
use Prim.Native.Nat.{ℕ, ◌+◌, ◌≤◌}
use Prim.Native.Char.{Char, code}
use Prim.Native.String
use Prim.Native.String.{String, [], ◌∷◌}
use mathlib.Core.Path.{◌≡◌}
use mathlib.Core.Bool.{Bool}
use mathlib.Core.Logic.{inl, inr}
use mathlib.Core.List.{List}
use text.Mathlib.TextLemmas.{nil-append, cons-append}
use native.Mathlib.Omega.{arith}
use praetor.Base.Tests.{eqb, Bool-cases, if◌then◌else◌}
use praetor.Base.Text.{trim_left, trim_right, keep_unless, trim_space, join}

unfoldable pub lines : String → ℕ
lines [] = 0
lines (c ∷ s) = (if eqb (code c) 10 then 1 else 0) + lines s

pub lines-append : (s t : String) → lines (String.◌++◌ s t) ≡ lines s + lines t
unfolding lines
lines-append [] t = rw nil-append (omega arith)
lines-append (c ∷ s) t = rw cons-append (omega (arith, lines-append s t))

-- The newlines of parts, added up.
abbrev pub total_lines : List String → ℕ
total_lines List.[] = 0
total_lines (List.◌∷◌ s parts) = lines s + total_lines parts

pub lines-join : (parts : List String) → lines (join parts) ≡ total_lines parts
unfolding join lines
lines-join List.[] = omega arith
lines-join (List.◌∷◌ s parts) = omega (arith, lines-append s (join parts), lines-join parts)

lines-trim_left : (cut : Char → Bool) (s : String) → lines (trim_left cut s) ≤ lines s
unfolding lines trim_left
lines-trim_left cut [] = omega arith
lines-trim_left cut (c ∷ s) = ground (arith, lines-trim_left cut s)

lines-keep_unless :
    (cut : Char → Bool) (c : Char) (s : String)
    → lines (keep_unless cut c s) ≤ (if eqb (code c) 10 then 1 else 0) + lines s
unfolding lines
lines-keep_unless cut c [] = elim (Bool-cases (cut c)) [
  | inl e ↦ rw e (omega arith)
  | inr e ↦ rw e (omega arith)
]
lines-keep_unless cut c (d ∷ s) = omega arith

lines-trim_right : (cut : Char → Bool) (s : String) → lines (trim_right cut s) ≤ lines s
unfolding lines trim_right
lines-trim_right cut [] = omega arith
lines-trim_right cut (c ∷ s) =
    omega (arith, lines-trim_right cut s, lines-keep_unless cut c (trim_right cut s))

pub lines-trim_space : (s : String) → lines (trim_space s) ≤ lines s
unfolding trim_space
lines-trim_space s = omega (arith, lines-trim_left _ s, lines-trim_right _ (trim_left _ s))
