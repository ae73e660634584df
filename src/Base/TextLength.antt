-- ===== src/Base/TextLength.antt =====
-- The length of texts.
use Prim.Native.Nat.{ℕ, zero, suc, ◌+◌, ◌≤◌}
use Prim.Native.Char.{Char}
use Prim.Native.String
use Prim.Native.String.{String, [], ◌∷◌}
use mathlib.Core.Path.{◌≡◌}
use mathlib.Core.Bool.{Bool}
use text.Mathlib.TextLemmas.{nil-append, cons-append}
use native.Mathlib.Omega.{arith}
use praetor.Base.Tests.{Bool-cases}
use mathlib.Core.Logic.{inl, inr}
use praetor.Base.Text.{text_length, text_take, trim_left, trim_right, keep_unless, trim}

pub text_length-append :
    (s t : String) → text_length (String.◌++◌ s t) ≡ text_length s + text_length t
unfolding text_length
text_length-append [] t = rw nil-append (omega arith)
text_length-append (c ∷ s) t = rw cons-append (omega (arith, text_length-append s t))

pub text_length-take : (n : ℕ) (s : String) → text_length (text_take n s) ≤ n
unfolding text_length text_take
text_length-take zero s = omega arith
text_length-take (suc n) [] = omega arith
text_length-take (suc n) (c ∷ s) = omega (arith, text_length-take n s)

text_length-trim_left :
    (cut : Char → Bool) (s : String) → text_length (trim_left cut s) ≤ text_length s
unfolding text_length trim_left
text_length-trim_left cut [] = omega arith
text_length-trim_left cut (c ∷ s) = ground (arith, text_length-trim_left cut s)

text_length-keep_unless :
    (cut : Char → Bool) (c : Char) (s : String)
    → text_length (keep_unless cut c s) ≤ suc (text_length s)
unfolding text_length
text_length-keep_unless cut c [] = elim (Bool-cases (cut c)) [
  | inl e ↦ rw e (omega arith)
  | inr e ↦ rw e (omega arith)
]
text_length-keep_unless cut c (d ∷ s) = omega arith

text_length-trim_right :
    (cut : Char → Bool) (s : String) → text_length (trim_right cut s) ≤ text_length s
unfolding text_length trim_right
text_length-trim_right cut [] = omega arith
text_length-trim_right cut (c ∷ s) =
    omega (arith, text_length-trim_right cut s, text_length-keep_unless cut c (trim_right cut s))

pub text_length-trim : (cut : Char → Bool) (s : String) → text_length (trim cut s) ≤ text_length s
text_length-trim cut s =
    omega (arith, text_length-trim_left cut s, text_length-trim_right cut (trim_left cut s))
