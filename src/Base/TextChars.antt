-- ===== src/Base/TextChars.antt =====
-- Texts all of whose characters pass a test.
use Prim.Native.Nat.{ℕ, zero, suc}
use Prim.Native.Char.{Char}
use Prim.Native.String
use Prim.Native.String.{String, [], ◌∷◌}
use mathlib.Core.Path.{◌≡◌, refl}
use mathlib.Core.Bool.{Bool, true, ◌&&◌}
use mathlib.Core.Logic.{inl, inr}
use mathlib.Core.List.{List}
use text.Mathlib.TextLemmas.{nil-append, cons-append}
use native.Mathlib.Omega.{arith}
use praetor.Base.Tests.{Bool-cases}
use praetor.Base.Lists.{All}
use praetor.Base.Text.{text_take, trim_left, trim_right, keep_unless, trim, join}

unfoldable pub all_chars : (Char → Bool) → String → Bool
all_chars test [] = true
all_chars test (c ∷ s) = test c && all_chars test s

module _ (test : Char → Bool) where
  pub all_chars-append :
      (s t : String)
      → all_chars test s ≡ true
      → all_chars test t ≡ true
      → all_chars test (String.◌++◌ s t) ≡ true
  unfolding all_chars
  all_chars-append [] t h k = rw nil-append k
  all_chars-append (c ∷ s) t h k = rw cons-append (ground (arith, all_chars-append s t))

  pub all_chars-join :
      (parts : List String)
      → All (λ s. all_chars test s ≡ true) parts
      → all_chars test (join parts) ≡ true
  unfolding all_chars join
  all_chars-join List.[] h = refl
  all_chars-join (List.◌∷◌ s parts) h =
      all_chars-append s (join parts) h.0 (all_chars-join parts h.1)

  pub all_chars-take :
      (n : ℕ) (s : String) → all_chars test s ≡ true → all_chars test (text_take n s) ≡ true
  unfolding all_chars text_take
  all_chars-take zero s h = refl
  all_chars-take (suc n) [] h = refl
  all_chars-take (suc n) (c ∷ s) h = ground (arith, all_chars-take n s)

  all_chars-trim_left :
      (cut : Char → Bool) (s : String)
      → all_chars test s ≡ true
      → all_chars test (trim_left cut s) ≡ true
  unfolding all_chars trim_left
  all_chars-trim_left cut [] h = refl
  all_chars-trim_left cut (c ∷ s) h = ground (arith, all_chars-trim_left cut s)

  all_chars-keep_unless :
      (cut : Char → Bool) (c : Char) (s : String)
      → test c ≡ true
      → all_chars test s ≡ true
      → all_chars test (keep_unless cut c s) ≡ true
  unfolding all_chars
  all_chars-keep_unless cut c [] h k = elim (Bool-cases (cut c)) [
    | inl e ↦ rw e refl
    | inr e ↦ rw e (rw h refl)
  ]
  all_chars-keep_unless cut c (d ∷ s) h k = rw h k

  all_chars-trim_right :
      (cut : Char → Bool) (s : String)
      → all_chars test s ≡ true
      → all_chars test (trim_right cut s) ≡ true
  unfolding all_chars trim_right
  all_chars-trim_right cut [] h = refl
  all_chars-trim_right cut (c ∷ s) h =
      let first : test c ≡ true = ground arith in
      let rest : all_chars test s ≡ true = ground arith in
      all_chars-keep_unless cut c (trim_right cut s) first (all_chars-trim_right cut s rest)

  pub all_chars-trim :
      (cut : Char → Bool) (s : String)
      → all_chars test s ≡ true
      → all_chars test (trim cut s) ≡ true
  all_chars-trim cut s h = all_chars-trim_right cut (trim_left cut s) (all_chars-trim_left cut s h)
