-- ===== src/Base/TextOrder.antt =====
-- The byte order of texts is a strict total order.
use Prim.Native.String.{String, [], ◌∷◌}
use mathlib.Core.Path.{◌≡◌, refl, ap₂}
use mathlib.Core.Bool.{true, false}
use native.Mathlib.Omega.{arith}
use text.Mathlib.TextEquality.{Char-path}
use praetor.Base.Text.{text_ltb}

pub text_ltb_irrefl : (s : String) → text_ltb s s ≡ false
unfolding text_ltb
text_ltb_irrefl [] = refl
text_ltb_irrefl (c ∷ s) = ground (arith, text_ltb_irrefl s)

pub text_ltb_asymm : (s t : String) → text_ltb s t ≡ true → text_ltb t s ≡ false
unfolding text_ltb
text_ltb_asymm [] [] h = refl
text_ltb_asymm [] (d ∷ t) h = refl
text_ltb_asymm (c ∷ s) [] h = cc
text_ltb_asymm (c ∷ s) (d ∷ t) h = ground (arith, text_ltb_asymm s t)

-- What lies between two ordered texts is above the lower or below the upper.
pub text_ltb_cotrans :
    (s t u : String) → text_ltb s t ≡ true → text_ltb s u ≡ false → text_ltb u t ≡ true
unfolding text_ltb
text_ltb_cotrans [] [] u h k = cc
text_ltb_cotrans [] (d ∷ t) [] h k = refl
text_ltb_cotrans [] (d ∷ t) (e ∷ u) h k = cc
text_ltb_cotrans (c ∷ s) [] u h k = cc
text_ltb_cotrans (c ∷ s) (d ∷ t) [] h k = refl
text_ltb_cotrans (c ∷ s) (d ∷ t) (e ∷ u) h k = ground (arith, text_ltb_cotrans s t u)

pub text_ltb_connex : (s t : String) → text_ltb s t ≡ false → text_ltb t s ≡ false → s ≡ t
unfolding text_ltb
text_ltb_connex [] [] h k = refl
text_ltb_connex [] (d ∷ t) h k = cc
text_ltb_connex (c ∷ s) [] h k = cc
text_ltb_connex (c ∷ s) (d ∷ t) h k =
    ap₂ ◌∷◌ (Char-path c d (ground arith)) (text_ltb_connex s t (ground arith) (ground arith))
