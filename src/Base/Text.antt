-- ===== src/Base/Text.antt =====
-- Go's `strings` package over the native texts, which are lists of code points, where the program
-- uses it. A text of the program is valid UTF-8.
use Prim.Native.Nat.{ℕ, zero, suc}
use Prim.Native.Char.{Char, code}
use Prim.Native.String
use Prim.Native.String.{String, [], ◌∷◌}
use mathlib.Core.Bool.{Bool, true, false, not, ◌&&◌, ◌||◌}
use mathlib.Core.Option.{Option, none, some, get_or}
use mathlib.Core.List.{List, [], ◌∷◌}
use praetor.Base.Tests.{eqb, leb, is_nil, if◌then◌else◌}

-- unicode.IsSpace
abbrev pub is_space : Char → Bool
is_space c =
    let n = code c in
    (leb 9 n && leb n 13)
    || eqb n 32
    || eqb n 0x85
    || eqb n 0xA0
    || eqb n 0x1680
    || (leb 0x2000 n && leb n 0x200A)
    || eqb n 0x2028
    || eqb n 0x2029
    || eqb n 0x202F
    || eqb n 0x205F
    || eqb n 0x3000

-- Drops the leading characters that pass a test.
unfoldable pub trim_left : (Char → Bool) → String → String
trim_left cut [] = []
trim_left cut (c ∷ s) = let rest = trim_left cut s in if cut c then rest else c ∷ s

-- Puts a character in front of what is left of the text behind it.
abbrev pub keep_unless : (Char → Bool) → Char → String → String
keep_unless cut c [] = if cut c then [] else c ∷ []
keep_unless cut c (d ∷ s) = c ∷ d ∷ s

-- Drops the trailing characters that pass a test.
unfoldable pub trim_right : (Char → Bool) → String → String
trim_right cut [] = []
trim_right cut (c ∷ s) = keep_unless cut c (trim_right cut s)

-- strings.TrimFunc
abbrev pub trim : (Char → Bool) → String → String
trim cut s = trim_right cut (trim_left cut s)

-- strings.TrimSpace
unfoldable pub trim_space : String → String
unfolding trim_left trim_right
trim_space s = trim is_space s

-- strings.Split(s, sep) at a separator of one character; the first argument is the part so far.
unfoldable pub split_from : ℕ → String → String → List String
split_from sep cur [] = cur ∷ []
split_from sep cur (c ∷ s) =
    let closed = split_from sep [] s in
    let longer = split_from sep (String.◌++◌ cur (c ∷ [])) s in
    if eqb (code c) sep then cur ∷ closed else longer

unfoldable pub split : ℕ → String → List String
unfolding split_from
split sep s = split_from sep [] s

-- s[:strings.Index(s, sep)], and the whole text where the separator does not occur.
unfoldable pub before : ℕ → String → String
before sep [] = []
before sep (c ∷ s) = let rest = before sep s in if eqb (code c) sep then [] else c ∷ rest

-- What follows a prefix, where the text has it.
unfoldable pub after_prefix : String → String → Option String
after_prefix [] s = some s
after_prefix (p ∷ ps) [] = none
after_prefix (p ∷ ps) (c ∷ s) =
    let rest = after_prefix ps s in if eqb (code p) (code c) then rest else none

-- strings.TrimPrefix
unfoldable pub trim_prefix : String → String → String
unfolding after_prefix
trim_prefix p s = get_or (after_prefix p s) s

-- strings.HasPrefix
unfoldable pub has_prefix : String → String → Bool
unfolding after_prefix
has_prefix s p = not (is_nil (after_prefix p s))

-- The byte order of two texts, which on UTF-8 is the order of the code points.
unfoldable pub text_ltb : String → String → Bool
text_ltb [] [] = false
text_ltb [] (d ∷ t) = true
text_ltb (c ∷ s) [] = false
text_ltb (c ∷ s) (d ∷ t) =
    let rest = text_ltb s t in if eqb (code c) (code d) then rest else leb (code c) (code d)

-- The parts of a text put together, as by `fmt.Sprintf` or a `strings.Builder`.
unfoldable pub join : List String → String
join [] = []
join (s ∷ parts) = String.◌++◌ s (join parts)

-- len(s), on ASCII.
unfoldable pub text_length : String → ℕ
text_length [] = 0
text_length (c ∷ s) = suc (text_length s)

-- s[:n], on ASCII and where n is at most the length.
unfoldable pub text_take : ℕ → String → String
text_take zero s = []
text_take (suc n) [] = []
text_take (suc n) (c ∷ s) = c ∷ text_take n s

-- strings.Contains
unfoldable pub contains : String → String → Bool
unfolding has_prefix
contains [] sub = has_prefix [] sub
contains (c ∷ s) sub = has_prefix (c ∷ s) sub || contains s sub
