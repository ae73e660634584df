-- ===== src/Agent/Keys.antt =====
-- agent/main.go: the keys of the managed items. The key in the text of the error is left out.
pub mod Laws
use Prim.Native.Char.{Char, code}
use Prim.Native.String
use Prim.Native.String.{String, [], ◌∷◌}
use mathlib.Core.Bool.{Bool, ◌||◌}
use mathlib.Core.Option.{Option, none, some}
use text.Mathlib.Text.{◌==◌}
use praetor.Base.Tests.{eqb, if◌then◌else◌}
use praetor.Base.Result.{Result, ok, err, other}

abbrev pub is_slash : Char → Bool
is_slash c = eqb (code c) b'/'

unfoldable pub item_key : String → String → String
item_key ns name = String.◌++◌ ns (String.◌++◌ "/" name)

abbrev pub push : Char → Option (String × String) → Option (String × String)
push c none = none
push c (some (before, after)) = some (c ∷ before, after)

-- strings.SplitN(key, "/", 2) where it has two parts.
unfoldable pub cut : String → Option (String × String)
cut [] = none
cut (c ∷ s) = let rest = cut s in if is_slash c then some ([], s) else push c rest

unfoldable pub check_parts : Option (String × String) → Result (String × String)
check_parts none = err (other "invalid managed key")
check_parts (some (ns, name)) =
    if ns == "" || name == "" then err (other "invalid managed key") else ok (ns, name)

unfoldable pub split_key : String → Result (String × String)
unfolding cut check_parts
split_key key = check_parts (cut key)
