-- ===== src/Agent/EnvFile.antt =====
-- agent/envfile.go. The quoted names in the texts of the errors are left out.
pub mod Lines
use Prim.Native.Char.{Char, code}
use Prim.Native.String
use Prim.Native.String.{String, [], ◌∷◌}
use mathlib.Core.Bool.{Bool, true, false, not, ◌&&◌, ◌||◌}
use mathlib.Core.List
use mathlib.Core.List.{List}
use praetor.Base.Tests.{eqb, leb, if◌then◌else◌}
use praetor.Base.Result.{Result, ok, err, ApiError, other, ◌>>=◌}
use praetor.Base.Text.{trim_space, text_ltb}
use praetor.Api.{DeviceProcessEnvVar}
use praetor.Agent.Escape.{escape, contains_any, is_newline}

abbrev is_letter : Char → Bool
is_letter c =
    (leb b'A' (code c) && leb (code c) b'Z')
    || (leb b'a' (code c) && leb (code c) b'z')
    || eqb (code c) b'_'

abbrev is_digit : Char → Bool
is_digit c = leb b'0' (code c) && leb (code c) b'9'

unfoldable pub all_word : String → Bool
all_word [] = true
all_word (c ∷ s) = (is_letter c || is_digit c) && all_word s

-- envKeyPattern.MatchString
unfoldable pub is_env_key : String → Bool
unfolding all_word
is_env_key [] = false
is_env_key (c ∷ s) = is_letter c && all_word s

-- `sort.Slice` by name leaves open how it orders variables of one name; here the later stays behind.
unfoldable pub insert_var :
    DeviceProcessEnvVar → List DeviceProcessEnvVar → List DeviceProcessEnvVar
insert_var a List.[] = List.◌∷◌ a List.[]
insert_var a (List.◌∷◌ b vars) =
    let rest = insert_var a vars in
    if text_ltb b.name a.name then List.◌∷◌ b rest else List.◌∷◌ a (List.◌∷◌ b vars)

unfoldable pub sort_vars : List DeviceProcessEnvVar → List DeviceProcessEnvVar
unfolding insert_var
sort_vars List.[] = List.[]
sort_vars (List.◌∷◌ a vars) = insert_var a (sort_vars vars)

-- "%s=\"%s\"\n"
unfoldable pub env_line : String → String → String
unfolding escape
env_line key value = String.◌++◌ key (String.◌++◌ "=\"" (String.◌++◌ (escape value) "\"\n"))

-- The line of one variable, or the error that stops the loop.
unfoldable pub render_var : DeviceProcessEnvVar → Result String
unfolding is_env_key trim_space contains_any env_line
render_var v =
    let key = trim_space v.name in
    if not (is_env_key key)
    then err (other "invalid env var name")
    else if contains_any is_newline v.value
    then err (other "invalid env var: value contains newline")
    else ok (env_line key v.value)

unfoldable pub render_vars : List DeviceProcessEnvVar → Result String
unfolding render_var
render_vars List.[] = ok ""
render_vars (List.◌∷◌ v vars) = do
  line ← render_var v
  rest ← render_vars vars
  ok (String.◌++◌ line rest)

unfoldable pub render_env_file : List DeviceProcessEnvVar → Result String
unfolding sort_vars render_vars
render_env_file vars = render_vars (sort_vars vars)
