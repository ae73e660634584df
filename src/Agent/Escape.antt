-- ===== src/Agent/Escape.antt =====
-- agent/main.go and agent/envfile.go: the quoting of values and arguments.
pub mod Quoted
use Prim.Native.Char.{Char, code}
use Prim.Native.String
use Prim.Native.String.{String, [], ◌∷◌}
use mathlib.Core.Bool.{Bool, true, false, ◌||◌}
use mathlib.Core.List.{List}
use Prim.Native.Nat.{ℕ, ◌<◌}
use text.Mathlib.Text.{◌==◌}
use praetor.Base.Tests.{eqb, ltb, if◌then◌else◌}
use praetor.Base.Result.{Result, ok, err, other, ◌>>=◌}
use praetor.Base.Text.{trim_space}

-- strings.ReplaceAll for a text of one character that gets a backslash in front.
unfoldable pub put_backslash : ℕ → String → String
put_backslash target [] = []
put_backslash target (c ∷ s) =
    let rest = put_backslash target s in if eqb (code c) target then "\\" ∷ c ∷ rest else c ∷ rest

-- The two replacements, of backslashes and then of quotes.
unfoldable pub escape : String → String
unfolding put_backslash
escape s = put_backslash b'"' (put_backslash b'\\' s)

-- strings.ContainsAny
unfoldable pub contains_any : (Char → Bool) → String → Bool
contains_any test [] = false
contains_any test (c ∷ s) = test c || contains_any test s

abbrev pub is_newline : Char → Bool
is_newline c = eqb (code c) 10 || eqb (code c) 13

abbrev pub needs_quotes : Char → Bool
needs_quotes c = eqb (code c) b' ' || eqb (code c) b'"' || eqb (code c) b'\\' || eqb (code c) 9

unfoldable pub escape_systemd_arg : String → Result String
unfolding escape contains_any
escape_systemd_arg arg =
    if arg == ""
    then ok "\"\""
    else if contains_any is_newline arg
    then err (other "invalid ExecStart arg: contains newline")
    else if contains_any needs_quotes arg
    then ok (String.◌++◌ "\"" (String.◌++◌ (escape arg) "\""))
    else ok arg
