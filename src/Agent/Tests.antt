-- ===== src/Agent/Tests.antt =====
-- Runs of the quoting and of the environment file.
pub mod World
pub mod Files
pub mod Isolation
pub mod Rounds
use mathlib.Core.List.{List, [], ◌∷◌}
use Prim.Native.String
use Prim.Native.String.{String}
use mathlib.Core.Path.{◌≡◌, refl}
use mathlib.Core.Bool.{false}
use mathlib.Core.Option.{some}
use praetor.Base.Lists.{length}
use praetor.Base.Result.{ok}
use praetor.Base.Text.{text_ltb}
use praetor.Api.{DeviceProcessEnvVar}
use praetor.Agent.Escape.{escape, escape_systemd_arg, contains_any}
use praetor.Agent.Escape.Quoted.{read_quoted, read_quoted-escape}
use praetor.Agent.Keys.{item_key, split_key}
use praetor.Agent.Keys.Laws.{split_key-item_key}
use praetor.Agent.EnvFile.{render_env_file}
use praetor.Base.TextLines.{lines}
use praetor.Agent.EnvFile.Lines.{render_env_file-lines}

abbrev two_vars : List DeviceProcessEnvVar
two_vars =
    record { name = "MODE"; value = "a \"b\" c" } ∷ record { name = "LEVEL"; value = "1" } ∷ []

abbrev two_lines : String
two_lines = "LEVEL=\"1\"\nMODE=\"a \\\"b\\\" c\"\n"

rendered : render_env_file two_vars ≡ ok two_lines
unfolding render_env_file text_ltb
rendered = refl

render_env_file-lines_example : lines two_lines ≡ length two_vars
render_env_file-lines_example = render_env_file-lines two_vars two_lines rendered

read_quoted-escape_example :
    read_quoted false (String.◌++◌ (escape "a\\\"b") (String.◌∷◌ "\"" " next"))
    ≡ some ("a\\\"b", " next")
read_quoted-escape_example = read_quoted-escape "a\\\"b" " next"

argument_with_blank : escape_systemd_arg "a b" ≡ ok "\"a b\""
unfolding escape_systemd_arg
argument_with_blank = refl

split_key-item_key_example :
    split_key (item_key "infra" "agent/rack1") ≡ ok ("infra", "agent/rack1")
unfolding contains_any
split_key-item_key_example = split_key-item_key "infra" "agent/rack1" refl refl refl
