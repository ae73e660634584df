-- ===== src/Agent/Units.antt =====
-- agent/main.go: the text of a unit.
pub mod Lines
use Prim.Native.Char.{Char, code}
use praetor.Base.{Bool, List, [], ◌∷◌, ◌++◌, String, ◌==◌, ltb, if◌then◌else◌, trim_space, join}
use praetor.Base.Result.{Result, ok, err, other, ◌>>=◌, ◌>>◌}
use praetor.Gateway.Types.{DesiredItem}
use praetor.Agent.Escape.{contains_any, escape_systemd_arg}
use praetor.Agent.EnvFile.{render_env_file}

abbrev pub restart_policy_never : String
restart_policy_never = "Never"

abbrev pub restart_policy_on_failure : String
restart_policy_on_failure = "OnFailure"

-- Bytes below 0x20 are characters of their own in UTF-8.
abbrev pub is_control : Char → Bool
is_control c = ltb (code c) 0x20

unfoldable pub validate_unit_field : String → String → Result (Unit {0})
unfolding contains_any join
validate_unit_field label value =
    if contains_any is_control value
    then err (other (join ("invalid " ∷ label ∷ ": contains control character" ∷ [])))
    else ok tt

unfoldable pub render_systemd_restart_mode : String → String
render_systemd_restart_mode policy =
    if policy == restart_policy_never
    then "no"
    else if policy == restart_policy_on_failure
    then "on-failure"
    else "always"

unfoldable pub escape_all : List String → Result (List String)
unfolding escape_systemd_arg
escape_all [] = ok []
escape_all (part ∷ parts) = do
  quoted ← escape_systemd_arg part
  rest ← escape_all parts
  ok (quoted ∷ rest)

-- strings.Join(parts, " ")
unfoldable pub join_blank : List String → String
unfolding join
join_blank [] = ""
join_blank (part ∷ []) = part
join_blank (part ∷ next ∷ parts) = join (part ∷ " " ∷ join_blank (next ∷ parts) ∷ [])

unfoldable pub render_exec_start : List String → List String → Result String
unfolding escape_all join_blank
render_exec_start cmd args = do escaped ← escape_all (cmd ++ args); ok (join_blank escaped)

-- A line that is left out where its trimmed value is empty.
unfoldable pub optional_line : String → String → String
unfolding trim_space join
optional_line key value =
    if trim_space value == "" then "" else join (key ∷ trim_space value ∷ "\n" ∷ [])

-- What the builder is given, in its order.
unfoldable pub unit_parts : DesiredItem → String → String → List String
unfolding optional_line render_systemd_restart_mode
unit_parts item exec_start env_path =
    "[Unit]\nDescription=Apollo DeviceProcess "
    ∷ item.namespace
    ∷ "/"
    ∷ item.name
    ∷ "\nAfter=network.target\n\n"
    ∷ "[Service]\nType=simple\nExecStart="
    ∷ exec_start
    ∷ "\n"
    ∷ optional_line "WorkingDirectory=" item.spec.execution.working_dir
    ∷ "EnvironmentFile=-"
    ∷ env_path
    ∷ "\n"
    ∷ "Restart="
    ∷ render_systemd_restart_mode item.spec.restart_policy
    ∷ "\n"
    ∷ optional_line "User=" item.spec.execution.user
    ∷ "\n[Install]\nWantedBy=multi-user.target\n"
    ∷ []

unfoldable pub unit_text : DesiredItem → String → String → String
unfolding join unit_parts
unit_text item exec_start env_path = join (unit_parts item exec_start env_path)

-- The rest behind the test of the command.
unfoldable pub render_with_command : DesiredItem → String → Result (String × String)
unfolding render_exec_start validate_unit_field unit_text render_env_file
render_with_command item env_path = do
  exec_start ← render_exec_start item.spec.execution.command item.spec.execution.args
  validate_unit_field "workingDir" item.spec.execution.working_dir
  validate_unit_field "user" item.spec.execution.user
  env_content ← render_env_file item.spec.execution.env
  ok (unit_text item exec_start env_path, env_content)

abbrev pub missing_command : {A : Type 0} → Result A
missing_command = err (other "missing command")

abbrev pub unless_empty : {A : Type 0} → List String → Result A → Result A
unless_empty [] r = missing_command
unless_empty (part ∷ parts) r = r

-- The content of the unit and of its environment file.
unfoldable pub render_unit_files : DesiredItem → String → Result (String × String)
unfolding render_with_command
render_unit_files item env_path =
    unless_empty item.spec.execution.command (render_with_command item env_path)
