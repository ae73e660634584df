-- ===== src/Agent/Units/Lines.antt =====
-- The lines of a unit.
use Prim.Native.String
use Prim.Native.String.{String, [], ◌∷◌}
use mathlib.Core.List.{List}
use praetor.Base.{
  ◌≡◌, ◌⊎◌, ℕ, ◌+◌, ◌++◌, refl, ◌∙◌, arith, ◌==◌, true, false, inl, inr, Bool-cases, Bool,
  trim_space, if◌then◌else◌,
}
use praetor.Base.Result.{Result, ApiError, ok, err, other, ◌>>=◌}
use praetor.Base.TextLines.{lines, lines-append, lines-join, lines-trim_space}
use praetor.Gateway.Types.{DesiredItem}
use praetor.Agent.Escape.{escape, contains_any, is_newline, needs_quotes, escape_systemd_arg}
use praetor.Agent.EnvFile.{render_env_file}
use praetor.Agent.EnvFile.Lines.{lines-escape, contains_any_lem}
use praetor.Agent.Units.{
  validate_unit_field, is_control, render_systemd_restart_mode, escape_all, join_blank,
  render_exec_start, optional_line, unit_parts, unit_text, render_with_command, unless_empty,
  render_unit_files,
}

-- What a bind that succeeds says of its two parts.
>>=-eq-ok :
    {X Y : Type 0} (first : Result X) (then_do : X → Result Y) {y : Y}
    → (first >>= then_do) ≡ ok y
    → (x : X) × (first ≡ ok x) × (then_do x ≡ ok y)
>>=-eq-ok (err failure) then_do e = cc
>>=-eq-ok (ok x) then_do e = (x, refl, e)

control_lem : (s : String) → contains_any is_control s ≡ false → lines s ≡ 0
unfolding lines contains_any
control_lem [] h = refl
control_lem (c ∷ s) h = ground (arith, control_lem s)

validate_lem : (label value : String) → validate_unit_field label value ≡ ok tt → lines value ≡ 0
unfolding validate_unit_field
validate_lem label value h = elim (Bool-cases (contains_any is_control value)) [
  | inl e ↦ let bad : err (other _) ≡ ok tt = rw e at h in cc
  | inr e ↦ control_lem value e
]

lines-quoted : (arg : String) → lines (String.◌++◌ "\"" (String.◌++◌ (escape arg) "\"")) ≡ lines arg
unfolding lines
lines-quoted arg =
    let a = lines-append "\"" (String.◌++◌ (escape arg) "\"") in
    let b = lines-append (escape arg) "\"" in
    let c = lines-escape arg in let d : lines "\"" ≡ 0 = refl in omega (arith, a, b, c, d)

-- The four outcomes of the quoting.
quoted_cases :
    (is_empty broken quotes : Bool) (e : ApiError) (blank x y r : String)
    → (if is_empty then ok blank else if broken then err e else if quotes then ok x else ok y)
      ≡ ok r
    → (r ≡ blank) ⊎ ((broken ≡ false) × ((r ≡ x) ⊎ (r ≡ y)))
quoted_cases true broken quotes e blank x y r h = inl cc
quoted_cases false true quotes e blank x y r h = cc
quoted_cases false false true e blank x y r h = inr (refl, inl cc)
quoted_cases false false false e blank x y r h = inr (refl, inr cc)

-- An argument that is accepted brings in no newline.
escape_systemd_arg-lines :
    (arg quoted : String) → escape_systemd_arg arg ≡ ok quoted → lines quoted ≡ 0
unfolding escape_systemd_arg lines
escape_systemd_arg-lines arg quoted h =
    let wrapped = String.◌++◌ "\"" (String.◌++◌ (escape arg) "\"") in
    let cases =
      quoted_cases (arg == "") (contains_any is_newline arg) (contains_any needs_quotes arg) _
        "\"\"" wrapped arg quoted h in
    elim cases [
      | inl same ↦ rw same refl
      | inr (plain, inl same) ↦ rw same (lines-quoted arg ∙ contains_any_lem arg plain)
      | inr (plain, inr same) ↦ rw same (contains_any_lem arg plain)
    ]

join_lem :
    (first : String) (rest : List String)
    → lines first ≡ 0
    → lines (join_blank rest) ≡ 0
    → lines (join_blank (List.◌∷◌ first rest)) ≡ 0
unfolding join_blank lines
join_lem first List.[] one more = one
join_lem first (List.◌∷◌ second rest) one more =
    let parts =
      List.◌∷◌ first (List.◌∷◌ " " (List.◌∷◌ (join_blank (List.◌∷◌ second rest)) List.[])) in
    lines-join parts ∙ omega (arith, one, more)

-- The blanks between texts without newlines bring in none.
escape_all-lines :
    (parts quoted : List String) → escape_all parts ≡ ok quoted → lines (join_blank quoted) ≡ 0
unfolding escape_all join_blank lines
escape_all-lines List.[] quoted h = let same : List.[] ≡ quoted = cc in rw (← same) refl
escape_all-lines (List.◌∷◌ part parts) quoted h =
    let (first, one, tail) = >>=-eq-ok (escape_systemd_arg part) _ h in
    let (rest, more, same) = >>=-eq-ok (escape_all parts) _ tail in
    let e : List.◌∷◌ first rest ≡ quoted = cc in
    rw (← e) (
      join_lem first rest (escape_systemd_arg-lines part first one)
        (escape_all-lines parts rest more))

render_exec_start-lines :
    (cmd args : List String) (text : String) → render_exec_start cmd args ≡ ok text → lines text ≡ 0
unfolding render_exec_start
render_exec_start-lines cmd args text h =
    let (quoted, all, same) = >>=-eq-ok (escape_all (cmd ++ args)) _ h in
    let e : join_blank quoted ≡ text = cc in rw (← e) (escape_all-lines (cmd ++ args) quoted all)

-- 1 for a field that is given.
abbrev pub given : String → ℕ
given value = if trim_space value == "" then 0 else 1

optional_line-lines :
    (key value : String)
    → lines key ≡ 0
    → lines value ≡ 0
    → lines (optional_line key value) ≡ given value
unfolding optional_line lines
optional_line-lines key value k v = elim (Bool-cases (trim_space value == "")) [
  | inl e ↦ rw e refl
  | inr e ↦ rw e (
      lines-join (List.◌∷◌ key (List.◌∷◌ (trim_space value) (List.◌∷◌ "\n" List.[])))
      ∙ omega (arith, k, v, lines-trim_space value))
]

restart_mode-lines : (policy : String) → lines (render_systemd_restart_mode policy) ≡ 0
unfolding render_systemd_restart_mode lines
restart_mode-lines policy = elim (Bool-cases (policy == "Never")) [
  | inl e ↦ rw e refl
  | inr e ↦
      rw e (elim (Bool-cases (policy == "OnFailure")) [ inl f ↦ rw f refl | inr f ↦ rw f refl ])
]

unit_text-lines :
    (item : DesiredItem) (exec_start env_path : String)
    → lines exec_start ≡ 0
    → lines item.spec.execution.working_dir ≡ 0
    → lines item.spec.execution.user ≡ 0
    → lines (unit_text item exec_start env_path)
      ≡ 12
        + given item.spec.execution.working_dir
        + given item.spec.execution.user
        + lines item.namespace
        + lines item.name
        + lines env_path
unfolding unit_text unit_parts lines
unit_text-lines item exec_start env_path command dir user =
    let wd = optional_line-lines "WorkingDirectory=" item.spec.execution.working_dir refl dir in
    let who = optional_line-lines "User=" item.spec.execution.user refl user in
    let mode = restart_mode-lines item.spec.restart_policy in
    lines-join (unit_parts item exec_start env_path) ∙ omega (arith, wd, who, mode, command)

unless_empty-eq-ok :
    {A : Type 0} (parts : List String) (r : Result A) (a : A)
    → unless_empty parts r ≡ ok a
    → r ≡ ok a
unless_empty-eq-ok List.[] r a h = cc
unless_empty-eq-ok (List.◌∷◌ part parts) r a h = h

render_with_command-lines :
    (item : DesiredItem) (env_path unit env_content : String)
    → render_with_command item env_path ≡ ok (unit, env_content)
    → lines unit
      ≡ 12
        + given item.spec.execution.working_dir
        + given item.spec.execution.user
        + lines item.namespace
        + lines item.name
        + lines env_path
unfolding render_with_command
render_with_command-lines item env_path unit env_content h =
    let run = item.spec.execution in
    let (exec_start, e1, h1) = >>=-eq-ok (render_exec_start run.command run.args) _ h in
    let (u2, e2, h2) = >>=-eq-ok (validate_unit_field "workingDir" run.working_dir) _ h1 in
    let (u3, e3, h3) = >>=-eq-ok (validate_unit_field "user" run.user) _ h2 in
    let (content, e4, h4) = >>=-eq-ok (render_env_file run.env) _ h3 in
    let same : unit_text item exec_start env_path ≡ unit = cc in
    rw (← same) (
      unit_text-lines item exec_start env_path
        (render_exec_start-lines run.command run.args exec_start e1)
        (validate_lem "workingDir" run.working_dir e2) (validate_lem "user" run.user e3))

-- A unit that is rendered has its twelve lines and one for each of the working directory and the user
-- that is given. No argument, directory or user brings in a line of its own; only the namespace, the
-- name and the path of the environment file, which are written as they are, may.
pub render_unit_files-lines :
    (item : DesiredItem) (env_path unit env_content : String)
    → render_unit_files item env_path ≡ ok (unit, env_content)
    → lines unit
      ≡ 12
        + given item.spec.execution.working_dir
        + given item.spec.execution.user
        + lines item.namespace
        + lines item.name
        + lines env_path
unfolding render_unit_files
render_unit_files-lines item env_path unit env_content h =
    render_with_command-lines item env_path unit env_content
      (unless_empty-eq-ok item.spec.execution.command _ (unit, env_content) h)
