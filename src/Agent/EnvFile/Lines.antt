-- ===== src/Agent/EnvFile/Lines.antt =====
-- The lines of an environment file.
use Prim.Native.Char.{code}
use Prim.Native.Nat.{ℕ, suc}
use Prim.Native.String
use Prim.Native.String.{String, [], ◌∷◌}
use mathlib.Core.Path.{◌≡◌, refl, ap, sym, ◌∙◌}
use mathlib.Core.Bool.{Bool, true, false, not}
use mathlib.Core.Logic.{inl, inr}
use mathlib.Core.List.{List}
use native.Mathlib.Omega.{arith}
use praetor.Base.Tests.{eqb, if◌then◌else◌, Bool-cases}
use praetor.Base.Lists.{length}
use praetor.Base.Result.{Result, ok, err, ApiError, ◌>>=◌}
use praetor.Base.TextLines.{lines, lines-append}
use praetor.Base.Text.{trim_space, text_ltb}
use praetor.Api.{DeviceProcessEnvVar}
use praetor.Agent.Escape.{put_backslash, escape, contains_any, is_newline}
use praetor.Agent.EnvFile.{
  all_word, is_env_key, insert_var, sort_vars, env_line, render_var, render_vars, render_env_file,
}

lines-put_backslash : (n : ℕ) (s : String) → lines (put_backslash n s) ≡ lines s
unfolding lines put_backslash
lines-put_backslash n [] = refl
lines-put_backslash n (c ∷ s) = elim (Bool-cases (eqb (code c) n)) [
  | inl e ↦ rw e (omega (arith, lines-put_backslash n s))
  | inr e ↦ rw e (omega (arith, lines-put_backslash n s))
]

pub lines-escape : (s : String) → lines (escape s) ≡ lines s
unfolding escape
lines-escape s = lines-put_backslash b'"' (put_backslash b'\\' s) ∙ lines-put_backslash b'\\' s

pub contains_any_lem : (s : String) → contains_any is_newline s ≡ false → lines s ≡ 0
unfolding lines contains_any
contains_any_lem [] h = refl
contains_any_lem (c ∷ s) h = ground (arith, contains_any_lem s)

all_word_lem : (s : String) → all_word s ≡ true → lines s ≡ 0
unfolding lines all_word
all_word_lem [] h = refl
all_word_lem (c ∷ s) h = ground (arith, all_word_lem s)

is_env_key_lem : (s : String) → is_env_key s ≡ true → lines s ≡ 0
unfolding lines is_env_key
is_env_key_lem [] h = refl
is_env_key_lem (c ∷ s) h = ground (arith, all_word_lem s)

lines-env_line :
    (key value : String) → lines key ≡ 0 → lines value ≡ 0 → lines (env_line key value) ≡ 1
unfolding env_line lines
lines-env_line key value hk hv =
    let quoted = String.◌++◌ (escape value) "\"\n" in
    let a = lines-append key (String.◌++◌ "=\"" quoted) in
    let b = lines-append "=\"" quoted in
    let c = lines-append (escape value) "\"\n" in
    let d = lines-escape value in
    let equals : lines "=\"" ≡ 0 = refl in
    let ending : lines "\"\n" ≡ 1 = refl in omega (arith, a, b, c, d, equals, ending, hk, hv)

-- What two guards in front of a result say where there is a result.
guards :
    (good bad : Bool) (e f : ApiError) (x y : String)
    → (if not good then err e else if bad then err f else ok x) ≡ ok y
    → (good ≡ true) × ((bad ≡ false) × (x ≡ y))
guards true false e f x y h = (refl, (refl, cc))
guards true true e f x y h = cc
guards false bad e f x y h = cc

-- The rendering of one variable, where there is no error, is one line.
render_var-lines :
    (v : DeviceProcessEnvVar) (line : String) → render_var v ≡ ok line → lines line ≡ 1
unfolding render_var
render_var-lines v line e =
    let key = trim_space v.name in
    let (valid, (single, same)) =
      guards (is_env_key key) (contains_any is_newline v.value) _ _ (env_line key v.value) line e in
    ap lines (sym same)
    ∙ lines-env_line key v.value (is_env_key_lem key valid) (contains_any_lem v.value single)

-- The parts of a result that is put together from two.
parts :
    (first second : Result String) (content : String)
    → (first >>= λ line. second >>= λ rest. ok (String.◌++◌ line rest)) ≡ ok content
    → (line : String) × ((rest : String) × ((first ≡ ok line)
          × ((second ≡ ok rest) × (String.◌++◌ line rest ≡ content))))
parts (ok line) (ok rest) content h = (line, (rest, (refl, (refl, cc))))
parts (ok line) (err e) content h = cc
parts (err e) second content h = cc

render_vars-lines :
    (vars : List DeviceProcessEnvVar) (content : String)
    → render_vars vars ≡ ok content
    → lines content ≡ length vars
unfolding render_vars lines
render_vars-lines List.[] content e = let same : "" ≡ content = cc in ap lines (sym same)
render_vars-lines (List.◌∷◌ v vars) content e =
    let (line, (rest, (first, (second, same)))) =
      parts (render_var v) (render_vars vars) content e in
    let one = render_var-lines v line first in
    let more = render_vars-lines vars rest second in
    ap lines (sym same) ∙ omega (arith, lines-append line rest, one, more)

length-insert_var :
    (v : DeviceProcessEnvVar) (vars : List DeviceProcessEnvVar)
    → length (insert_var v vars) ≡ suc (length vars)
unfolding insert_var
length-insert_var v List.[] = refl
length-insert_var v (List.◌∷◌ w vars) = elim (Bool-cases (text_ltb w.name v.name)) [
  | inl e ↦ rw e (ap suc (length-insert_var v vars))
  | inr e ↦ rw e refl
]

length-sort_vars : (vars : List DeviceProcessEnvVar) → length (sort_vars vars) ≡ length vars
unfolding sort_vars
length-sort_vars List.[] = refl
length-sort_vars (List.◌∷◌ v vars) =
    length-insert_var v (sort_vars vars) ∙ ap suc (length-sort_vars vars)

-- An environment file that is rendered has exactly one line for each variable: no name and no value
-- brings in a line of its own.
pub render_env_file-lines :
    (vars : List DeviceProcessEnvVar) (content : String)
    → render_env_file vars ≡ ok content
    → lines content ≡ length vars
unfolding render_env_file
render_env_file-lines vars content e =
    render_vars-lines (sort_vars vars) content e ∙ length-sort_vars vars
