-- ===== src/Agent/Systemd/Files.antt =====
-- agent/systemd/manager.go: the files of a unit.
use praetor.Base.{ℕ, Bool, true, false, Option, none, some, String, ◌==◌, ◌||◌, eqb, if◌then◌else◌}
use praetor.Base.Result.{Result, ok, err, ApiError}
use praetor.Base.Act.{Act, pure, ◌>>=◌, ◌>>◌}
use praetor.Base.Act.State.{State, finally}
use praetor.Agent.Env.{Env}
use praetor.Agent.Systemd.{unit_dir}

abbrev pub temp_file_template : String
temp_file_template = ".tmp-apollo-*"

-- Whether the content that was read, where the file is there, is the wanted one.
abbrev pub has_content : String → Option String → Bool
has_content content none = false
has_content content (some existing) = existing == content

-- What was removed, the unit and the environment file, and the error.
pub record Removed : Type 0 where
  pub unit_removed : Bool
  pub env_removed : Bool
  pub error : Option ApiError

abbrev pub removed : Bool → Bool → Option ApiError → Removed
removed unit_removed env_removed error = record {
  unit_removed = unit_removed;
  env_removed = env_removed;
  error = error;
}

abbrev pub behind_env : Bool → Result Bool → Removed
behind_env unit_removed (ok env_removed) = removed unit_removed env_removed none
behind_env unit_removed (err e) = removed unit_removed false (some e)

abbrev pub behind_unit : {W : Type 0} → Result Bool → Act W Bool → State W Removed
behind_unit (ok unit_removed) remove_env w =
    (behind_env unit_removed (remove_env w).0, (remove_env w).1)
behind_unit (err e) remove_env w = (removed false false (some e), w)

module _ {W : Type 0} (env : Env W) where
  unfoldable pub set_mode : ℕ → String → Act W (Unit {0})
  set_mode perm tmp = if eqb perm 0 then pure tt else env.chmod tmp perm

  -- tmp.Close() where the error of it is not looked at.
  unfoldable pub close_behind : String → {A : Type 0} → Result A → Act W A
  close_behind tmp (ok a) w = (ok a, w)
  close_behind tmp (err e) w = (err e, (env.close tmp w).1)

  -- Chmod and Write; the file is closed where one fails.
  unfoldable pub fill : String → Act W (Unit {0}) → String → Act W (Unit {0})
  unfolding close_behind
  fill tmp set content w = let (r, w') = (set >> env.write tmp content) w in close_behind tmp r w'

  -- From the temporary file to its new name.
  unfoldable pub replace : String → String → Act W (Unit {0}) → String → Act W (Unit {0})
  unfolding fill
  replace path tmp set content = do fill tmp set content; env.close tmp; env.rename tmp path

  -- The directory, the temporary file of a pattern, whose mode is set by an action, and its renaming.
  -- The temporary file is removed in the end, renamed or not.
  unfoldable pub write_new :
      String → String → String → (String → Act W (Unit {0})) → Act W (Unit {0})
  unfolding replace
  write_new pattern path content set = do
    env.mkdir_all (env.dir path)
    tmp ← env.create_temp (env.dir path) pattern
    finally (replace path tmp (set tmp) content) (env.remove tmp)

  -- true for a file that was written, false for one that is as wanted.
  abbrev pub write_unless : Bool → Act W (Unit {0}) → Act W Bool
  write_unless same rewrite = if same then pure false else (rewrite >> pure true)

  unfoldable pub write_if_changed : String → String → ℕ → Act W Bool
  unfolding write_new set_mode
  write_if_changed path content perm = do
    existing ← env.read_file path
    write_unless (has_content content existing)
        (write_new temp_file_template path content (set_mode perm))

  unfoldable pub remove_if_exists : String → Act W Bool
  remove_if_exists path = env.remove path

  -- Whether the unit and the environment file changed. The flags that come with an error are left
  -- out: no caller looks at them.
  unfoldable pub ensure_unit_with_details : String → String → String → String → Act W (Bool × Bool)
  unfolding write_if_changed
  ensure_unit_with_details unit unit_content env_path env_content = do
    unit_changed ← write_if_changed (env.join_path unit_dir unit) unit_content 0o644
    env.mkdir_all (env.dir env_path)
    env_changed ← write_if_changed env_path env_content 0o600
    pure (unit_changed, env_changed)

  unfoldable pub remove_unit_with_details : String → String → State W Removed
  unfolding remove_if_exists
  remove_unit_with_details unit_path env_path w =
      let (first, w') = remove_if_exists unit_path w in
      behind_unit first (remove_if_exists env_path) w'

  unfoldable pub ensure_unit : String → String → String → String → Act W Bool
  unfolding ensure_unit_with_details
  ensure_unit unit unit_content env_path env_content = do
    changed ← ensure_unit_with_details unit unit_content env_path env_content
    pure (changed.0 || changed.1)

  unfoldable pub remove_unit : String → String → State W (Bool × Option ApiError)
  unfolding remove_unit_with_details
  remove_unit unit_path env_path w =
      let (r, w') = remove_unit_with_details unit_path env_path w in
      ((r.unit_removed || r.env_removed, r.error), w')
