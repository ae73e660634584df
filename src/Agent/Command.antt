-- ===== src/Agent/Command.antt =====
-- agent/main.go: resolveCommand.
pub mod Inside
use Prim.Native.String
use praetor.Base.{
  Bool, not, ◌&&◌, ◌||◌, List, [], ◌∷◌, String, ◌==◌, has_prefix, trim_space, if◌then◌else◌,
}
use praetor.Base.Result.{other}
use praetor.Base.Act.{Act, pure, raise, ◌>>=◌}
use praetor.Agent.Env.{Env}

-- Whether the normalised command leads out of the directory by its look.
unfoldable pub is_outward : {W : Type 0} → Env W → String → Bool
unfolding has_prefix
is_outward env normalized = has_prefix normalized ".." || env.is_abs normalized

-- Whether an absolute path is a directory or lies below it.
unfoldable pub is_within : String → String → Bool
unfolding has_prefix
is_within root path = has_prefix path (String.◌++◌ root "/") || path == root

module _ {W : Type 0} (env : Env W) where
  abbrev pub admit : Bool → String → String → List String → Act W (List String)
  admit inside first joined rest =
      if inside
      then pure (joined ∷ rest)
      else raise (other (String.◌++◌ "command path escapes rootfs: " first))

  unfoldable pub place : String → String → String → List String → Act W (List String)
  unfolding is_within
  place root normalized first rest = do
    let joined = env.join_path root normalized
    root_abs ← env.abs root
    joined_abs ← env.abs joined
    admit (is_within root_abs joined_abs) first joined rest

  unfoldable pub resolve_relative : String → String → List String → Act W (List String)
  unfolding trim_space is_outward place
  resolve_relative root first rest =
      let clean = trim_space first in
      let normalized = env.clean clean in
      if clean == ""
      then raise (other "invalid command")
      else if is_outward env normalized
      then raise (other (String.◌++◌ "command must not escape artifact rootfs: " first))
      else place root normalized first rest

  unfoldable pub resolve_command : List String → String → Act W (List String)
  unfolding trim_space has_prefix resolve_relative
  resolve_command [] rootfs = raise (other "missing command")
  resolve_command (first ∷ rest) rootfs =
      let root = trim_space rootfs in
      if root == ""
      then raise (other "missing rootfs path")
      else if has_prefix first "/"
      then pure (first ∷ rest)
      else resolve_relative root first rest
