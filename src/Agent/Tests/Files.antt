-- ===== src/Agent/Tests/Files.antt =====
-- Runs of the rendering, of the names and of the writes.
use praetor.Base.{
  ◌≡◌, ◌≤◌, ◌+◌, refl, true, some, List, [], ◌∷◌, String, ◌⊎◌, trim_space, has_prefix,
}
use praetor.Base.Text.{text_length}
use praetor.Base.TextLines.{lines}
use praetor.Base.TextChars.{all_chars}
use praetor.Base.Result.{ok}
use praetor.Base.Act.Triples.{Post}
use praetor.Agent.Units.{render_unit_files}
use praetor.Agent.Units.Lines.{given, render_unit_files-lines}
use praetor.Agent.Systemd.{is_valid, sanitized_base}
use praetor.Agent.Systemd.Names.{sanitized_base_bounds}
use praetor.Agent.Systemd.Files.{write_if_changed}
use praetor.Agent.Systemd.Contents.{Same}
use praetor.Agent.Systemd.Written.{Said, write_if_changed_lem}
use praetor.Agent.StateFile.{persist_state, load_state}
use praetor.Agent.StateFile.RoundTrip.{load_state-persist_state}
use praetor.Agent.Command.{resolve_command}
use praetor.Agent.Command.Inside.{IsBelow, resolve_command-IsBelow}
use praetor.Agent.Tests.World.{env, env_laws, world, item, stored_items}

abbrev unit : String
unit =
    "[Unit]\nDescription=Apollo DeviceProcess infra/agent\nAfter=network.target\n\n[Service]\nType=simple\nExecStart=/bin/agent \"a b\"\nWorkingDirectory=/srv\nEnvironmentFile=-/e\nRestart=no\n\n[Install]\nWantedBy=multi-user.target\n"

rendered : render_unit_files item "/e" ≡ ok (unit, "")
unfolding render_unit_files
rendered = refl

render_unit_files-lines_example :
    lines unit
    ≡ 12
      + given item.spec.execution.working_dir
      + given item.spec.execution.user
      + lines item.namespace
      + lines item.name
      + lines "/e"
render_unit_files-lines_example = render_unit_files-lines item "/e" unit "" rendered

short_name : sanitized_base env "team/a" "agent" ≡ "apollo-team-a-agent"
unfolding sanitized_base
short_name = refl

hex : (s : String) → all_chars is_valid (env.sha256_hex s) ≡ true
unfolding all_chars
hex s = refl

sanitized_base_bounds_example :
    (text_length (sanitized_base env "team/a" "agent") ≤ 80)
    × (all_chars is_valid (sanitized_base env "team/a" "agent") ≡ true)
sanitized_base_bounds_example = sanitized_base_bounds env "team/a" "agent" hex

write_if_changed_lem_example :
    Post
      (Said env env_laws world.files "/u" "text")
      (Same env env_laws world.files)
      (write_if_changed env "/u" "text" 0o644 world).0
      (write_if_changed env "/u" "text" 0o644 world).1
write_if_changed_lem_example = write_if_changed_lem env env_laws "/u" "text" 0o644 world refl

load_state-persist_state_example :
    (load_state env "/state" [] (persist_state env "/state" stored_items world).1).0
    ≡ (ok tt, stored_items)
unfolding persist_state
load_state-persist_state_example =
    load_state-persist_state env env_laws "/state" stored_items [] world (some "{}") refl refl refl
      refl refl

abbrev given_command : List String
given_command = "bin/agent" ∷ "x" ∷ []

abbrev full_command : List String
full_command = "/rootfs/bin/agent" ∷ "x" ∷ []

resolved : (resolve_command env given_command " /rootfs " world).0 ≡ ok full_command
unfolding resolve_command
resolved = refl

resolve_command-IsBelow_example :
    ((has_prefix "bin/agent" "/" ≡ true) × (full_command ≡ given_command))
    ⊎ ((command : String) × ((full_command ≡ command ∷ "x" ∷ [])
          × IsBelow env (trim_space " /rootfs ") "bin/agent" command))
resolve_command-IsBelow_example =
    resolve_command-IsBelow env "bin/agent" ("x" ∷ []) " /rootfs " world full_command resolved
