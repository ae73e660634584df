-- ===== src/Agent/StateFile.antt =====
-- agent/main.go: the file of the managed items. Encoding the state cannot fail.
pub mod RoundTrip
use praetor.Base.{Option, none, some, get_or, List, [], String, ◌==◌, if◌then◌else◌}
use praetor.Base.Maps.{Map}
use praetor.Base.Result.{Result, ok, err}
use praetor.Base.Act.{Act, pure, ◌>>=◌}
use praetor.Agent.Env.{Env, ManagedItem}
use praetor.Agent.Systemd.Files.{write_new}

abbrev pub or_empty : Result (Option (Map ManagedItem)) → Result (Map ManagedItem)
or_empty (ok none) = ok []
or_empty (ok (some managed)) = ok managed
or_empty (err e) = err e

abbrev pub loaded : Map ManagedItem → Result (Map ManagedItem) → Result (Unit {0}) × Map ManagedItem
loaded managed (ok read) = (ok tt, read)
loaded managed (err e) = (err e, managed)

module _ {W : Type 0} (env : Env W) where
  unfoldable pub write_file_atomic : String → String → Act W (Unit {0})
  unfolding write_new
  write_file_atomic path text =
      write_new env ".tmp-agent-state-*" path text (λ tmp. env.chmod tmp 0o600)

  unfoldable pub persist_state : String → Map ManagedItem → Act W (Unit {0})
  unfolding write_file_atomic
  persist_state path managed = write_file_atomic path (env.marshal_state managed)

  -- The map of a state that was read; a null map is an empty one.
  unfoldable pub decode_state : String → Result (Map ManagedItem)
  decode_state text = if text == "" then ok [] else or_empty (env.unmarshal_state text)

  unfoldable pub decode_file : Option String → Result (Map ManagedItem)
  unfolding decode_state
  decode_file none = ok []
  decode_file (some text) = decode_state text

  unfoldable pub read_state_file : String → Act W (Map ManagedItem)
  unfolding decode_file
  read_state_file path = do text ← env.read_file path; λ w. (decode_file text, w)

  -- The map behind `loadState`: that of the file, or the old one with the error.
  unfoldable pub load_state :
      String → Map ManagedItem → W → (Result (Unit {0}) × Map ManagedItem) × W
  unfolding read_state_file
  load_state path managed w = let (r, w') = read_state_file path w in (loaded managed r, w')
