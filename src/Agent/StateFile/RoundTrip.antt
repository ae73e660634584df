-- ===== src/Agent/StateFile/RoundTrip.antt =====
-- A state that is written is read back.
use praetor.Base.{◌≡◌, refl, sym, ◌∙◌, Bool, false, Option, some, String, ◌==◌, eq_refl}
use praetor.Base.Maps.{Map}
use praetor.Base.Result.{Result, ok, err}
use praetor.Base.Act.Triples.{Post}
use praetor.Agent.Env.{Env, ManagedItem}
use praetor.Agent.Systemd.Contents.{FileLaws, Same, written, write_new-Triple}
use praetor.Agent.StateFile.{
  write_file_atomic, persist_state, decode_state, decode_file, read_state_file, load_state,
}

module _ {W : Type 0} (env : Env W) {contents : W → String → Option String}
    {is_temp : String → Bool} (laws : FileLaws env contents is_temp) where
  -- The file of the state is written as a whole or not at all, and no other file that is not temporary
  -- changes.
  persist_state-Post :
      (path : String) (managed : Map ManagedItem) (w : W)
      → is_temp path ≡ false
      → Post
          (λ _. Same env laws (written env laws (contents w) path (env.marshal_state managed)))
          (Same env laws (contents w))
          (persist_state env path managed w).0
          (persist_state env path managed w).1
  unfolding persist_state write_file_atomic
  persist_state-Post path managed w named =
      (write_new-Triple env laws (contents w) ".tmp-agent-state-*" path (env.marshal_state managed)
          _ named (λ t v q. laws.chmod_keeps t 0o600 v q)).at
        w (λ q h. refl)

  -- A load of a file that holds an encoded state.
  load_state_lem :
      (path : String) (managed old : Map ManagedItem) (w : W) (o : Option String)
      → contents w path ≡ some (env.marshal_state managed)
      → (env.marshal_state managed == "") ≡ false
      → env.unmarshal_state (env.marshal_state managed) ≡ ok (some managed)
      → (env.read_file path w).0 ≡ ok o
      → (load_state env path old w).0 ≡ (ok tt, managed)
  unfolding load_state read_state_file decode_file decode_state
  load_state_lem path managed old w o stored nonempty decoded h =
      let same : o ≡ some (env.marshal_state managed) = sym (laws.read path w o h) ∙ stored in
      rw h (rw same (rw nonempty (rw decoded refl)))

  stored_of :
      (before : String → Option String) (path text : String) (r : Result (Unit {0})) (w : W)
      → is_temp path ≡ false
      → r ≡ ok tt
      → Post (λ _. Same env laws (written env laws before path text)) (Same env laws before) r w
      → contents w path ≡ some text
  stored_of before path text (ok u) w named e p = p path named ∙ rw (eq_refl path) refl
  stored_of before path text (err x) w named e p = cc

  -- Where the state is written, a load that can read the file gets the managed items back, whatever
  -- the agent managed before. This holds where an encoded state is not empty and is decoded to what
  -- was encoded, and the path is not that of a temporary file.
  pub load_state-persist_state :
      (path : String) (managed old : Map ManagedItem) (w : W) (o : Option String)
      → is_temp path ≡ false
      → (env.marshal_state managed == "") ≡ false
      → env.unmarshal_state (env.marshal_state managed) ≡ ok (some managed)
      → (persist_state env path managed w).0 ≡ ok tt
      → (env.read_file path (persist_state env path managed w).1).0 ≡ ok o
      → (load_state env path old (persist_state env path managed w).1).0 ≡ (ok tt, managed)
  load_state-persist_state path managed old w o named nonempty decoded done h =
      let v = (persist_state env path managed w).1 in
      let stored =
        stored_of (contents w) path (env.marshal_state managed) (persist_state env path managed w).0
          v named done (persist_state-Post path managed w named) in
      load_state_lem path managed old v o stored nonempty decoded h
