-- ===== src/Agent/Systemd/Contents.antt =====
-- What the calls of `os` do to the contents of files, and what a new file leaves behind.
use praetor.Base.{
  ◌≡◌, ◌∙◌, Bool, true, false, Option, some, String, ◌==◌, ℕ, eq_iff, inl, inr, Bool-cases,
  if◌then◌else◌,
}
use praetor.Base.Result.{Result, ok, err, ApiError}
use praetor.Base.Act.{Act, ◌>>◌}
use praetor.Base.Act.State.{finally}
use praetor.Base.Act.Triples.{Post, Triple, Triple-call, Triple-bind}
use praetor.Agent.Env.{Env}
use praetor.Agent.Systemd.Files.{close_behind, fill, replace, write_new}

-- What the calls of `os` do to the contents of files. The names of temporary files are told apart by
-- a test; a rename is done or not done.
pub record FileLaws {W : Type 0} (env : Env W) (contents : W → String → Option String)
    (is_temp : String → Bool) : Type 0 where
  pub read :
      (p : String) (w : W) (o : Option String) → (env.read_file p w).0 ≡ ok o → contents w p ≡ o
  pub read_keeps :
      (p : String) (w : W) (q : String) → contents (env.read_file p w).1 q ≡ contents w q
  pub mkdir_keeps :
      (d : String) (w : W) (q : String) → contents (env.mkdir_all d w).1 q ≡ contents w q
  pub create_name :
      (d p : String) (w : W) (t : String) → (env.create_temp d p w).0 ≡ ok t → is_temp t ≡ true
  pub create_empty :
      (d p : String) (w : W) (t : String)
      → (env.create_temp d p w).0 ≡ ok t
      → contents (env.create_temp d p w).1 t ≡ some ""
  pub create_keeps :
      (d p : String) (w : W) (q : String)
      → is_temp q ≡ false
      → contents (env.create_temp d p w).1 q ≡ contents w q
  pub chmod_keeps :
      (t : String) (n : ℕ) (w : W) (q : String) → contents (env.chmod t n w).1 q ≡ contents w q
  pub write_all :
      (t s : String) (w : W)
      → (env.write t s w).0 ≡ ok tt
      → contents w t ≡ some ""
      → contents (env.write t s w).1 t ≡ some s
  pub write_keeps :
      (t s : String) (w : W) (q : String)
      → is_temp t ≡ true
      → is_temp q ≡ false
      → contents (env.write t s w).1 q ≡ contents w q
  pub close_keeps : (t : String) (w : W) (q : String) → contents (env.close t w).1 q ≡ contents w q
  pub rename_moves :
      (t p : String) (w : W)
      → (env.rename t p w).0 ≡ ok tt
      → contents (env.rename t p w).1 p ≡ contents w t
  pub rename_keeps :
      (t p : String) (w : W) (q : String)
      → is_temp t ≡ true
      → is_temp q ≡ false
      → (p == q) ≡ false
      → contents (env.rename t p w).1 q ≡ contents w q
  pub rename_fails :
      (t p : String) (w : W) (e : ApiError) (q : String)
      → (env.rename t p w).0 ≡ err e
      → contents (env.rename t p w).1 q ≡ contents w q
  pub remove_keeps :
      (t : String) (w : W) (q : String)
      → is_temp t ≡ true
      → is_temp q ≡ false
      → contents (env.remove t w).1 q ≡ contents w q

module _ {W : Type 0} (env : Env W) {contents : W → String → Option String}
    {is_temp : String → Bool} (laws : FileLaws env contents is_temp) where
  -- The files that are not temporary are as in `before`.
  abbrev pub Same : (String → Option String) → W → Type 0
  Same before w = (q : String) → is_temp q ≡ false → contents w q ≡ before q

  -- The temporary file holds a text, and the other files are as before.
  abbrev Filled : (String → Option String) → String → String → W → Type 0
  Filled before t s w = (is_temp t ≡ true) × ((contents w t ≡ some s) × Same before w)

  -- The file of the path holds the content, and the others are as before.
  abbrev pub written : (String → Option String) → String → String → String → Option String
  written before path content q = if path == q then some content else before q

  module _ (before : String → Option String) (path content t : String) where
    close_behind-Triple :
        (r : Result (Unit {0})) (w : W)
        → Post (λ _. Filled before t content) (Same before) r w
        → Post
            (λ _. Filled before t content)
            (Same before)
            (close_behind env t r w).0
            (close_behind env t r w).1
    unfolding close_behind
    close_behind-Triple (ok u) w p = p
    close_behind-Triple (err e) w p = λ q h. laws.close_keeps t w q ∙ p q h

    -- The mode is set by an action that keeps the contents.
    set_and_write-Triple :
        (set : Act W (Unit {0}))
        → ((w : W) (q : String) → contents (set w).1 q ≡ contents w q)
        → Triple
            (Filled before t "")
            (set >> env.write t content)
            (λ _. Filled before t content)
            (Same before)
    set_and_write-Triple set keeps =
        Triple-bind set (λ _. env.write t content)
          (Triple-call {Q = λ _. Filled before t ""} set
            (λ w a p e. (p.0, (keeps w t ∙ p.1.0, λ q h. keeps w q ∙ p.1.1 q h)))
            (λ w e p _ q h. keeps w q ∙ p.1.1 q h))
          (λ _.
            Triple-call (env.write t content)
              (λ w a p e. (
                p.0,
                (
                  laws.write_all t content w e p.1.0,
                  λ q h. laws.write_keeps t content w q p.0 h ∙ p.1.1 q h,
                ),
              ))
              (λ w e p _ q h. laws.write_keeps t content w q p.0 h ∙ p.1.1 q h))

    fill-Triple :
        (set : Act W (Unit {0}))
        → ((w : W) (q : String) → contents (set w).1 q ≡ contents w q)
        → Triple
            (Filled before t "")
            (fill env t set content)
            (λ _. Filled before t content)
            (Same before)
    unfolding fill
    fill-Triple set keeps = record {
      at = λ w p. close_behind-Triple _ _ ((set_and_write-Triple set keeps).at w p);
    }

    abbrev Renamed : W → Type 0
    Renamed w = (is_temp t ≡ true) × Same (written before path content) w

    written_else :
        (w : W) (q : String)
        → contents w path ≡ some content
        → ((path == q) ≡ false → contents w q ≡ before q)
        → contents w q ≡ written before path content q
    written_else w q at_path others = elim (Bool-cases (path == q)) [
      | inl e ↦ rw e (rw (← (eq_iff path q).0 e) at_path)
      | inr e ↦ rw e (others e)
    ]

    rename-Triple :
        is_temp path ≡ false
        → Triple (Filled before t content) (env.rename t path) (λ _. Renamed) (Same before)
    rename-Triple named =
        Triple-call (env.rename t path)
          (λ w a p e. (
            p.0,
            λ q h.
                written_else (env.rename t path w).1 q (laws.rename_moves t path w e ∙ p.1.0)
                  (λ other. laws.rename_keeps t path w q p.0 h other ∙ p.1.1 q h),
          ))
          (λ w e p r q h. laws.rename_fails t path w e q r ∙ p.1.1 q h)

    replace-Triple :
        is_temp path ≡ false
        → (set : Act W (Unit {0})) → ((w : W) (q : String) → contents (set w).1 q ≡ contents w q)
        → Triple (Filled before t "") (replace env path t set content) (λ _. Renamed) (Same before)
    unfolding replace
    replace-Triple named set keeps =
        Triple-bind (fill env t set content) (λ _. env.close t >> env.rename t path)
          (fill-Triple set keeps)
          (λ _.
            Triple-bind (env.close t) (λ _. env.rename t path)
              (Triple-call {Q = λ _. Filled before t content} (env.close t)
                (λ w a p e. (
                  p.0,
                  (laws.close_keeps t w t ∙ p.1.0, λ q h. laws.close_keeps t w q ∙ p.1.1 q h),
                ))
                (λ w e p r q h. laws.close_keeps t w q ∙ p.1.1 q h))
              (λ _. rename-Triple named))

    -- The removal of the temporary file, whatever comes before it.
    remove-Post :
        (r : Result (Unit {0})) (w : W)
        → is_temp t ≡ true
        → Post (λ _. Renamed) (Same before) r w
        → Post (λ _. Same (written before path content)) (Same before) r (env.remove t w).1
    remove-Post (ok u) w temp p = λ q h. laws.remove_keeps t w q temp h ∙ p.1 q h
    remove-Post (err e) w temp p = λ q h. laws.remove_keeps t w q temp h ∙ p q h

    finally-Triple :
        is_temp path ≡ false
        → (set : Act W (Unit {0})) → ((w : W) (q : String) → contents (set w).1 q ≡ contents w q)
        → Triple
            (Filled before t "")
            (finally (replace env path t set content) (env.remove t))
            (λ _. Same (written before path content))
            (Same before)
    finally-Triple named set keeps = record {
      at = λ w p. remove-Post _ _ p.0 ((replace-Triple named set keeps).at w p);
    }

  -- A new file is written as a whole or not at all, and no other file that is not temporary changes.
  pub write_new-Triple :
      (before : String → Option String) (pattern path content : String)
      → (set : String → Act W (Unit {0})) → is_temp path ≡ false
      → ((t : String) (w : W) (q : String) → contents (set t w).1 q ≡ contents w q)
      → Triple
          (Same before)
          (write_new env pattern path content set)
          (λ _. Same (written before path content))
          (Same before)
  unfolding write_new
  write_new-Triple before pattern path content set named keeps =
      Triple-bind (env.mkdir_all (env.dir path)) _
        (Triple-call {Q = λ _. Same before} (env.mkdir_all (env.dir path))
          (λ w a p e q h. laws.mkdir_keeps (env.dir path) w q ∙ p q h)
          (λ w e p r q h. laws.mkdir_keeps (env.dir path) w q ∙ p q h))
        (λ _.
          Triple-bind (env.create_temp (env.dir path) pattern) _
            (Triple-call {Q = λ t. Filled before t ""} (env.create_temp (env.dir path) pattern)
              (λ w t p e. (
                laws.create_name (env.dir path) pattern w t e,
                (
                  laws.create_empty (env.dir path) pattern w t e,
                  λ q h. laws.create_keeps (env.dir path) pattern w q h ∙ p q h,
                ),
              ))
              (λ w e p r q h. laws.create_keeps (env.dir path) pattern w q h ∙ p q h))
            (λ t. finally-Triple before path content t named (set t) (keeps t)))
