-- ===== src/Agent/Systemd/Written.antt =====
-- What the writes of files leave behind.
use praetor.Base.{
  ◌≡◌, refl, sym, ap, ◌∙◌, Bool, true, false, not, Option, none, some, String, ◌==◌, ℕ, eqb, eq_iff,
  inl, inr, Bool-cases,
}
use praetor.Base.Result.{Result, ok, err}
use praetor.Base.Act.{Act, pure, ◌>>◌}
use praetor.Base.Act.Triples.{Post, Triple, Triple-pure, Triple-if, Triple-call, Triple-bind}
use praetor.Agent.Env.{Env}
use praetor.Agent.Systemd.Contents.{FileLaws, Same, written, write_new-Triple}
use praetor.Agent.Systemd.Files.{
  temp_file_template, has_content, set_mode, write_unless, write_if_changed,
}

module _ {W : Type 0} (env : Env W) {contents : W → String → Option String}
    {is_temp : String → Bool} (laws : FileLaws env contents is_temp) where
  set_mode_keeps :
      (perm : ℕ) (t : String) (w : W) (q : String)
      → contents (set_mode env perm t w).1 q ≡ contents w q
  unfolding set_mode
  set_mode_keeps perm t w q = elim (Bool-cases (eqb perm 0)) [
    | inl e ↦ rw e refl
    | inr e ↦ rw e (laws.chmod_keeps t perm w q)
  ]

  -- What a write that succeeds says: whether the file was not as wanted.
  abbrev pub Said : (String → Option String) → String → String → Bool → W → Type 0
  Said before path content changed w =
      (changed ≡ not (has_content content (before path)))
      × Same env laws (written env laws before path content) w

  has_content_lem :
      (content : String) (o : Option String) → has_content content o ≡ true → o ≡ some content
  has_content_lem content none h = cc
  has_content_lem content (some existing) h = ap some ((eq_iff existing content).0 h)

  with_fact :
      {P : Type 0} (Q R : W → Type 0) (fact : P) (r : Result (Unit {0})) (w : W)
      → Post (λ _. Q) R r w
      → Post (λ _ v. P × Q v) R r w
  with_fact Q R fact (ok u) w p = (fact, p)
  with_fact Q R fact (err e) w p = p

  same_written :
      (before : String → Option String) (path content q : String)
      → before path ≡ some content
      → before q ≡ written env laws before path content q
  same_written before path content q h = elim (Bool-cases (path == q)) [
    | inl e ↦ rw e (rw (← (eq_iff path q).0 e) h)
    | inr e ↦ rw e refl
  ]

  write_unless-Triple :
      (before : String → Option String) (path content : String) (rewrite : Act W (Unit {0}))
      → Triple
          (Same env laws before)
          rewrite
          (λ _. Same env laws (written env laws before path content))
          (Same env laws before)
      → (existing : Option String)
      → Triple
          (λ w. (before path ≡ existing) × Same env laws before w)
          (write_unless env (has_content content existing) rewrite)
          (Said before path content)
          (Same env laws before)
  write_unless-Triple before path content rewrite whole existing =
      Triple-if (has_content content existing) (pure false) (rewrite >> pure true)
        (λ same. Triple-pure false (λ w p. (
          rw p.0 (rw same refl),
          λ q h.
              p.1 q h
              ∙ same_written before path content q (p.0 ∙ has_content_lem content existing same),
        )))
        (λ other.
          Triple-bind {P = λ w. (before path ≡ existing) × Same env laws before w}
            {Q = λ _ w.
              (before path ≡ existing) × Same env laws (written env laws before path content) w}
            rewrite (λ _. pure true)
            (record {
              at = λ w p.
                  with_fact (Same env laws (written env laws before path content))
                    (Same env laws before) p.0 (rewrite w).0 (rewrite w).1 (whole.at w p.1);
            })
            (λ _. Triple-pure true (λ w p. (rw p.0 (rw other refl), p.1))))

  -- A file is written as a whole or not at all. Where the write succeeds it says whether the file was
  -- not as wanted, the file holds the content, and every other file that is not temporary is as
  -- before; where it fails, all of these are as before.
  pub write_if_changed_lem :
      (path content : String) (perm : ℕ) (w : W)
      → is_temp path ≡ false
      → Post
          (Said (contents w) path content)
          (Same env laws (contents w))
          (write_if_changed env path content perm w).0
          (write_if_changed env path content perm w).1
  unfolding write_if_changed
  write_if_changed_lem path content perm w named =
      (Triple-bind {P = Same env laws (contents w)}
          {Q = λ existing v. (contents w path ≡ existing) × Same env laws (contents w) v}
          {R = Same env laws (contents w)} (env.read_file path) _
          (Triple-call (env.read_file path)
            (λ v o p e.
              (sym (p path named) ∙ laws.read path v o e, λ q h. laws.read_keeps path v q ∙ p q h))
            (λ v e p r q h. laws.read_keeps path v q ∙ p q h))
          (λ existing.
            write_unless-Triple (contents w) path content _
              (write_new-Triple env laws (contents w) temp_file_template path content
                (set_mode env perm) named (λ t. set_mode_keeps perm t))
              existing)).at
        w (λ q h. refl)
