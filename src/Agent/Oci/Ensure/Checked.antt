-- ===== src/Agent/Oci/Ensure/Checked.antt =====
-- The digest check of Ensure.
use praetor.Base.{
  ◌≡◌, refl, ap, ℕ, zero, suc, Bool, true, false, Option, none, some, [], ◌∷◌, String, ◌==◌, eq_iff,
  inl, inr, Bool-cases, trim_space, join,
}
use praetor.Base.Result.{ok}
use praetor.Base.Act.State.{State, ◌>>=◌}
use praetor.Agent.Env.{OciResult}
use praetor.Agent.Oci.{OciEnv, Reference, CopyError, is_digest, is_retryable, allow_plain_http}
use praetor.Agent.Oci.Results.{
  Ensured, first_result, cached_result, downloaded_result, with_error, with_reason, Copied, copied,
  gave_up, cancelled,
}
use praetor.Agent.Oci.Ensure.{
  after_wait, after_attempt, copy_from, attempted, after_copies, fetch_new, is_cached, fetch_locked,
  cached_or, with_lock, fetch_pinned, after_parse, ensure,
}
use praetor.Agent.Oci.Ensure.Accepts.{
  IsVouched, Good, Accepts, Accepts-if, Accepts-bind, Accepts-finally, on_bare-Accepts,
}
use praetor.Agent.Oci.Ensure.Verified.{IsSound, ensure-IsSound}
use praetor.Agent.Oci.Ensure.Unpacked.{manifest-Accepts}

module _ {W : Type 0} (env : OciEnv W) {Q : W → Type 0} {reference : String}
    (vouched : IsVouched env Q reference) where
  -- Behind the loop: where the digest that was copied is the one asked for, `Q` holds.
  abbrev Told : Copied → W → Type 0
  Told (copied digest n time) w = digest ≡ reference → Q w
  Told (gave_up error n time) w = Unit
  Told (cancelled error time) w = Unit

  wait-Told :
      (ended : Option String) (time : String) (more : State W Copied) (w : W)
      → Told (more w).0 (more w).1
      → Told (after_wait env ended time more w).0 (after_wait env ended time more w).1
  wait-Told none time more w h = h
  wait-Told (some error) time more w h = tt

  attempt-Told :
      (answer : String × Option CopyError) (made : ℕ) (time : String)
      (more : String → State W Copied) (w : W)
      → (answer ≡ (reference, none) → Q w)
      → ((e : String) (w : W) → Told (more e w).0 (more e w).1)
      → Told
          (after_attempt env answer made time more w).0
          (after_attempt env answer made time more w).1
  unfolding after_attempt
  attempt-Told (digest, none) made time more w h k = λ same. h (ap (λ d. (d, none)) same)
  attempt-Told (digest, some e) made time more w h k = elim (Bool-cases (is_retryable env e)) [
    | inl again ↦ rw again (wait-Told _ time (more e.text) _ (k e.text _))
    | inr final ↦ rw final tt
  ]

  copy_from-Told :
      (left made : ℕ) (error time : String) (w : W)
      → Told
          (copy_from env reference left made error time w).0
          (copy_from env reference left made error time w).1
  unfolding copy_from
  copy_from-Told zero made error time w = tt
  copy_from-Told (suc left) made error time w =
      let (t, w') = env.now w in
      attempt-Told (env.copy reference w').0 made (env.format_rfc3339 t)
        (λ e. copy_from env reference left (suc made) e (env.format_rfc3339 t))
        (env.copy reference w').1 (vouched.copied w')
        (λ e v. copy_from-Told left (suc made) e (env.format_rfc3339 t) v)

  copies-Accepts :
      (res : OciResult) (ref base : String) (c : Copied)
      → Accepts env Q reference (Told c) (after_copies env res ref reference base c)
  unfolding after_copies with_error with_reason
  copies-Accepts res ref base (cancelled error time) = record { at = λ w p. tt }
  copies-Accepts res ref base (gave_up error n time) = record { at = λ w p. tt }
  copies-Accepts res ref base (copied digest n time) =
      Accepts-if env Q reference (digest == reference) _ _
        (λ same. record {
          at = λ w told.
              (manifest-Accepts env vouched (downloaded_result (attempted env res n time) reference)
                  ref base).at
                w (told ((eq_iff digest reference).0 same));
        })
        (record { at = λ w p. tt })

  -- From any world on.
  abbrev Any : W → Type 0
  Any w = Unit

  first_step :
      {B : Type 0} (m : State W B) (f : B → State W Ensured)
      → ((b : B) → Accepts env Q reference Any (f b))
      → Accepts env Q reference Any (m >>= f)
  first_step m f more = Accepts-bind env Q reference (λ b. Any) m f (λ w p. tt) more

  fetch_new-Accepts :
      (res : OciResult) (ref : String) (parsed : Reference) (base : String)
      → parsed.reference ≡ reference
      → Accepts env Q reference Any (fetch_new env res ref parsed base)
  unfolding fetch_new
  fetch_new-Accepts res ref parsed base same = rw same (
      first_step (env.new_store base) _ (λ store. on_bare-Accepts env Q reference res store _ (λ u.
        first_step
          (env.new_repository (join (parsed.registry ∷ "/" ∷ parsed.repository ∷ []))
            (allow_plain_http env parsed.registry))
          _
          (λ repository. on_bare-Accepts env Q reference res repository _ (λ v.
            Accepts-bind env Q reference Told (copy_from env reference 3 0 "" "") _
              (λ w p. copy_from-Told 3 0 "" "" w) (λ c. copies-Accepts res ref base c))))))

  -- The cache was hit.
  abbrev Hit : Bool → W → Type 0
  Hit hit w = hit ≡ true → Q w

  cached-Accepts :
      (hit : Bool) (res : OciResult) (rootfs digest : String) (more : State W Ensured)
      → digest ≡ reference
      → Accepts env Q reference Any more
      → Accepts env Q reference (Hit hit) (cached_or hit (cached_result res rootfs digest) more)
  unfolding cached_result
  cached-Accepts true res rootfs digest more same k = record { at = λ w q. (same, q refl) }
  cached-Accepts false res rootfs digest more same k = record { at = λ w q. k.at w tt }

  locked-Accepts :
      (res : OciResult) (ref : String) (parsed : Reference) (base : String)
      → parsed.reference ≡ reference
      → Accepts env Q reference Any (fetch_locked env res ref parsed base)
  unfolding fetch_locked
  locked-Accepts res ref parsed base same =
      Accepts-bind env Q reference Hit (is_cached env base) _ (λ w p. vouched.cached base w)
        (λ hit.
          cached-Accepts hit res (env.join_path base "rootfs") parsed.reference
            (fetch_new env res ref parsed base) same (fetch_new-Accepts res ref parsed base same))

  with_lock-Accepts :
      (res : OciResult) (path : String) (body : State W Ensured)
      → Accepts env Q reference Any body
      → Accepts env Q reference Any (with_lock env res path body)
  unfolding with_lock
  with_lock-Accepts res path body a = first_step (env.open_lock path) _ (λ opened.
      on_bare-Accepts env Q reference res opened _ (λ u.
        Accepts-finally env Q reference _ (env.close_lock path)
          (first_step (env.flock path) _ (λ taken.
            on_bare-Accepts env Q reference res taken _ (λ v.
              Accepts-finally env Q reference body (env.unlock path) a (vouched.unlocks path))))
          (vouched.closes path)))

  pinned-Accepts :
      (res : OciResult) (ref : String) (parsed : Reference) (base : String)
      → parsed.reference ≡ reference
      → Accepts env Q reference Any (fetch_pinned env res ref parsed base)
  unfolding fetch_pinned
  pinned-Accepts res ref parsed base same = first_step (env.mkdir_all base 0o755) _ (λ made.
      on_bare-Accepts env Q reference res made _ (λ u.
        with_lock-Accepts res (env.join_path base ".lock") (fetch_locked env res ref parsed base)
          (locked-Accepts res ref parsed base same)))

  parse-Accepts :
      (root ref : String) (parsed : Reference)
      → parsed.reference ≡ reference
      → Accepts env Q reference Any (after_parse env root ref (ok parsed))
  unfolding after_parse
  parse-Accepts root ref parsed same =
      Accepts-if env Q reference (is_digest parsed.reference) _ _
        (λ _. pinned-Accepts first_result ref parsed _ same) (record { at = λ w p. tt })

module _ {W : Type 0} (env : OciEnv W) where
  -- A fetch of a reference that parses ends behind at most three attempts, whatever the registry and the
  -- files answer; with an error the result is not flagged as verified. Without an error it is flagged as
  -- downloaded and verified, under the digest of the reference, 64 hexadecimal digits, and a READY
  -- marker was found beside a rootfs, or a copy of the registry answered just this digest without an
  -- error: what holds behind such a copy, and behind such a find, and is kept by the calls that may
  -- follow, holds in the end.
  pub ensure-Good :
      (Q : W → Type 0) (root ref : String) (parsed : Reference) (w : W)
      → env.parse_reference (trim_space ref) ≡ ok parsed
      → IsVouched env Q parsed.reference
      → IsSound (ensure env root ref w).0
        × Good env Q parsed.reference (ensure env root ref w).0 (ensure env root ref w).1
  unfolding ensure
  ensure-Good Q root ref parsed w good vouched = (
    (ensure-IsSound env root ref).at w,
    rw good ((parse-Accepts env vouched root ref parsed refl).at w tt),
  )
