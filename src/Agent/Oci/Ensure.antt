-- ===== src/Agent/Oci/Ensure.antt =====
-- agent/artifact_oci.go: Ensure.
pub mod Accepts
pub mod Checked
pub mod Unpacked
pub mod Verified
use Prim.Native.String
use praetor.Base.{
  ℕ, zero, suc, ◌+◌, Bool, true, false, ◌&&◌, Option, none, some, List, [], ◌∷◌, String, ◌==◌, not,
  if◌then◌else◌, trim_space, trim_prefix, join,
}
use praetor.Base.Int.{ℤ, pos}
use praetor.Base.Text.{contains}
use praetor.Base.Result.{Result, ok, err, ApiError, bad_request}
use praetor.Base.Act.State.{State, pure, finally, ◌>>=◌, ◌>>◌}
use praetor.Agent.Env.{OciResult, error_text}
use praetor.Agent.Oci.{
  OciEnv, Reference, CopyError, Layer, Tar, is_digest, error_string, is_retryable, backoff_duration,
  allow_plain_http,
}
use praetor.Agent.Oci.Results.{
  Ensured, first_result, cached_result, downloaded_result, verified_result, with_error, with_reason,
  Copied, copied, gave_up, cancelled, mismatch, not_pinned,
}
use praetor.Agent.Oci.Extract.{Extracted, extracted, plain, refused, after_read}

abbrev pub cached_or : {W : Type 0} → Bool → OciResult → State W Ensured → State W Ensured
cached_or true res more = pure (res, none)
cached_or false res more = more

module _ {W : Type 0} (env : OciEnv W) where
  abbrev pub after_wait : Option String → String → State W Copied → State W Copied
  after_wait none time more = more
  after_wait (some error) time more = pure (cancelled error time)

  -- Behind an attempt: an error that may pass is followed by a wait and the rest of the loop.
  unfoldable pub after_attempt :
      String × Option CopyError → ℕ → String → (String → State W Copied) → State W Copied
  unfolding is_retryable backoff_duration
  after_attempt (digest, none) made time more = pure (copied digest (suc made) time)
  after_attempt (digest, some e) made time more =
      if is_retryable env e
      then (do
        pause ← backoff_duration env made
        ended ← env.wait pause
        after_wait ended time (more e.text))
      else pure (gave_up e.text (suc made) time)

  -- The attempts that are left, the number of those that were made, the last error and the last time.
  unfoldable pub copy_from : String → (left made : ℕ) → (error time : String) → State W Copied
  unfolding after_attempt
  copy_from ref zero made error time = pure (gave_up error made time)
  copy_from ref (suc left) made error time = do
    t ← env.now
    answer ← env.copy ref
    after_attempt answer made (env.format_rfc3339 t)
        (λ (e : String). copy_from ref left (suc made) e (env.format_rfc3339 t))

  abbrev pub on_error :
      {A : Type 0} → OciResult → Result A → (A → State W Ensured) → State W Ensured
  on_error res (ok a) k = k a
  on_error res (err e) k = pure (with_error res (error_text e))

  -- The same behind a clean-up of the temporary directory.
  abbrev pub on_error_remove :
      {A : Type 0} → OciResult → String → Result A → (A → State W Ensured) → State W Ensured
  on_error_remove res tmp (ok a) k = k a
  on_error_remove res tmp (err e) k = do env.remove_all tmp; pure (with_error res (error_text e))

  -- The meta data and the marker, and the final result.
  unfoldable pub mark_ready : OciResult → (ref digest base : String) → ℕ → State W Ensured
  unfolding verified_result with_error
  mark_ready res ref digest base size = do
    t ← env.now
    let meta = env.marshal_meta ref digest size (env.format_rfc3339 t)
    written ← env.write_file (env.join_path base "meta.json") meta 0o644
    on_error res written (λ (u : Unit {0}). (do
      marked ← env.write_file (env.join_path base "READY") "ok\n" 0o644
      on_error res marked (λ (v : Unit {0}).
          pure (verified_result res (env.join_path base "rootfs") digest, none))))

  -- The extracted directory takes the place of the old one.
  unfoldable pub install : OciResult → (ref digest base tmp : String) → Extracted → State W Ensured
  unfolding mark_ready with_error
  install res ref digest base tmp (plain text) = do
    env.remove_all tmp
    pure (
      record (with_error res text).0 { verify_message = (with_error res text).0.last_error },
      some text,
    )
  install res ref digest base tmp (refused reason msg) = do
    env.remove_all tmp
    pure (record (with_error res msg).0 { verify_reason = reason; verify_message = msg }, some msg)
  install res ref digest base tmp (extracted size) = do
    cleared ← env.remove_all (env.join_path base "rootfs")
    on_error_remove res tmp cleared (λ (u : Unit {0}). (do
      moved ← env.rename tmp (env.join_path base "rootfs")
      on_error_remove res tmp moved (λ (v : Unit {0}). mark_ready res ref digest base size)))

  -- The layer of a manifest that has exactly one.
  unfoldable pub check_layers : OciResult → List Layer → (Layer → State W Ensured) → State W Ensured
  unfolding with_reason
  check_layers res [] k = pure (with_reason res res.verify_reason "manifest has no layers")
  check_layers res (layer ∷ []) k = k layer
  check_layers res (layer ∷ second ∷ layers) k =
      pure (with_reason res "UnsupportedArtifact" "MVP requires single-layer tar artifact")

  -- The layer is extracted into a new directory.
  unfoldable pub unpack : OciResult → (ref digest base : String) → Layer → State W Ensured
  unfolding install with_error after_read contains
  unpack res ref digest base layer = do
    fetched ← env.fetch_layer layer
    on_error res fetched (λ (u : Unit {0}). (do
      t ← env.now
      let tmp = env.join_path base (String.◌++◌ "rootfs.tmp." (env.format_nano t))
      made ← env.mkdir_all tmp 0o755
      on_error res made (λ (v : Unit {0}). (do
        tar ← env.read_tar (contains (env.to_lower layer.media_type) "gzip") layer
        result ← after_read env tmp tar
        install res ref digest base tmp result))))

  -- Behind a manifest with the wanted digest.
  unfoldable pub unpack_manifest : OciResult → (ref digest base : String) → State W Ensured
  unfolding unpack check_layers with_error
  unpack_manifest res ref digest base = do
    bytes ← env.fetch_manifest digest
    on_error res bytes (λ (text : String).
        on_error res (env.decode_manifest text) (λ (layers : List Layer).
          check_layers res layers (λ (layer : Layer). unpack res ref digest base layer)))

  abbrev pub attempted : OciResult → ℕ → String → OciResult
  attempted res n time = record res { attempts = pos n; last_attempt_time = time }

  -- Behind the loop. A manifest of the wanted digest is fetched by it.
  unfoldable pub after_copies : OciResult → (ref reference base : String) → Copied → State W Ensured
  unfolding with_error with_reason downloaded_result mismatch unpack_manifest
  after_copies res ref reference base (cancelled error time) =
      pure (record res { last_attempt_time = time }, some error)
  after_copies res ref reference base (gave_up error n time) =
      pure (with_error (attempted res n time) error)
  after_copies res ref reference base (copied digest n time) =
      let res' = downloaded_result (attempted res n time) reference in
      if digest == reference
      then unpack_manifest res' ref reference base
      else pure (with_reason res' "DigestMismatch" (mismatch digest reference))

  -- An error that leaves the result as it is.
  abbrev pub on_bare : {A : Type 0} → OciResult → Result A → (A → State W Ensured) → State W Ensured
  on_bare res (ok a) k = k a
  on_bare res (err e) k = pure (res, some (error_text e))

  unfoldable pub fetch_new : OciResult → String → Reference → String → State W Ensured
  unfolding after_copies copy_from allow_plain_http join
  fetch_new res ref parsed base = do
    store ← env.new_store base
    on_bare res store (λ (u : Unit {0}). (do
      let name = join (parsed.registry ∷ "/" ∷ parsed.repository ∷ [])
      repository ← env.new_repository name (allow_plain_http env parsed.registry)
      on_bare res repository (λ (v : Unit {0}). (do
        result ← copy_from parsed.reference 3 0 "" ""
        after_copies res ref parsed.reference base result))))

  abbrev pub is_file : Option Bool → Bool
  is_file none = false
  is_file (some found) = not found

  abbrev pub is_dir : Option Bool → Bool
  is_dir none = false
  is_dir (some found) = found

  abbrev pub look_if : Bool → State W (Option Bool) → State W Bool
  look_if true look = look >>= λ found. pure (is_dir found)
  look_if false look = pure false

  -- fileExists(ready) && dirExists(rootfs)
  unfoldable pub is_cached : String → State W Bool
  is_cached base = do
    ready ← env.stat (env.join_path base "READY")
    look_if (is_file ready) (env.stat (env.join_path base "rootfs"))

  unfoldable pub fetch_locked : OciResult → String → Reference → String → State W Ensured
  unfolding is_cached cached_result fetch_new
  fetch_locked res ref parsed base = do
    hit ← is_cached base
    cached_or hit (cached_result res (env.join_path base "rootfs") parsed.reference)
        (fetch_new res ref parsed base)

  -- The lock is given back and its file is closed in the end.
  unfoldable pub with_lock : OciResult → String → State W Ensured → State W Ensured
  with_lock res path body = do
    opened ← env.open_lock path
    on_bare res opened (λ (u : Unit {0}).
        finally
          (env.flock path >>= λ taken.
            on_bare res taken (λ (v : Unit {0}). finally body (env.unlock path)))
          (env.close_lock path))

  unfoldable pub fetch_pinned : OciResult → String → Reference → String → State W Ensured
  unfolding with_lock fetch_locked
  fetch_pinned res ref parsed base = do
    made ← env.mkdir_all base 0o755
    on_bare res made (λ (u : Unit {0}).
        with_lock res (env.join_path base ".lock") (fetch_locked res ref parsed base))

  unfoldable pub after_parse : String → String → Result Reference → State W Ensured
  unfolding first_result is_digest fetch_pinned trim_prefix
  after_parse root ref (err e) =
      pure (first_result, some (String.◌++◌ "invalid oci ref: " (error_text e)))
  after_parse root ref (ok parsed) =
      if is_digest parsed.reference
      then fetch_pinned first_result ref parsed
          (env.join_path root (trim_prefix "sha256:" parsed.reference))
      else pure (first_result, some (not_pinned parsed.reference))

  -- The fetcher with its root.
  unfoldable pub ensure : String → String → State W Ensured
  unfolding after_parse trim_space
  ensure root ref = after_parse root ref (env.parse_reference (trim_space ref))
