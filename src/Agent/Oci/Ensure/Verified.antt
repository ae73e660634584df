-- ===== src/Agent/Oci/Ensure/Verified.antt =====
-- What Ensure returns.
use Prim.Native.String
use praetor.Base.{
  ◌≡◌, refl, ℕ, zero, suc, ◌+◌, ◌≤◌, Bool, true, false, Option, none, some, List, [], ◌∷◌, String,
  ◌==◌, inl, inr, Bool-cases, arith, trim_prefix, trim_space, join,
}
use praetor.Base.Int.{pos}
use praetor.Base.Text.{contains}
use praetor.Base.Result.{Result, ok, err}
use praetor.Base.Act.State.{
  State, Yields, Yields-pure, Yields-if, Yields-bind, Yields-bind_value, Yields-then,
  Yields-finally,
}
use praetor.Agent.Env.{OciResult, error_text}
use praetor.Agent.Oci.{
  OciEnv, Reference, CopyError, Layer, is_digest, is_retryable, backoff_duration, allow_plain_http,
}
use praetor.Agent.Oci.Extract.{Extracted, extracted, plain, refused, after_read}
use praetor.Agent.Oci.Results.{
  Ensured, first_result, cached_result, downloaded_result, verified_result, with_error, with_reason,
  Copied, copied, gave_up, cancelled, mismatch, not_pinned,
}
use praetor.Agent.Oci.Ensure.{
  after_wait, after_attempt, copy_from, on_error, on_error_remove, mark_ready, install,
  check_layers, unpack, unpack_manifest, attempted, after_copies, on_bare, fetch_new, is_cached,
  fetch_locked, cached_or, with_lock, fetch_pinned, after_parse, ensure,
}

-- At most three attempts were made.
abbrev pub Tried : OciResult → Type 0
Tried res = (n : ℕ) × ((res.attempts ≡ pos n) × (n ≤ 3))

-- Without an error the artifact is there and verified, under a digest; with one it is not verified.
abbrev pub Outcome : OciResult → Option String → Type 0
Outcome res none =
    (res.verified ≡ true)
    × ((res.downloaded ≡ true) × ((res.last_error ≡ "") × (is_digest res.digest ≡ true)))
Outcome res (some e) = res.verified ≡ false

pub record IsSound (answer : Ensured) : Type 0 where
  pub tried : Tried answer.0
  pub outcome : Outcome answer.0 answer.1

-- A result on the way.
abbrev Starts : OciResult → Type 0
Starts res = (res.verified ≡ false) × Tried res

with_error-IsSound : (res : OciResult) (text : String) → Starts res → IsSound (with_error res text)
unfolding with_error
with_error-IsSound res text h = record { tried = h.1; outcome = h.0 }

with_reason-IsSound :
    (res : OciResult) (reason text : String) → Starts res → IsSound (with_reason res reason text)
unfolding with_reason
with_reason-IsSound res reason text h = record { tried = h.1; outcome = h.0 }

-- The number of attempts that the loop tells of.
abbrev Counts : Copied → Type 0
Counts (copied digest n time) = n ≤ 3
Counts (gave_up error n time) = n ≤ 3
Counts (cancelled error time) = Unit

module _ {W : Type 0} (env : OciEnv W) where
  wait-Counts :
      (ended : Option String) (time : String) (more : State W Copied)
      → Yields Counts more
      → Yields Counts (after_wait env ended time more)
  wait-Counts none time more h = h
  wait-Counts (some error) time more h = Yields-pure _ tt

  attempt-Counts :
      (answer : String × Option CopyError) (made : ℕ) (time : String)
      (more : String → State W Copied)
      → suc made ≤ 3
      → ((e : String) → Yields Counts (more e))
      → Yields Counts (after_attempt env answer made time more)
  unfolding after_attempt
  attempt-Counts (digest, none) made time more h k = Yields-pure _ h
  attempt-Counts (digest, some e) made time more h k =
      Yields-if (is_retryable env e) _ _
        (Yields-bind (backoff_duration env made) _ (λ pause.
          Yields-bind (env.wait pause) _
            (λ ended. wait-Counts ended time (more e.text) (k e.text))))
        (Yields-pure _ h)

  copy_from-Counts :
      (ref : String) (left made : ℕ) (error time : String)
      → left + made ≤ 3
      → Yields Counts (copy_from env ref left made error time)
  unfolding copy_from
  copy_from-Counts ref zero made error time h = Yields-pure _ (omega arith)
  copy_from-Counts ref (suc left) made error time h = Yields-bind env.now _ (λ t.
      Yields-bind (env.copy ref) _ (λ answer.
        attempt-Counts answer made (env.format_rfc3339 t) _ (omega arith)
          (λ e. copy_from-Counts ref left (suc made) e (env.format_rfc3339 t) (omega arith))))

  on_error-IsSound :
      {A : Type 0} (res : OciResult) (r : Result A) (k : A → State W Ensured)
      → Starts res
      → ((a : A) → Yields IsSound (k a))
      → Yields IsSound (on_error env res r k)
  on_error-IsSound res (ok a) k h more = more a
  on_error-IsSound res (err e) k h more = Yields-pure _ (with_error-IsSound res (error_text e) h)

  on_error_remove-IsSound :
      {A : Type 0} (res : OciResult) (tmp : String) (r : Result A) (k : A → State W Ensured)
      → Starts res
      → ((a : A) → Yields IsSound (k a))
      → Yields IsSound (on_error_remove env res tmp r k)
  on_error_remove-IsSound res tmp (ok a) k h more = more a
  on_error_remove-IsSound res tmp (err e) k h more =
      Yields-then (env.remove_all tmp) _ (Yields-pure _ (with_error-IsSound res (error_text e) h))

  on_bare-IsSound :
      {A : Type 0} (res : OciResult) (r : Result A) (k : A → State W Ensured)
      → Starts res
      → ((a : A) → Yields IsSound (k a))
      → Yields IsSound (on_bare env res r k)
  on_bare-IsSound res (ok a) k h more = more a
  on_bare-IsSound res (err e) k h more = Yields-pure _ (record { tried = h.1; outcome = h.0 })

  module _ (res : OciResult) (ref digest base : String) (h : Starts res)
      (pinned : is_digest digest ≡ true) where
    mark_ready-IsSound : (size : ℕ) → Yields IsSound (mark_ready env res ref digest base size)
    unfolding mark_ready verified_result
    mark_ready-IsSound size = Yields-bind env.now _ (λ t.
        Yields-bind
          (env.write_file (env.join_path base "meta.json")
            (env.marshal_meta ref digest size (env.format_rfc3339 t)) 0o644)
          _
          (λ written. on_error-IsSound res written _ h (λ u.
            Yields-bind (env.write_file (env.join_path base "READY") "ok\n" 0o644) _ (λ marked.
              on_error-IsSound res marked _ h (λ v.
                Yields-pure (verified_result res (env.join_path base "rootfs") digest, none)
                  (record { tried = h.1; outcome = (refl, (refl, (refl, pinned))) }))))))

    install-IsSound :
        (tmp : String) (r : Extracted) → Yields IsSound (install env res ref digest base tmp r)
    unfolding install with_error
    install-IsSound tmp (plain text) =
        Yields-then (env.remove_all tmp) _ (Yields-pure _ (record { tried = h.1; outcome = h.0 }))
    install-IsSound tmp (refused reason msg) =
        Yields-then (env.remove_all tmp) _ (Yields-pure _ (record { tried = h.1; outcome = h.0 }))
    install-IsSound tmp (extracted size) =
        Yields-bind (env.remove_all (env.join_path base "rootfs")) _ (λ cleared.
          on_error_remove-IsSound res tmp cleared _ h (λ u.
            Yields-bind (env.rename tmp (env.join_path base "rootfs")) _
              (λ moved. on_error_remove-IsSound res tmp moved _ h (λ v. mark_ready-IsSound size))))

    layers-IsSound :
        (layers : List Layer) (k : Layer → State W Ensured)
        → ((layer : Layer) → Yields IsSound (k layer))
        → Yields IsSound (check_layers env res layers k)
    unfolding check_layers
    layers-IsSound [] k more =
        Yields-pure _ (with_reason-IsSound res res.verify_reason "manifest has no layers" h)
    layers-IsSound (layer ∷ []) k more = more layer
    layers-IsSound (layer ∷ second ∷ layers) k more =
        Yields-pure _
          (with_reason-IsSound res "UnsupportedArtifact" "MVP requires single-layer tar artifact" h)

    unpack-IsSound : (layer : Layer) → Yields IsSound (unpack env res ref digest base layer)
    unfolding unpack
    unpack-IsSound layer = Yields-bind (env.fetch_layer layer) _ (λ fetched.
        on_error-IsSound res fetched _ h (λ u. Yields-bind env.now _ (λ t.
          let tmp = env.join_path base (String.◌++◌ "rootfs.tmp." (env.format_nano t)) in
          Yields-bind (env.mkdir_all tmp 0o755) _ (λ made. on_error-IsSound res made _ h (λ v.
            Yields-bind (env.read_tar (contains (env.to_lower layer.media_type) "gzip") layer) _
              (λ tar. Yields-bind (after_read env tmp tar) _ (λ r. install-IsSound tmp r)))))))

    manifest-IsSound : Yields IsSound (unpack_manifest env res ref digest base)
    unfolding unpack_manifest
    manifest-IsSound = Yields-bind (env.fetch_manifest digest) _ (λ bytes.
        on_error-IsSound res bytes _ h (λ text.
          on_error-IsSound res (env.decode_manifest text) _ h
            (λ layers. layers-IsSound layers _ (λ layer. unpack-IsSound layer))))

  copies-IsSound :
      (res : OciResult) (ref reference base : String) (c : Copied)
      → Starts res
      → is_digest reference ≡ true
      → Counts c
      → Yields IsSound (after_copies env res ref reference base c)
  unfolding after_copies downloaded_result
  copies-IsSound res ref reference base (cancelled error time) h pinned n =
      Yields-pure _ (record { tried = h.1; outcome = h.0 })
  copies-IsSound res ref reference base (gave_up error m time) h pinned n =
      Yields-pure _ (with_error-IsSound (attempted env res m time) error (h.0, (m, (refl, n))))
  copies-IsSound res ref reference base (copied digest m time) h pinned n =
      let res' = downloaded_result (attempted env res m time) reference in
      Yields-if (digest == reference) _ _
        (manifest-IsSound res' ref reference base (h.0, (m, (refl, n))) pinned)
        (Yields-pure _ (
          with_reason-IsSound res' "DigestMismatch" (mismatch digest reference)
            (h.0, (m, (refl, n)))))

  fetch_new-IsSound :
      (res : OciResult) (ref : String) (parsed : Reference) (base : String)
      → Starts res
      → is_digest parsed.reference ≡ true
      → Yields IsSound (fetch_new env res ref parsed base)
  unfolding fetch_new
  fetch_new-IsSound res ref parsed base h pinned = Yields-bind (env.new_store base) _ (λ store.
      on_bare-IsSound res store _ h (λ u.
        Yields-bind
          (env.new_repository (join (parsed.registry ∷ "/" ∷ parsed.repository ∷ []))
            (allow_plain_http env parsed.registry))
          _
          (λ repository. on_bare-IsSound res repository _ h (λ v.
            Yields-bind_value Counts (copy_from env parsed.reference 3 0 "" "") _
              (copy_from-Counts parsed.reference 3 0 "" "" (omega arith))
              (λ c n. copies-IsSound res ref parsed.reference base c h pinned n)))))

  cached-IsSound :
      (hit : Bool) (res : OciResult) (rootfs digest : String) (more : State W Ensured)
      → Starts res
      → is_digest digest ≡ true
      → Yields IsSound more
      → Yields IsSound (cached_or hit (cached_result res rootfs digest) more)
  unfolding cached_result
  cached-IsSound true res rootfs digest more h pinned k =
      Yields-pure (cached_result res rootfs digest, none)
        (record { tried = h.1; outcome = (refl, (refl, (refl, pinned))) })
  cached-IsSound false res rootfs digest more h pinned k = k

  with_lock-IsSound :
      (res : OciResult) (path : String) (body : State W Ensured)
      → Starts res
      → Yields IsSound body
      → Yields IsSound (with_lock env res path body)
  unfolding with_lock
  with_lock-IsSound res path body h y = Yields-bind (env.open_lock path) _ (λ opened.
      on_bare-IsSound res opened _ h (λ u. Yields-finally _ (env.close_lock path) (
        Yields-bind (env.flock path) _
          (λ taken. on_bare-IsSound res taken _ h (λ v. Yields-finally body (env.unlock path) y)))))

  pinned-IsSound :
      (res : OciResult) (ref : String) (parsed : Reference) (base : String)
      → Starts res
      → is_digest parsed.reference ≡ true
      → Yields IsSound (fetch_pinned env res ref parsed base)
  unfolding fetch_pinned fetch_locked
  pinned-IsSound res ref parsed base h pinned = Yields-bind (env.mkdir_all base 0o755) _ (λ made.
      on_bare-IsSound res made _ h (λ u.
        with_lock-IsSound res (env.join_path base ".lock") (fetch_locked env res ref parsed base) h
          (Yields-bind (is_cached env base) _ (λ hit.
            cached-IsSound hit res (env.join_path base "rootfs") parsed.reference _ h pinned
              (fetch_new-IsSound res ref parsed base h pinned)))))

  -- A result that nothing was tried for.
  untouched-IsSound : (text : String) → IsSound (first_result, some text)
  unfolding first_result
  untouched-IsSound text = record { tried = (0, (refl, omega arith)); outcome = refl }

  first-Starts : Starts first_result
  unfolding first_result
  first-Starts = (refl, (0, (refl, omega arith)))

  parse-IsSound :
      (root ref : String) (r : Result Reference) → Yields IsSound (after_parse env root ref r)
  unfolding after_parse
  parse-IsSound root ref (err e) = Yields-pure _ (untouched-IsSound _)
  parse-IsSound root ref (ok parsed) = elim (Bool-cases (is_digest parsed.reference)) [
    | inl pinned ↦ rw pinned (
        pinned-IsSound first_result ref parsed
          (env.join_path root (trim_prefix "sha256:" parsed.reference)) first-Starts pinned)
    | inr other ↦ rw other (Yields-pure _ (untouched-IsSound (not_pinned parsed.reference)))
  ]

  -- The fetcher returns behind at most three attempts. Without an error the artifact is downloaded and
  -- verified, under a digest of 64 hexadecimal digits, and no last error is left; with an error it is
  -- not verified. This holds for every reference, answer of the registry and failure of the files.
  pub ensure-IsSound : (root ref : String) → Yields IsSound (ensure env root ref)
  unfolding ensure
  ensure-IsSound root ref = parse-IsSound root ref (env.parse_reference (trim_space ref))
