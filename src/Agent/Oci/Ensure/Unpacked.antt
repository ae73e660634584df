-- ===== src/Agent/Oci/Ensure/Unpacked.antt =====
-- The steps of Ensure behind the check of the digest.
use Prim.Native.String
use praetor.Base.{refl, ℕ, none, List, [], ◌∷◌, String}
use praetor.Base.Text.{contains}
use praetor.Base.Result.{Result, ok, err}
use praetor.Base.Act.State.{State, pure, ◌>>=◌}
use praetor.Agent.Env.{OciResult}
use praetor.Agent.Oci.{OciEnv, Layer, Tar}
use praetor.Agent.Oci.Extract.{Extracted, extracted, plain, refused, after_read}
use praetor.Agent.Oci.Extract.Inside.{extract_entries-Preserves}
use praetor.Agent.Oci.Results.{Ensured, verified_result, with_error, with_reason}
use praetor.Agent.Oci.Ensure.{mark_ready, install, check_layers, unpack, unpack_manifest}
use praetor.Agent.Oci.Ensure.Accepts.{
  IsVouched, Accepts, Accepts-bind, on_error-Accepts, on_error_remove-Accepts,
}

module _ {W : Type 0} (env : OciEnv W) {Q : W → Type 0} {reference : String}
    (vouched : IsVouched env Q reference) where
  read_keeps : (dest : String) (r : Result Tar) (w : W) → Q w → Q (after_read env dest r w).1
  unfolding after_read
  read_keeps dest (err e) w q = q
  read_keeps dest (ok tar) w q =
      extract_entries-Preserves env Q dest
        (record {
          makes = λ target perm w below q. vouched.makes target perm w q;
          makes_parent = λ target w below q. vouched.makes (env.dir target) 0o755 w q;
          creates = λ target perm w below q. vouched.creates target perm w q;
          copies = λ target hdr w below q. vouched.extracts target hdr w q;
        })
        tar 0 0 w q

  -- Behind the check every step keeps `Q`.
  module _ (res : OciResult) (ref base : String) where
    then_kept :
        {B : Type 0} (m : State W B) (f : B → State W Ensured)
        → ((w : W) → Q w → Q (m w).1)
        → ((b : B) → Accepts env Q reference Q (f b))
        → Accepts env Q reference Q (m >>= f)
    then_kept m f keep more = Accepts-bind env Q reference (λ b. Q) m f keep more

    done_well :
        Accepts env Q reference Q
          (pure (verified_result res (env.join_path base "rootfs") reference, none))
    unfolding verified_result
    done_well = record { at = λ w q. (refl, q) }

    mark_ready-Accepts :
        (size : ℕ) → Accepts env Q reference Q (mark_ready env res ref reference base size)
    unfolding mark_ready
    mark_ready-Accepts size = then_kept env.now _ vouched.now (λ t.
        then_kept
          (env.write_file (env.join_path base "meta.json")
            (env.marshal_meta ref reference size (env.format_rfc3339 t)) 0o644)
          _ (vouched.writes _ _ 0o644)
          (λ written. on_error-Accepts env Q reference res written _ (λ u.
            then_kept (env.write_file (env.join_path base "READY") "ok\n" 0o644) _
              (vouched.writes _ _ 0o644)
              (λ marked. on_error-Accepts env Q reference res marked _ (λ v. done_well)))))

    install-Accepts :
        (tmp : String) (r : Extracted)
        → Accepts env Q reference Q (install env res ref reference base tmp r)
    unfolding install with_error
    install-Accepts tmp (plain text) = record { at = λ w q. tt }
    install-Accepts tmp (refused reason msg) = record { at = λ w q. tt }
    install-Accepts tmp (extracted size) =
        then_kept (env.remove_all (env.join_path base "rootfs")) _ (vouched.removes _) (λ cleared.
          on_error_remove-Accepts env Q reference res tmp cleared _ (λ u.
            then_kept (env.rename tmp (env.join_path base "rootfs")) _ (vouched.renames _ _)
              (λ moved.
                on_error_remove-Accepts env Q reference res tmp moved _
                  (λ v. mark_ready-Accepts size))))

    unpack-Accepts :
        (layer : Layer) → Accepts env Q reference Q (unpack env res ref reference base layer)
    unfolding unpack
    unpack-Accepts layer =
        then_kept (env.fetch_layer layer) _ (vouched.fetches_layer layer) (λ fetched.
          on_error-Accepts env Q reference res fetched _ (λ u. then_kept env.now _ vouched.now (λ t.
            let tmp = env.join_path base (String.◌++◌ "rootfs.tmp." (env.format_nano t)) in
            then_kept (env.mkdir_all tmp 0o755) _ (vouched.makes tmp 0o755) (λ made.
              on_error-Accepts env Q reference res made _ (λ v.
                then_kept (env.read_tar (contains (env.to_lower layer.media_type) "gzip") layer) _
                  (vouched.reads _ layer)
                  (λ tar.
                    then_kept (after_read env tmp tar) _ (read_keeps tmp tar)
                      (λ r. install-Accepts tmp r)))))))

    layers-Accepts :
        (layers : List Layer)
        → Accepts env Q reference Q
            (check_layers env res layers (λ layer. unpack env res ref reference base layer))
    unfolding check_layers with_reason
    layers-Accepts [] = record { at = λ w q. tt }
    layers-Accepts (layer ∷ []) = unpack-Accepts layer
    layers-Accepts (layer ∷ second ∷ layers) = record { at = λ w q. tt }

    pub manifest-Accepts : Accepts env Q reference Q (unpack_manifest env res ref reference base)
    unfolding unpack_manifest
    manifest-Accepts = then_kept (env.fetch_manifest reference) _ vouched.fetches_manifest (λ bytes.
        on_error-Accepts env Q reference res bytes _ (λ text.
          on_error-Accepts env Q reference res (env.decode_manifest text) _
            (λ layers. layers-Accepts layers)))
