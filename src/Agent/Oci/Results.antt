-- ===== src/Agent/Oci/Results.antt =====
-- agent/artifact_oci.go: the results of Ensure.
use praetor.Base.{ℕ, true, false, Option, some, [], ◌∷◌, String, join}
use praetor.Base.Int.{pos}
use praetor.Agent.Env.{OciResult}
use praetor.Agent.Oci.{error_string}

-- The result and the text of the error.
abbrev pub Ensured : Type 0
Ensured = OciResult × Option String

-- The result that Ensure starts with.
unfoldable pub first_result : OciResult
first_result = record {
  digest = "";
  rootfs_path = "";
  attempts = pos 0;
  last_attempt_time = "";
  last_error = "";
  downloaded = false;
  verified = false;
  download_reason = "ArtifactDownloadFailed";
  download_message = "";
  verify_reason = "ArtifactVerifyFailed";
  verify_message = "";
}

unfoldable pub cached_result : OciResult → String → String → OciResult
cached_result res rootfs digest = record res {
  rootfs_path = rootfs;
  digest = digest;
  downloaded = true;
  verified = true;
  download_reason = "ArtifactDownloaded";
  download_message = "artifact cached";
  verify_reason = "ArtifactVerified";
  verify_message = "artifact cached";
  last_error = "";
}

unfoldable pub downloaded_result : OciResult → String → OciResult
downloaded_result res digest = record res {
  downloaded = true;
  download_reason = "ArtifactDownloaded";
  download_message = "artifact downloaded";
  digest = digest;
}

unfoldable pub verified_result : OciResult → String → String → OciResult
verified_result res rootfs digest = record res {
  rootfs_path = rootfs;
  digest = digest;
  downloaded = true;
  verified = true;
  verify_reason = "ArtifactVerified";
  verify_message = "artifact verified";
  last_error = "";
}

-- An error that is only kept as the last one.
unfoldable pub with_error : OciResult → String → Ensured
unfolding error_string
with_error res text = (record res { last_error = error_string text }, some text)

-- An error whose text is both the last error and the message, with a reason.
unfoldable pub with_reason : OciResult → String → String → Ensured
with_reason res reason text =
    (record res { last_error = text; verify_reason = reason; verify_message = text }, some text)

-- What the loop over the attempts ends with: the digest that was copied, an error, or the end of the
-- context, each with the number of attempts and the time of the last.
pub data Copied : Type 0 where
  copied : String → ℕ → String → Copied
  gave_up : String → ℕ → String → Copied
  cancelled : String → String → Copied

-- The digest of the manifest is not the wanted one.
unfoldable pub mismatch : String → String → String
unfolding join
mismatch digest reference =
    join ("unexpected manifest digest " ∷ digest ∷ " (want " ∷ reference ∷ ")" ∷ [])

unfoldable pub not_pinned : String → String
unfolding join
not_pinned reference = join ("oci ref must be pinned by digest (got \"" ∷ reference ∷ "\")" ∷ [])
