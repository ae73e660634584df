-- ===== src/Agent/Oci/Tests.antt =====
-- Runs of the fetcher over a world that logs the paths it is asked to write.
use Prim.Native.String
use praetor.Base.{
  ◌≡◌, refl, inl, inr, ◌⊎◌, ◌*◌, ℕ, true, false, none, some, List, [], ◌∷◌, String, has_prefix, All,
  arith,
}
use praetor.Base.Result.{Result, ok}
use praetor.Agent.Oci.{OciEnv, Header, directory, regular, Tar, eof, entry, is_retryable}
use praetor.Agent.Oci.Extract.{refused, is_inside, extract_entries}
use praetor.Agent.Oci.Extract.Metered.{CountsBytes}
use praetor.Base.Lists.{length}
use praetor.Agent.Oci.Extract.Bounds.{headers, FitsAll, extract_entries-FitsAll}
use praetor.Agent.Oci.Extract.Inside.{WritesInsideKeep, extract_entries-Preserves}
use praetor.Agent.Oci.Ensure.{is_cached, ensure}
use praetor.Agent.Oci.Ensure.Verified.{IsSound}
use praetor.Agent.Oci.Ensure.Accepts.{IsVouched, Good}
use praetor.Agent.Oci.Ensure.Checked.{ensure-Good}

abbrev World : Type 0
World = List String

abbrev done : World → Result (Unit {0}) × World
done w = (ok tt, w)

abbrev note : String → World → Result (Unit {0}) × World
note path w = (ok tt, path ∷ w)

abbrev digest : String
digest = "sha256:0123456789abcdef0123456789abcdef0123456789abcdef0123456789abcdef"

abbrev binary : Header
binary = record { name = "bin/agent"; kind = regular; perm = 0o755 }

abbrev archive : Tar
archive = entry (record { name = "bin"; kind = directory; perm = 0o755 }) (entry binary eof)

abbrev escaping : Tar
escaping =
    entry binary (entry (record { name = "../etc/passwd"; kind = regular; perm = 0o644 }) eof)

abbrev env : OciEnv World
env = record {
  parse_reference =
      λ s. ok (record { registry = "r:5000"; repository = "agent"; reference = digest });
  now = λ w. (5, w);
  format_rfc3339 = λ t. "T5";
  format_nano = λ t. "5";
  stat = λ p w. (none, w);
  mkdir_all = λ p n w. note p w;
  open_lock = λ p w. done w;
  close_lock = λ p w. done w;
  flock = λ p w. done w;
  unlock = λ p w. done w;
  new_store = λ p w. done w;
  new_repository = λ p plain w. done w;
  copy = λ r w. ((digest, none), w);
  wait = λ d w. (none, w);
  fetch_manifest = λ d w. (ok "m", w);
  decode_manifest = λ s. ok (record { media_type = "tar"; digest = "l" } ∷ []);
  fetch_layer = λ l w. done w;
  read_tar = λ gz l w. (ok archive, w);
  create_file = λ p n w. note p w;
  copy_content = λ p h w. ((7, none), w);
  remove_all = λ p w. done w;
  rename = λ p q w. done w;
  write_file = λ p s n w. note p w;
  marshal_meta = λ r d n t. "{}";
  join_path = λ a b. String.◌++◌ a (String.◌++◌ "/" b);
  dir = λ p. p;
  clean = λ p. p;
  is_abs = λ p. has_prefix p "/";
  to_lower = λ s. s;
  getenv = λ s. "";
  split_host = λ s. some "r";
}

-- The second entry is refused, behind the first, which was written.
climbing_refused : extract_entries env "/d" escaping 0 0 [] ≡ (
  refused "InvalidPath" "rejecting unsafe path \"../etc/passwd\"",
  "/d/bin/agent" ∷ "/d/bin/agent" ∷ [],
)
unfolding extract_entries has_prefix
climbing_refused = refl

-- Each copy counts for as many bytes as it returns.
abbrev written : World → ℕ
written w = length w * 7

abbrev counting : OciEnv World
counting = record env {
  mkdir_all = λ p n w. done w;
  create_file = λ p n w. done w;
  copy_content = λ p h w. ((7, none), p ∷ w);
}

counting-CountsBytes : CountsBytes counting written
counting-CountsBytes = record {
  copies = λ target hdr w. omega arith;
  creates = λ target perm w. omega arith;
  makes = λ target perm w. omega arith;
}

extract_entries-FitsAll_example :
    FitsAll counting written (headers archive) [] (extract_entries counting "/d" archive 0 0 [])
extract_entries-FitsAll_example =
    extract_entries-FitsAll counting written counting-CountsBytes "/d" archive []

-- Every path that was written lies below the destination.
abbrev AllBelow : World → Type 0
AllBelow = All (λ p. is_inside "/d" p ≡ true)

inside : WritesInsideKeep env AllBelow "/d"
inside = record {
  makes = λ target perm w below p. (below, p);
  makes_parent = λ target w below p. (below, p);
  creates = λ target perm w below p. (below, p);
  copies = λ target hdr w below p. p;
}

extract_entries-Preserves_example : AllBelow (extract_entries env "/d" escaping 0 0 []).1
extract_entries-Preserves_example =
    extract_entries-Preserves env AllBelow "/d" inside escaping 0 0 [] tt

fetched : (ensure env "/root" "r:5000/agent@sha256:01" []).0.1 ≡ none
unfolding ensure
fetched = refl

-- A registry that answers the wanted digest, and logs that it did.
abbrev answering : OciEnv World
answering = record env { copy = λ r w. ((digest, none), "copied" ∷ w) }

abbrev WasCopied : World → Type 0
WasCopied [] = ⊥
WasCopied (line ∷ w) = (line ≡ "copied") ⊎ WasCopied w

answering-IsVouched : IsVouched answering WasCopied digest
unfolding is_cached
answering-IsVouched = record {
  copied = λ w h. inl refl;
  cached = λ base w h. cc;
  now = λ w q. q;
  fetches_manifest = λ w q. q;
  fetches_layer = λ layer w q. q;
  reads = λ zipped layer w q. q;
  makes = λ path perm w q. inr q;
  creates = λ path perm w q. inr q;
  extracts = λ path hdr w q. q;
  removes = λ path w q. q;
  renames = λ old new w q. q;
  writes = λ path text perm w q. inr q;
  unlocks = λ path w q. q;
  closes = λ path w q. q;
}

ensure-Good_example :
    IsSound (ensure answering "/root" "r:5000/agent@sha256:01" []).0
    × Good answering WasCopied digest
        (ensure answering "/root" "r:5000/agent@sha256:01" []).0
        (ensure answering "/root" "r:5000/agent@sha256:01" []).1
ensure-Good_example =
    ensure-Good answering WasCopied "/root" "r:5000/agent@sha256:01"
      (record { registry = "r:5000"; repository = "agent"; reference = digest }) [] refl
      answering-IsVouched

-- Any text with a blank in front of a 5 counts as an error of the server.
retried_for_a_5 :
    is_retryable env (record {
      text = "unauthorized: retry 5 is not a status";
      deadline_exceeded = false;
      timeout_or_temporary = false;
    })
    ≡ true
unfolding is_retryable
retried_for_a_5 = refl
