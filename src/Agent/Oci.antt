-- ===== src/Agent/Oci.antt =====
-- agent/artifact_oci.go: what the fetcher calls and does not implement, and its small functions.
-- Texts of errors are ASCII.
pub mod Extract
pub mod Results
pub mod Ensure
pub mod Tests
use Prim.Native.Char.{Char, code}
use praetor.Base.{
  ℕ, ◌+◌, ◌*◌, ◌/◌, ◌%◌, ◌^◌, Bool, true, false, ◌&&◌, ◌||◌, Option, none, some, get_or, List, [],
  ◌∷◌, String, ◌==◌, eqb, leb, ltb, if◌then◌else◌, trim_space, split,
}
use praetor.Base.Int.{ℤ}
use praetor.Base.Result.{Result}
use praetor.Base.Text.{text_length, text_take, contains, after_prefix}
use praetor.Base.TextChars.{all_chars}
use praetor.Api.{Time}
use praetor.Agent.Run.{max_backoff}
use praetor.Agent.Actions.{seconds}

-- registry.ParseReference
pub record Reference : Type 0 where
  pub registry : String
  pub repository : String
  pub reference : String

-- An error of oras.Copy, as isRetryable looks at it.
pub record CopyError : Type 0 where
  pub text : String
  pub deadline_exceeded : Bool
  pub timeout_or_temporary : Bool

pub record Layer : Type 0 where
  pub media_type : String
  pub digest : String

-- A tar header; the type flag is that of a directory, of a regular file, or another.
pub data Kind : Type 0 where
  directory regular : Kind
  unsupported : ℕ → Kind

pub record Header : Type 0 where
  pub name : String
  pub kind : Kind
  pub perm : ℕ

-- What a tar reader yields: io.EOF, an error, or a header and the rest. The content is copied from
-- the reader where a file is written.
pub data Tar : Type 0 where
  eof : Tar
  broken : String → Tar
  entry : Header → Tar → Tar

pub record OciEnv (W : Type 0) : Type 0 where
  pub parse_reference : String → Result Reference
  -- nowFunc, and its formats
  pub now : W → Time × W
  pub format_rfc3339 : Time → String
  pub format_nano : Time → String
  -- os.Stat: whether it is a directory, `none` for an error
  pub stat : String → W → Option Bool × W
  pub mkdir_all : String → ℕ → W → Result (Unit {0}) × W
  pub open_lock : String → W → Result (Unit {0}) × W
  pub close_lock : String → W → Result (Unit {0}) × W
  pub flock : String → W → Result (Unit {0}) × W
  pub unlock : String → W → Result (Unit {0}) × W
  -- oci.New and newRemoteRepository, with the flag PlainHTTP
  pub new_store : String → W → Result (Unit {0}) × W
  pub new_repository : String → Bool → W → Result (Unit {0}) × W
  -- orasCopy of a reference: the digest of the descriptor
  pub copy : String → W → (String × Option CopyError) × W
  -- the wait for a duration: the error of the context, where that ends first
  pub wait : Time → W → Option String × W
  -- content.FetchAll of a digest and json.Unmarshal: the layers of the manifest
  pub fetch_manifest : String → W → Result String × W
  pub decode_manifest : String → Result (List Layer)
  -- store.Fetch, and tar.NewReader of it, behind gzip.NewReader where the flag is set
  pub fetch_layer : Layer → W → Result (Unit {0}) × W
  pub read_tar : Bool → Layer → W → Result Tar × W
  pub create_file : String → ℕ → W → Result (Unit {0}) × W
  -- io.Copy: the bytes copied, and the error; the file is closed
  pub copy_content : String → Header → W → (ℕ × Option String) × W
  pub remove_all : String → W → Result (Unit {0}) × W
  pub rename : String → String → W → Result (Unit {0}) × W
  pub write_file : String → String → ℕ → W → Result (Unit {0}) × W
  -- the JSON of the meta data: reference, digest, size, time
  pub marshal_meta : String → String → ℕ → String → String
  pub join_path : String → String → String
  pub dir : String → String
  pub clean : String → String
  pub is_abs : String → Bool
  pub to_lower : String → String
  pub getenv : String → String
  -- net.SplitHostPort: the host
  pub split_host : String → Option String

abbrev is_hex : Char → Bool
is_hex c =
    let n = code c in
    (leb b'A' n && leb n b'F') || (leb b'a' n && leb n b'f') || (leb b'0' n && leb n b'9')

abbrev digits_fit : Option String → Bool
digits_fit none = false
digits_fit (some digits) = eqb (text_length digits) 64 && all_chars is_hex digits

-- digestPattern.MatchString
unfoldable pub is_digest : String → Bool
unfolding after_prefix text_length all_chars
is_digest s = digits_fit (after_prefix "sha256:" s)

unfoldable pub error_string : String → String
unfolding trim_space text_length text_take
error_string text =
    let msg = trim_space text in if ltb 300 (text_length msg) then text_take 300 msg else msg

-- The base of the backoff behind an attempt, counted from 0.
unfoldable pub backoff_base : ℕ → Time
backoff_base attempt =
    let base = seconds (2 ^ attempt) in if ltb max_backoff base then max_backoff else base

module _ {W : Type 0} (env : OciEnv W) where
  unfoldable pub is_retryable : CopyError → Bool
  unfolding contains
  is_retryable e =
      let s = env.to_lower e.text in
      e.deadline_exceeded
      || e.timeout_or_temporary
      || contains s "429"
      || contains s "too many requests"
      || contains s " 5"
      || contains s "internal server error"

  -- The jitter is the clock modulo half the base.
  unfoldable pub backoff_duration : ℕ → W → Time × W
  unfolding backoff_base
  backoff_duration attempt w =
      let (t, w') = env.now w in (backoff_base attempt + t % (backoff_base attempt / 2), w')

  -- Whether a host is in a list that is separated by commas.
  unfoldable pub has_host : String → List String → Bool
  unfolding trim_space
  has_host host [] = false
  has_host host (h ∷ hosts) =
      let clean = trim_space h in
      let lower = env.to_lower clean in
      (if lower == "" then false else lower == host) || has_host host hosts

  unfoldable pub allow_plain_http : String → Bool
  unfolding trim_space split has_host
  allow_plain_http registry =
      let flag = env.to_lower (trim_space (env.getenv "APOLLO_OCI_PLAIN_HTTP")) in
      let host = env.to_lower (get_or (env.split_host registry) registry) in
      flag == "1"
      || flag == "true"
      || has_host host (split b',' (trim_space (env.getenv "APOLLO_OCI_PLAIN_HTTP_HOSTS")))
