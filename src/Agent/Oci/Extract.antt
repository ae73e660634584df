-- ===== src/Agent/Oci/Extract.antt =====
-- agent/artifact_oci.go: extractLayer. The quoted names in the texts of errors are as they are.
pub mod Bounds
pub mod Inside
pub mod Metered
use Prim.Native.String
use praetor.Base.{
  ℕ, ◌+◌, suc, Bool, true, false, not, ◌&&◌, ◌||◌, Option, none, some, String, ◌==◌, ltb,
  if◌then◌else◌, has_prefix, join, [], ◌∷◌,
}
use praetor.Base.Text.{contains}
use praetor.Base.Decimal.{format_nat}
use praetor.Base.Result.{Result, ok, err}
use praetor.Base.Act.State.{State, pure, ◌>>=◌}
use praetor.Agent.Env.{error_text}
use praetor.Agent.Oci.{
  OciEnv, Header, Kind, directory, regular, unsupported, Tar, eof, broken, entry,
}

abbrev pub max_extract_entries : ℕ
max_extract_entries = 10000

-- 512 << 20
abbrev pub max_extract_bytes : ℕ
max_extract_bytes = 536870912

-- The bytes written; or an error with a text, or with a reason and a text.
pub data Extracted : Type 0 where
  extracted : ℕ → Extracted
  plain : String → Extracted
  refused : (reason msg : String) → Extracted

abbrev pub quoted : String → String → String
quoted text name = join (text ∷ "\"" ∷ name ∷ "\"" ∷ [])

-- The error of the copy, which the loop looks at behind the limit.
abbrev pub copied : ℕ → Option String → Extracted
copied total none = extracted total
copied total (some text) = plain text

-- Behind the copy of a file: the new total.
unfoldable pub after_copy : ℕ → ℕ × Option String → Extracted
unfolding join format_nat
after_copy total (n, error) =
    if ltb max_extract_bytes (total + n)
    then refused "ExtractLimitExceeded" (
        join (
          "extraction aborted: size "
          ∷ format_nat (total + n)
          ∷ " exceeds limit "
          ∷ format_nat max_extract_bytes
          ∷ []))
    else copied (total + n) error

unfoldable pub is_inside : String → String → Bool
unfolding has_prefix
is_inside dest target = has_prefix target (String.◌++◌ dest "/")

unfoldable pub too_many : ℕ → Extracted
unfolding join format_nat
too_many entries = refused "ExtractLimitExceeded" (
    join (
      "extraction aborted: too many entries ("
      ∷ format_nat entries
      ∷ " > "
      ∷ format_nat max_extract_entries
      ∷ ")"
      ∷ []))

abbrev pub made : ℕ → Result (Unit {0}) → Extracted
made total (ok _) = extracted total
made total (err e) = plain (error_text e)

module _ {W : Type 0} (env : OciEnv W) where
  unfoldable pub is_unsafe : String → Bool
  unfolding has_prefix contains
  is_unsafe name = env.is_abs name || has_prefix name ".." || contains name "../"

  unfoldable pub after_create : String → Header → ℕ → Result (Unit {0}) → State W Extracted
  unfolding after_copy
  after_create target hdr total (err e) = pure (plain (error_text e))
  after_create target hdr total (ok _) = do
    answer ← env.copy_content target hdr
    pure (after_copy total answer)

  unfoldable pub after_parent : String → Header → ℕ → Result (Unit {0}) → State W Extracted
  unfolding after_create
  after_parent target hdr total (err e) = pure (plain (error_text e))
  after_parent target hdr total (ok _) = do
    created ← env.create_file target hdr.perm
    after_create target hdr total created

  -- The switch on the type flag.
  unfoldable pub write_entry : String → Header → ℕ → Kind → State W Extracted
  unfolding after_parent format_nat join
  write_entry target hdr total directory = do r ← env.mkdir_all target hdr.perm; pure (made total r)
  write_entry target hdr total regular = do
    r ← env.mkdir_all (env.dir target) 0o755
    after_parent target hdr total r
  write_entry target hdr total (unsupported flag) = pure (
      refused "UnsupportedEntryType"
        (quoted (join ("unsupported entry type " ∷ format_nat flag ∷ " for " ∷ [])) hdr.name))

  -- One entry of the archive, behind the count of the entries.
  unfoldable pub extract_entry : String → Header → ℕ → State W Extracted
  unfolding is_unsafe is_inside write_entry join
  extract_entry dest hdr total =
      let name = env.clean hdr.name in
      let target = env.join_path dest name in
      if name == "." || name == ""
      then pure (extracted total)
      else if is_unsafe name
      then pure (refused "InvalidPath" (quoted "rejecting unsafe path " hdr.name))
      else if is_inside dest target
      then write_entry target hdr total hdr.kind
      else pure (refused "InvalidPath" (quoted "rejecting path outside rootfs: " hdr.name))

  -- The loop goes on with a total, and ends with an error.
  abbrev pub go_on : Extracted → (ℕ → State W Extracted) → State W Extracted
  go_on (extracted total) k = k total
  go_on (plain text) k = pure (plain text)
  go_on (refused reason msg) k = pure (refused reason msg)

  unfoldable pub extract_entries : String → Tar → (entries total : ℕ) → State W Extracted
  unfolding extract_entry too_many
  extract_entries dest eof entries total = pure (extracted total)
  extract_entries dest (broken text) entries total = pure (plain text)
  extract_entries dest (entry hdr rest) entries total =
      if ltb max_extract_entries (suc entries)
      then pure (too_many (suc entries))
      else (extract_entry dest hdr total >>= λ r.
          go_on r (λ (t : ℕ). extract_entries dest rest (suc entries) t))

  unfoldable pub after_read : String → Result Tar → State W Extracted
  unfolding extract_entries
  after_read dest (err e) = pure (plain (error_text e))
  after_read dest (ok tar) = extract_entries dest tar 0 0
