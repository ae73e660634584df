-- ===== src/Agent/Oci/Extract/Bounds.antt =====
-- The limits of the extraction.
use mathlib.Core.Path.{subst}
use praetor.Base.{ℕ, suc, ◌+◌, ◌≤◌, ◌≡◌, inl, inr, Bool-cases, String, ltb, arith}
use praetor.Base.Act.State.{State}
use praetor.Agent.Oci.{OciEnv, Tar, eof, broken, entry}
use praetor.Agent.Oci.Extract.{
  max_extract_entries, max_extract_bytes, Extracted, extracted, plain, refused, too_many,
  extract_entry, go_on, extract_entries,
}
use praetor.Agent.Oci.Extract.Metered.{Metered, CountsBytes, extract_entry-Spends}

-- The entries of an archive.
abbrev pub headers : Tar → ℕ
headers eof = 0
headers (broken text) = 0
headers (entry hdr rest) = suc (headers rest)

-- Together with the number of the entries.
abbrev Fits : (total n before after : ℕ) → Extracted → Type 0
Fits total n before after (extracted t) =
    (after + total ≤ before + t) × ((t ≤ max_extract_bytes) × (n ≤ max_extract_entries))
Fits total n before after (plain text) = Unit
Fits total n before after (refused reason msg) = Unit

Fits-later :
    (total t n before middle after : ℕ) (r : Extracted)
    → middle + total ≤ before + t
    → Fits t n middle after r
    → Fits total n before after r
Fits-later total t n before middle after (extracted u) h fits = (omega (arith, fits.0), fits.1)
Fits-later total t n before middle after (plain text) h fits = tt
Fits-later total t n before middle after (refused reason msg) h fits = tt

module _ {W : Type 0} (env : OciEnv W) (written : W → ℕ) where
  module _ (counts : CountsBytes env written) where
    go_on-Fits :
        (total n before : ℕ) (r : Extracted) (k : ℕ → State W Extracted) (w : W)
        → Metered total before (written w) r
        → ((t : ℕ) → t ≤ max_extract_bytes → Fits t n (written w) (written (k t w).1) (k t w).0)
        → Fits total n before (written (go_on env r k w).1) (go_on env r k w).0
    go_on-Fits total n before (extracted t) k w h more =
        Fits-later total t n before (written w) (written (k t w).1) (k t w).0 h.0 (more t h.1)
    go_on-Fits total n before (plain text) k w h more = tt
    go_on-Fits total n before (refused reason msg) k w h more = tt

    entries-Fits :
        (dest : String) (tar : Tar) (entries total : ℕ) (w : W)
        → entries ≤ max_extract_entries
        → total ≤ max_extract_bytes
        → Fits total
            (entries + headers tar)
            (written w)
            (written (extract_entries env dest tar entries total w).1)
            (extract_entries env dest tar entries total w).0
    unfolding extract_entries too_many
    entries-Fits dest eof entries total w count size = (omega arith, (size, omega arith))
    entries-Fits dest (broken text) entries total w count size = tt
    entries-Fits dest (entry hdr rest) entries total w count size =
        let moved : entries + suc (headers rest) ≡ suc entries + headers rest = omega arith in
        let first = extract_entry env dest hdr total w in
        elim (Bool-cases (ltb max_extract_entries (suc entries))) [
          | inl e ↦ rw e tt
          | inr e ↦
              let room : suc entries ≤ max_extract_entries = ground arith in
              rw e (
                rw moved (
                  go_on-Fits total (suc entries + headers rest) (written w) first.0
                    (λ t. extract_entries env dest rest (suc entries) t) first.1
                    ((extract_entry-Spends env written counts dest hdr total size).at (written w) w
                      (omega arith))
                    (λ t fits. entries-Fits dest rest (suc entries) t first.1 room fits)))
        ]

  -- An extraction that succeeds has read at most 10000 entries; the bytes that it has written in all
  -- are at most the total that it returns, and this is at most 512 MiB.
  abbrev pub FitsAll : (n : ℕ) (w : W) → Extracted × W → Type 0
  FitsAll n w (extracted total, w') =
      (written w' ≤ written w + total) × ((total ≤ max_extract_bytes) × (n ≤ max_extract_entries))
  FitsAll n w (plain text, w') = Unit
  FitsAll n w (refused reason msg, w') = Unit

  FitsAll-of :
      (n : ℕ) (w w' : W) (r : Extracted) → Fits 0 n (written w) (written w') r → FitsAll n w (r, w')
  FitsAll-of n w w' (extracted total) h = (omega (arith, h.0), h.1)
  FitsAll-of n w w' (plain text) h = tt
  FitsAll-of n w w' (refused reason msg) h = tt

  -- For every archive, an extraction that succeeds has read all its entries, at most 10000, and has
  -- written at most 512 MiB over all its files: no more than the total that it returns. The bytes
  -- written are any count of the world that grows with io.Copy by no more than what io.Copy returns.
  pub extract_entries-FitsAll :
      CountsBytes env written
      → (dest : String) (tar : Tar) (w : W)
      → FitsAll (headers tar) w (extract_entries env dest tar 0 0 w)
  extract_entries-FitsAll counts dest tar w =
      let ended = extract_entries env dest tar 0 0 w in
      let all : 0 + headers tar ≡ headers tar = omega arith in
      FitsAll-of (headers tar) w ended.1 ended.0 (
        subst (λ n. Fits 0 n (written w) (written ended.1) ended.0) all
          (entries-Fits counts dest tar 0 0 w (omega arith) (omega arith)))
