-- ===== src/Agent/Oci/Extract/Metered.antt =====
-- The bytes that the extraction of one entry writes.
use praetor.Base.{
  ℕ, Bool, true, false, if◌then◌else◌, ◌+◌, ◌≤◌, ◌||◌, inl, inr, Bool-cases, Option, none, some,
  String, ◌==◌, ltb, arith,
}
use praetor.Base.Result.{Result, ok, err}
use praetor.Base.Act.State.{State, pure, ◌>>=◌}
use praetor.Agent.Oci.{OciEnv, Header, Kind, directory, regular, unsupported}
use praetor.Agent.Oci.Extract.{
  max_extract_bytes, Extracted, extracted, plain, refused, copied, after_copy, is_inside, made,
  is_unsafe, after_create, after_parent, write_entry, extract_entry,
}

-- What an extraction that goes on says of the bytes written before it and behind it: they are in the
-- total, which is within the limit.
abbrev pub Metered : (total before after : ℕ) → Extracted → Type 0
Metered total before after (extracted t) = (after + total ≤ before + t) × (t ≤ max_extract_bytes)
Metered total before after (plain text) = Unit
Metered total before after (refused reason msg) = Unit

copied-Metered :
    (total n before after : ℕ) (error : Option String)
    → after ≤ before + n
    → total + n ≤ max_extract_bytes
    → Metered total before after (copied (total + n) error)
copied-Metered total n before after none h room = (omega arith, room)
copied-Metered total n before after (some text) h room = tt

after_copy-Metered :
    (total before after : ℕ) (answer : ℕ × Option String)
    → after ≤ before + answer.0
    → Metered total before after (after_copy total answer)
unfolding after_copy
after_copy-Metered total before after (n, error) h =
    elim (Bool-cases (ltb max_extract_bytes (total + n))) [
      | inl e ↦ rw e tt
      | inr e ↦ rw e (copied-Metered total n before after error h (ground arith))
    ]

made-Metered :
    (total before after : ℕ) (r : Result (Unit {0}))
    → after ≤ before
    → total ≤ max_extract_bytes
    → Metered total before after (made total r)
made-Metered total before after (ok u) h room = (omega arith, room)
made-Metered total before after (err e) h room = tt

module _ {W : Type 0} (env : OciEnv W) (written : W → ℕ) where
  -- `written` counts the bytes that io.Copy writes: it grows by no more than the number that io.Copy
  -- returns, and not where a directory or a file is made.
  pub record CountsBytes : Type 0 where
    pub copies :
        (target : String) (hdr : Header) (w : W)
        → written (env.copy_content target hdr w).1
          ≤ written w + (env.copy_content target hdr w).0.0
    pub creates :
        (target : String) (perm : ℕ) (w : W) → written (env.create_file target perm w).1 ≤ written w
    pub makes :
        (target : String) (perm : ℕ) (w : W) → written (env.mkdir_all target perm w).1 ≤ written w

  -- The bytes that the step writes are in the total that it goes on with.
  pub record Spends (total : ℕ) (m : State W Extracted) : Type 0 where
    pub at :
        (before : ℕ) (w : W) → written w ≤ before → Metered total before (written (m w).1) (m w).0

  Spends-pure :
      (total : ℕ) (r : Extracted)
      → ((before after : ℕ) → after ≤ before → Metered total before after r)
      → Spends total (pure r)
  Spends-pure total r h = record { at = λ before w le. h before (written w) le }

  Spends-if :
      (total : ℕ) (test : Bool) (then_step else_step : State W Extracted)
      → Spends total then_step
      → Spends total else_step
      → Spends total (if test then then_step else else_step)
  Spends-if total true then_step else_step y n = y
  Spends-if total false then_step else_step y n = n

  -- A step that writes nothing comes first.
  Spends-behind :
      {B : Type 0} (total : ℕ) (m : State W B) (f : B → State W Extracted)
      → ((w : W) → written (m w).1 ≤ written w)
      → ((b : B) → Spends total (f b))
      → Spends total (m >>= f)
  Spends-behind total m f quiet more = record {
    at = λ before w le. (more (m w).0).at before (m w).1 (omega (arith, quiet w));
  }

  module _ (counts : CountsBytes) where
    create-Spends :
        (target : String) (hdr : Header) (total : ℕ) (r : Result (Unit {0}))
        → Spends total (after_create env target hdr total r)
    unfolding after_create
    create-Spends target hdr total (err e) = Spends-pure total _ (λ before after le. tt)
    create-Spends target hdr total (ok u) = record {
      at = λ before w le.
          after_copy-Metered total before _ (env.copy_content target hdr w).0
            (omega (arith, counts.copies target hdr w));
    }

    parent-Spends :
        (target : String) (hdr : Header) (total : ℕ) (r : Result (Unit {0}))
        → Spends total (after_parent env target hdr total r)
    unfolding after_parent
    parent-Spends target hdr total (err e) = Spends-pure total _ (λ before after le. tt)
    parent-Spends target hdr total (ok u) =
        Spends-behind total (env.create_file target hdr.perm) _ (counts.creates target hdr.perm)
          (λ r. create-Spends target hdr total r)

    write_entry-Spends :
        (target : String) (hdr : Header) (total : ℕ) (kind : Kind)
        → total ≤ max_extract_bytes
        → Spends total (write_entry env target hdr total kind)
    unfolding write_entry
    write_entry-Spends target hdr total directory room =
        Spends-behind total (env.mkdir_all target hdr.perm) _ (counts.makes target hdr.perm)
          (λ r. Spends-pure total _ (λ before after le. made-Metered total before after r le room))
    write_entry-Spends target hdr total regular room =
        Spends-behind total (env.mkdir_all (env.dir target) 0o755) _
          (counts.makes (env.dir target) 0o755) (λ r. parent-Spends target hdr total r)
    write_entry-Spends target hdr total (unsupported flag) room =
        Spends-pure total _ (λ before after le. tt)

    pub extract_entry-Spends :
        (dest : String) (hdr : Header) (total : ℕ)
        → total ≤ max_extract_bytes
        → Spends total (extract_entry env dest hdr total)
    unfolding extract_entry
    extract_entry-Spends dest hdr total room =
        let name = env.clean hdr.name in
        let target = env.join_path dest name in
        let refuse : (r : String) (m : String) → Spends total (pure (refused r m)) =
          λ r m. Spends-pure total _ (λ before after le. tt) in
        Spends-if total (name == "." || name == "") _ _
          (Spends-pure total (extracted total) (λ before after le. (omega arith, room)))
          (Spends-if total (is_unsafe env name) _ _ (refuse _ _) (
            Spends-if total (is_inside dest target) _ _
              (write_entry-Spends target hdr total hdr.kind room) (refuse _ _)))
