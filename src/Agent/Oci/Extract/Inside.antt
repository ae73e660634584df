-- ===== src/Agent/Oci/Extract/Inside.antt =====
-- Where the extraction writes.
use praetor.Base.{ℕ, suc, ◌≡◌, true, ◌||◌, String, ◌==◌, ltb}
use praetor.Base.Result.{Result, ok, err}
use praetor.Base.Act.State.{State, Preserves, Preserves-pure, Preserves-if, Preserves-bind}
use praetor.Agent.Oci.{
  OciEnv, Header, Kind, directory, regular, unsupported, Tar, eof, broken, entry,
}
use praetor.Agent.Oci.Extract.{
  max_extract_entries, Extracted, extracted, plain, refused, is_inside, after_copy, made, is_unsafe,
  after_create, after_parent, write_entry, extract_entry, go_on, extract_entries,
}

module _ {W : Type 0} (env : OciEnv W) (P : W → Type 0) (dest : String) where
  -- The directories and files below the destination may be made, and the parents of such files, and
  -- `P` is kept.
  pub record WritesInsideKeep : Type 0 where
    pub makes :
        (target : String) (perm : ℕ) (w : W)
        → is_inside dest target ≡ true
        → P w
        → P (env.mkdir_all target perm w).1
    pub makes_parent :
        (target : String) (w : W)
        → is_inside dest target ≡ true
        → P w
        → P (env.mkdir_all (env.dir target) 0o755 w).1
    pub creates :
        (target : String) (perm : ℕ) (w : W)
        → is_inside dest target ≡ true
        → P w
        → P (env.create_file target perm w).1
    pub copies :
        (target : String) (hdr : Header) (w : W)
        → is_inside dest target ≡ true
        → P w
        → P (env.copy_content target hdr w).1

  module _ (inside : WritesInsideKeep) where
    create-Preserves :
        (target : String) (hdr : Header) (total : ℕ) (r : Result (Unit {0}))
        → is_inside dest target ≡ true
        → Preserves P (after_create env target hdr total r)
    unfolding after_create
    create-Preserves target hdr total (ok u) below =
        Preserves-bind (env.copy_content target hdr) _
          (record { at = λ w p. inside.copies target hdr w below p })
          (λ answer. Preserves-pure (after_copy total answer))
    create-Preserves target hdr total (err e) below = Preserves-pure _

    parent-Preserves :
        (target : String) (hdr : Header) (total : ℕ) (r : Result (Unit {0}))
        → is_inside dest target ≡ true
        → Preserves P (after_parent env target hdr total r)
    unfolding after_parent
    parent-Preserves target hdr total (ok u) below =
        Preserves-bind (env.create_file target hdr.perm) _
          (record { at = λ w p. inside.creates target hdr.perm w below p })
          (λ r. create-Preserves target hdr total r below)
    parent-Preserves target hdr total (err e) below = Preserves-pure _

    write_entry-Preserves :
        (target : String) (hdr : Header) (total : ℕ) (kind : Kind)
        → is_inside dest target ≡ true
        → Preserves P (write_entry env target hdr total kind)
    unfolding write_entry
    write_entry-Preserves target hdr total directory below =
        Preserves-bind (env.mkdir_all target hdr.perm) _
          (record { at = λ w p. inside.makes target hdr.perm w below p })
          (λ r. Preserves-pure (made total r))
    write_entry-Preserves target hdr total regular below =
        Preserves-bind (env.mkdir_all (env.dir target) 0o755) _
          (record { at = λ w p. inside.makes_parent target w below p })
          (λ r. parent-Preserves target hdr total r below)
    write_entry-Preserves target hdr total (unsupported flag) below = Preserves-pure _

    entry-Preserves : (hdr : Header) (total : ℕ) → Preserves P (extract_entry env dest hdr total)
    unfolding extract_entry
    entry-Preserves hdr total =
        let name = env.clean hdr.name in
        let target = env.join_path dest name in
        Preserves-if (name == "." || name == "") _ _ (λ _. Preserves-pure _)
          (λ _.
            Preserves-if (is_unsafe env name) _ _ (λ _. Preserves-pure _)
              (λ _.
                Preserves-if (is_inside dest target) _ _
                  (λ below. write_entry-Preserves target hdr total hdr.kind below)
                  (λ _. Preserves-pure _)))

    go_on-Preserves :
        (r : Extracted) (k : ℕ → State W Extracted)
        → ((t : ℕ) → Preserves P (k t))
        → Preserves P (go_on env r k)
    go_on-Preserves (extracted total) k more = more total
    go_on-Preserves (plain text) k more = Preserves-pure _
    go_on-Preserves (refused reason msg) k more = Preserves-pure _

    entries-Preserves :
        (tar : Tar) (entries total : ℕ) → Preserves P (extract_entries env dest tar entries total)
    unfolding extract_entries
    entries-Preserves eof entries total = Preserves-pure _
    entries-Preserves (broken text) entries total = Preserves-pure _
    entries-Preserves (entry hdr rest) entries total =
        Preserves-if (ltb max_extract_entries (suc entries)) _ _ (λ _. Preserves-pure _)
          (λ _.
            Preserves-bind (extract_entry env dest hdr total) _ (entry-Preserves hdr total)
              (λ r. go_on-Preserves r _ (λ t. entries-Preserves rest (suc entries) t)))

  -- Whatever the archive holds, the extraction makes and writes nothing but paths below the
  -- destination and the parents of files there: what these calls keep, it keeps, whichever of them
  -- fail.
  pub extract_entries-Preserves :
      WritesInsideKeep
      → (tar : Tar) (entries total : ℕ) (w : W) → P w
      → P (extract_entries env dest tar entries total w).1
  extract_entries-Preserves inside tar entries total =
      (entries-Preserves inside tar entries total).at
