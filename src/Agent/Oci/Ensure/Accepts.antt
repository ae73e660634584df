-- ===== src/Agent/Oci/Ensure/Accepts.antt =====
-- What holds behind a fetch that succeeds, and what the calls behind the check of the digest keep.
use praetor.Base.{◌≡◌, refl, ℕ, Bool, true, false, none, some, String, if◌then◌else◌}
use praetor.Base.Result.{Result, ok, err}
use praetor.Base.Act.State.{State, pure, finally, ◌>>=◌}
use praetor.Agent.Env.{OciResult}
use praetor.Agent.Oci.{OciEnv, Header, Layer}
use praetor.Agent.Oci.Results.{Ensured, with_error}
use praetor.Agent.Oci.Ensure.{on_error, on_error_remove, on_bare, is_cached}

module _ {W : Type 0} (env : OciEnv W) (Q : W → Type 0) (reference : String) where
  -- `Q` holds behind an answer of the copy with the digest that was asked for and no error, and where
  -- a READY marker and a rootfs were found. All other calls that may follow keep it.
  pub record IsVouched : Type 0 where
    pub copied : (w : W) → (env.copy reference w).0 ≡ (reference, none) → Q (env.copy reference w).1
    pub cached :
        (base : String) (w : W) → (is_cached env base w).0 ≡ true → Q (is_cached env base w).1
    pub now : (w : W) → Q w → Q (env.now w).1
    pub fetches_manifest : (w : W) → Q w → Q (env.fetch_manifest reference w).1
    pub fetches_layer : (layer : Layer) (w : W) → Q w → Q (env.fetch_layer layer w).1
    pub reads : (zipped : Bool) (layer : Layer) (w : W) → Q w → Q (env.read_tar zipped layer w).1
    pub makes : (path : String) (perm : ℕ) (w : W) → Q w → Q (env.mkdir_all path perm w).1
    pub creates : (path : String) (perm : ℕ) (w : W) → Q w → Q (env.create_file path perm w).1
    pub extracts : (path : String) (hdr : Header) (w : W) → Q w → Q (env.copy_content path hdr w).1
    pub removes : (path : String) (w : W) → Q w → Q (env.remove_all path w).1
    pub renames : (old new : String) (w : W) → Q w → Q (env.rename old new w).1
    pub writes :
        (path text : String) (perm : ℕ) (w : W) → Q w → Q (env.write_file path text perm w).1
    pub unlocks : (path : String) (w : W) → Q w → Q (env.unlock path w).1
    pub closes : (path : String) (w : W) → Q w → Q (env.close_lock path w).1

  -- Without an error the result is under the digest that was asked for, and `Q` holds.
  abbrev pub Good : Ensured → W → Type 0
  Good (res, none) w = (res.digest ≡ reference) × Q w
  Good (res, some error) w = Unit

  pub record Accepts (Pre : W → Type 0) (m : State W Ensured) : Type 0 where
    pub at : (w : W) → Pre w → Good (m w).0 (m w).1

  pub Accepts-fail :
      {Pre : W → Type 0} (res : OciResult) (error : String) → Accepts Pre (pure (res, some error))
  Accepts-fail res error = record { at = λ w p. tt }

  pub Accepts-if :
      {Pre : W → Type 0} (test : Bool) (then_step else_step : State W Ensured)
      → (test ≡ true → Accepts Pre then_step)
      → Accepts Pre else_step
      → Accepts Pre (if test then then_step else else_step)
  Accepts-if true then_step else_step y n = y refl
  Accepts-if false then_step else_step y n = n

  -- What the first step leaves may depend on its value.
  pub Accepts-bind :
      {B : Type 0} {Pre : W → Type 0} (Mid : B → W → Type 0) (m : State W B)
      (f : B → State W Ensured)
      → ((w : W) → Pre w → Mid (m w).0 (m w).1)
      → ((b : B) → Accepts (Mid b) (f b))
      → Accepts Pre (m >>= f)
  Accepts-bind Mid m f first rest = record { at = λ w p. (rest (m w).0).at (m w).1 (first w p) }

  Good-later : (answer : Ensured) (w w' : W) → (Q w → Q w') → Good answer w → Good answer w'
  Good-later (res, none) w w' keep (same, q) = (same, keep q)
  Good-later (res, some error) w w' keep good = tt

  pub Accepts-finally :
      {B : Type 0} {Pre : W → Type 0} (m : State W Ensured) (last : State W B)
      → Accepts Pre m
      → ((w : W) → Q w → Q (last w).1)
      → Accepts Pre (finally m last)
  Accepts-finally m last a keep = record {
    at = λ w p. Good-later (m w).0 (m w).1 (last (m w).1).1 (keep (m w).1) (a.at w p);
  }

  pub on_error-Accepts :
      {A : Type 0} {Pre : W → Type 0} (res : OciResult) (r : Result A) (k : A → State W Ensured)
      → ((a : A) → Accepts Pre (k a))
      → Accepts Pre (on_error env res r k)
  unfolding with_error
  on_error-Accepts res (ok a) k more = more a
  on_error-Accepts res (err e) k more = record { at = λ w p. tt }

  pub on_error_remove-Accepts :
      {A : Type 0} {Pre : W → Type 0} (res : OciResult) (tmp : String) (r : Result A)
      (k : A → State W Ensured)
      → ((a : A) → Accepts Pre (k a))
      → Accepts Pre (on_error_remove env res tmp r k)
  unfolding with_error
  on_error_remove-Accepts res tmp (ok a) k more = more a
  on_error_remove-Accepts res tmp (err e) k more = record { at = λ w p. tt }

  pub on_bare-Accepts :
      {A : Type 0} {Pre : W → Type 0} (res : OciResult) (r : Result A) (k : A → State W Ensured)
      → ((a : A) → Accepts Pre (k a))
      → Accepts Pre (on_bare env res r k)
  on_bare-Accepts res (ok a) k more = more a
  on_bare-Accepts res (err e) k more = record { at = λ w p. tt }
