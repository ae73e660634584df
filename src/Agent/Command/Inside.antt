-- ===== src/Agent/Command/Inside.antt =====
-- Where a resolved command lies.
use praetor.Base.{
  ◌≡◌, ◌⊎◌, refl, sym, Bool, true, false, List, ◌∷◌, String, ◌==◌, has_prefix, trim_space,
  if◌then◌else◌, inl, inr,
}
use praetor.Base.Result.{Result, ok, err, ApiError}
use praetor.Base.Act.{Act, pure, raise, next}
use praetor.Agent.Env.{Env}
use praetor.Agent.Command.{is_outward, is_within, admit, place, resolve_relative, resolve_command}

module _ {W : Type 0} (env : Env W) where
  -- The command as it was given, with a leading slash; or one below the root by the absolute paths
  -- of both, which the calls of `filepath.Abs` returned.
  pub record IsBelow (root first command : String) : Type 0 where
    pub joined : command ≡ env.join_path root (env.clean (trim_space first))
    pub inward : is_outward env (env.clean (trim_space first)) ≡ false
    pub root_abs : String
    pub command_abs : String
    pub root_world : W
    pub root_call : (env.abs root root_world).0 ≡ ok root_abs
    pub command_call : (env.abs command (env.abs root root_world).1).0 ≡ ok command_abs
    pub within : is_within root_abs command_abs ≡ true

  admit-eq-ok :
      (inside : Bool) (first joined : String) (rest : List String) (w : W) (r : List String)
      → (admit env inside first joined rest w).0 ≡ ok r
      → (inside ≡ true) × (joined ∷ rest ≡ r)
  admit-eq-ok true first joined rest w r h = (refl, cc)
  admit-eq-ok false first joined rest w r h = cc

  next-eq-ok :
      {A B : Type 0} (m : Result A) (f : A → Act W B) (w : W) (b : B)
      → (next m f w).0 ≡ ok b
      → (a : A) × ((m ≡ ok a) × ((f a w).0 ≡ ok b))
  next-eq-ok (ok a) f w b h = (a, (refl, h))
  next-eq-ok (err e) f w b h = cc

  place-eq-ok :
      (root first : String) (rest : List String) (w : W) (r : List String)
      → is_outward env (env.clean (trim_space first)) ≡ false
      → (place env root (env.clean (trim_space first)) first rest w).0 ≡ ok r
      → (command : String) × ((r ≡ command ∷ rest) × IsBelow root first command)
  unfolding place
  place-eq-ok root first rest w r inward h =
      let command = env.join_path root (env.clean (trim_space first)) in
      let (root_abs, (e1, h1)) = next-eq-ok (env.abs root w).0 _ (env.abs root w).1 r h in
      let w1 = (env.abs root w).1 in
      let (command_abs, (e2, h2)) =
        next-eq-ok (env.abs command w1).0 _ (env.abs command w1).1 r h1 in
      let (inside, same) = admit-eq-ok (is_within root_abs command_abs) first command rest _ r h2 in
      (
        command,
        (
          sym same,
          record {
            joined = refl;
            inward = inward;
            root_abs = root_abs;
            command_abs = command_abs;
            root_world = w;
            root_call = e1;
            command_call = e2;
            within = inside;
          },
        ),
      )

  -- What two guards in front of an action say where there is a result.
  guards-eq-ok :
      {A : Type 0} (bad worse : Bool) (e f : ApiError) (m : Act W A) (w : W) (a : A)
      → ((if bad then raise e else if worse then raise f else m) w).0 ≡ ok a
      → (bad ≡ false) × ((worse ≡ false) × ((m w).0 ≡ ok a))
  guards-eq-ok true worse e f m w a h = cc
  guards-eq-ok false true e f m w a h = cc
  guards-eq-ok false false e f m w a h = (refl, (refl, h))

  relative-eq-ok :
      (root first : String) (rest : List String) (w : W) (r : List String)
      → (resolve_relative env root first rest w).0 ≡ ok r
      → (command : String) × ((r ≡ command ∷ rest) × IsBelow root first command)
  unfolding resolve_relative
  relative-eq-ok root first rest w r h =
      let normalized = env.clean (trim_space first) in
      let (full, (inward, placed)) =
        guards-eq-ok (trim_space first == "") (is_outward env normalized) _ _
          (place env root normalized first rest) w r h in
      place-eq-ok root first rest w r inward placed

  choice-eq-ok :
      {A : Type 0} (bad given : Bool) (e : ApiError) (x : A) (m : Act W A) (w : W) (a : A)
      → ((if bad then raise e else if given then pure x else m) w).0 ≡ ok a
      → ((given ≡ true) × (a ≡ x)) ⊎ ((m w).0 ≡ ok a)
  choice-eq-ok true given e x m w a h = cc
  choice-eq-ok false true e x m w a h = inl (refl, cc)
  choice-eq-ok false false e x m w a h = inr h

  -- A command that is resolved keeps its arguments. Its first part is as it was given, where that has a
  -- leading slash; else it is the cleaned part joined to the root, does not lead outward by its look,
  -- and its absolute path is that of the root or below it, by what the calls for both returned.
  pub resolve_command-IsBelow :
      (first : String) (rest : List String) (rootfs : String) (w : W) (r : List String)
      → (resolve_command env (first ∷ rest) rootfs w).0 ≡ ok r
      → ((has_prefix first "/" ≡ true) × (r ≡ first ∷ rest))
        ⊎ ((command : String) × ((r ≡ command ∷ rest) × IsBelow (trim_space rootfs) first command))
  unfolding resolve_command
  resolve_command-IsBelow first rest rootfs w r h =
      let root = trim_space rootfs in
      elim (choice-eq-ok (root == "") (has_prefix first "/") _ (first ∷ rest)
        (resolve_relative env root first rest) w r h) [
          | inl given ↦ inl given
          | inr relative ↦ inr (relative-eq-ok root first rest w r relative)
        ]
