-- ===== src/Controller/Status/Aliasing.antt =====
-- What the shared array of the conditions does to the comparison and to the patch.
use praetor.Base.{ℕ, ◌≡◌, refl, Bool, true, not, ◌||◌, is_nil, List, [], String, arith, length, Map}
use praetor.Base.Int.{ℤ, pos, int32, eqb_ℤ, ltb_ℤ}
use praetor.Api
use praetor.Api.{
  Time, DeviceProcess, DeviceProcessDeployment, DeviceProcessDeploymentStatus, condition_true,
  condition_false,
}
use praetor.Conditions.{find_condition, set_condition}
use praetor.Conditions.Laws.{find-set_condition}
use praetor.Controller.Env.{Env, Device, pure}
use praetor.Controller.Env.Keeps.{
  Keeps, ReadsKeep, Keeps-pure, Keeps-if, Keeps-bind, Keeps-list_processes, Keeps-clock,
}
use praetor.Controller.Status.Counts.{chosen_lem}
use praetor.Controller.Status.{
  Slices, tally, is_updated, is_process_ready, set_shared, available_condition,
  progressing_condition, mark_conditions, status_slices, counted_status, deep_equal, write_status,
  status_at, update_status, desired_hashes,
}

-- Both slices show the same conditions, in one array.
abbrev pub IsOneArray : Slices → Type 0
IsOneArray s = (s.old ≡ s.new) × (s.shared ≡ true)

abbrev pub has_type : String → List Api.Condition → Bool
has_type t cs = not (is_nil (find_condition cs t))

-- A write to a condition that is there is seen through both slices.
set_shared-IsOneArray :
    (now : Time) (c : Api.Condition) (s : Slices)
    → has_type c.type s.new ≡ true
    → IsOneArray s
    → IsOneArray (set_shared now c s)
unfolding set_shared
set_shared-IsOneArray now c s h (e, sh) = (rw e (rw sh (rw h refl)), ground (arith, h, sh))

has_type-set :
    (t : String) (now : Time) (cs : List Api.Condition) (c : Api.Condition)
    → has_type t cs ≡ true
    → has_type t (set_condition now cs c) ≡ true
has_type-set t now cs c h = rw (find-set_condition now cs c t) (ground (arith, h))

new_has_type :
    (t : String) (now : Time) (c : Api.Condition) (s : Slices)
    → has_type t s.new ≡ true
    → has_type t (set_shared now c s).new ≡ true
unfolding set_shared
new_has_type t now c s h = has_type-set t now s.new c h

available_type : (d a : ℤ) → (available_condition d a).type ≡ Api.condition_available
unfolding available_condition
available_type d a =
    (chosen_lem Api.condition_available condition_false condition_true condition_false
      (eqb_ℤ d (pos 0)) (eqb_ℤ a d) _ _ _ _ _ _).0

progressing_type : (d u a : ℤ) → (progressing_condition d u a).type ≡ Api.condition_progressing
unfolding progressing_condition
progressing_type d u a =
    (chosen_lem Api.condition_progressing condition_false condition_true condition_false
      (eqb_ℤ d (pos 0)) (ltb_ℤ u d || ltb_ℤ a d) _ _ _ _ _ _).0

mark_conditions-IsOneArray :
    (now : ℕ → Time) (d u a : ℤ) (s : Slices)
    → has_type Api.condition_available s.new ≡ true
    → has_type Api.condition_progressing s.new ≡ true
    → IsOneArray s
    → IsOneArray (mark_conditions now d u a s)
unfolding mark_conditions
mark_conditions-IsOneArray now d u a s ha hp one =
    set_shared-IsOneArray (now 1) (progressing_condition d u a) _
      (rw (progressing_type d u a)
        (new_has_type Api.condition_progressing (now 0) (available_condition d a) s hp))
      (set_shared-IsOneArray (now 0) (available_condition d a) s (rw (available_type d a) ha) one)

status_slices_agree :
    (now : ℕ → Time) (spare : ℕ) (dep : DeviceProcessDeployment) (devices : ℕ) (hashes : Map String)
    (procs : List DeviceProcess)
    → has_type Api.condition_available dep.status.conditions ≡ true
    → has_type Api.condition_progressing dep.status.conditions ≡ true
    → (status_slices now spare dep devices hashes procs).old
      ≡ (status_slices now spare dep devices hashes procs).new
unfolding status_slices
status_slices_agree now spare dep devices hashes procs ha hp =
    (mark_conditions-IsOneArray now (int32 (pos devices)) (tally (is_updated hashes) procs (pos 0))
      (tally is_process_ready procs (pos 0))
      (record {
        old = dep.status.conditions;
        new = dep.status.conditions;
        shared = true;
        spare = spare;
      })
      ha hp (refl, refl)).0

module _ {W : Type 0} (env : Env W) (P : W → Type 0) where
  -- The patches between statuses with equal conditions keep `P`.
  abbrev pub EqualPatchesKeep : Type 0
  EqualPatchesKeep =
      (old new : DeviceProcessDeployment) (w : W)
      → old.status.conditions ≡ new.status.conditions
      → P w
      → P (env.patch_status old new w).1

  write_status-Keeps :
      (dep : DeviceProcessDeployment) (status : DeviceProcessDeploymentStatus) (s : Slices)
      → EqualPatchesKeep
      → s.old ≡ status.conditions
      → Keeps P (write_status env dep status s)
  unfolding write_status
  write_status-Keeps dep status s patch e =
      let seen = record dep { status = record dep.status { conditions = s.old } } in
      Keeps-if (deep_equal seen.status status) (pure tt) _ (λ same. Keeps-pure tt)
        (λ different. record { at = λ w h. patch seen (record seen { status = status }) w e h })

  status_at-Keeps :
      (spare : ℕ) (dep : DeviceProcessDeployment) (devices : List Device)
      (procs : List DeviceProcess) (now : ℕ → Time)
      → has_type Api.condition_available dep.status.conditions ≡ true
      → has_type Api.condition_progressing dep.status.conditions ≡ true
      → EqualPatchesKeep
      → Keeps P (status_at env spare dep devices procs now)
  unfolding status_at counted_status
  status_at-Keeps spare dep devices procs now ha hp patch =
      let hashes = desired_hashes env dep devices [] in
      let slices = status_slices now spare dep (length devices) hashes procs in
      write_status-Keeps dep (counted_status dep (length devices) hashes procs slices.new) slices
        patch (status_slices_agree now spare dep (length devices) hashes procs ha hp)

  -- For a deployment whose status already has both conditions, `updateStatus` never sends a patch
  -- between statuses with different conditions: what the lists, the clock and the patches with equal
  -- conditions keep, it keeps.
  pub conditions_never_patched :
      (spare : ℕ) (dep : DeviceProcessDeployment) (devices : List Device)
      → has_type Api.condition_available dep.status.conditions ≡ true
      → has_type Api.condition_progressing dep.status.conditions ≡ true
      → ReadsKeep env P
      → EqualPatchesKeep
      → (w : W) → P w
      → P (update_status env spare dep devices w).1
  unfolding update_status
  conditions_never_patched spare dep devices ha hp reads patch =
      (Keeps-bind _ _ (Keeps-list_processes env reads _ _) (λ procs.
        Keeps-bind _ _ (Keeps-clock env reads)
          (λ now. status_at-Keeps spare dep devices procs now ha hp patch))).at
