-- ===== src/Controller/Status/Counts.antt =====
-- The counts of a status.
use praetor.Base.{
  ℕ, suc, ◌+◌, ◌-◌, ◌<◌, ◌≤◌, ◌^◌, ◌≡◌, ap, sym, refl, ltb, eqb, Bool, true, false, ◌&&◌, Option,
  none, some, List, [], ◌∷◌, String, ◌==◌, arith, eq_refl, ◌||◌, ◌∙◌, if◌then◌else◌, length, count,
  count-le-length, Map,
}
use praetor.Base.Int.{pos, int32, int32_of_lt, ◌+ℤ◌, ◌-ℤ◌, ltb_ℤ, eqb_ℤ}
use praetor.Api
use praetor.Api.{Time, DeviceProcess, DeviceProcessDeployment, condition_true, condition_false}
use praetor.Conditions.{find_condition, set_condition, condition}
use praetor.Conditions.Laws.{stored, find-set_condition}
use mathlib.Core.Option.{map as map_option}
use praetor.Controller.Status.{
  is_process_ready, increment_if, is_updated, tally, at_least_zero, available_condition,
  progressing_condition, counted_status, status_slices, mark_conditions, set_shared,
}

module _ (test : DeviceProcess → Bool) where
  step_count :
      (b : Bool) (n : ℕ) → suc n < 2 ^ 31 → increment_if b (pos n) ≡ pos ((if b then 1 else 0) + n)
  unfolding ◌+ℤ◌
  step_count true n h = ground (arith, int32_of_lt (n + 1) (omega (arith, h)))
  step_count false n h = ground arith

  -- A counter that has room for the list is exact.
  tally-count :
      (procs : List DeviceProcess) (n : ℕ)
      → n + length procs < 2 ^ 31
      → tally test procs (pos n) ≡ pos (n + count test procs)
  unfolding tally
  tally-count [] n h = ground arith
  tally-count (p ∷ procs) n h =
      let k = (if test p then 1 else 0) in
      let le : k ≤ 1 = ground arith in
      rw (step_count (test p) n (omega (arith, h)))
        (ground (arith, tally-count procs (k + n) (omega (arith, h, le))))

  pub tally-exact :
      (procs : List DeviceProcess)
      → length procs < 2 ^ 31
      → tally test procs (pos 0) ≡ pos (count test procs)
  tally-exact procs h = ground (arith, tally-count procs 0 (omega (arith, h)))

missing : (a b : ℕ) → a < 2 ^ 31 → b < 2 ^ 31 → at_least_zero (int32 (pos a -ℤ pos b)) ≡ pos (a - b)
unfolding int32 ◌-ℤ◌
missing a b ha hb = ground arith

-- With fewer than 2^31 devices and processes no counter wraps: the status counts the devices, the
-- processes, the updated and the ready ones, and how many ready ones are missing.
pub counted_status_exact :
    (dep : DeviceProcessDeployment) (devices : ℕ) (hashes : Map String) (procs : List DeviceProcess)
    (cs : List Api.Condition)
    → devices < 2 ^ 31
    → length procs < 2 ^ 31
    → let status = counted_status dep devices hashes procs cs in
      (status.desired_number_scheduled ≡ pos devices)
      × (status.current_number_scheduled ≡ pos (length procs))
      × (status.updated_number_scheduled ≡ pos (count (is_updated hashes) procs))
      × (status.number_ready ≡ pos (count is_process_ready procs))
      × (status.number_available ≡ pos (count is_process_ready procs))
      × (status.number_unavailable ≡ pos (devices - count is_process_ready procs))
unfolding counted_status
counted_status_exact dep devices hashes procs cs hd hp =
    let desired = int32_of_lt devices hd in
    let ready = tally-exact is_process_ready procs hp in
    let few = count-le-length is_process_ready procs in
    let gap = missing devices (count is_process_ready procs) hd (omega (arith, few, hp)) in
    (
      desired,
      int32_of_lt (length procs) hp,
      tally-exact (is_updated hashes) procs hp,
      ready,
      ready,
      rw desired (rw ready gap),
    )

-- The status of the condition of a type, where there is one.
abbrev pub status_of : String → List Api.Condition → Option String
status_of t cs = map_option (λ c. c.status) (find_condition cs t)

stored-status :
    (now : Time) (c : Api.Condition) (o : Option Api.Condition) → (stored now c o).status ≡ c.status
stored-status now c none = refl
stored-status now c (some old) = ground arith

status_of-set :
    (now : Time) (cs : List Api.Condition) (c : Api.Condition)
    → status_of c.type (set_condition now cs c) ≡ some c.status
status_of-set now cs c =
    rw (find-set_condition now cs c c.type)
      (ground (arith, eq_refl c.type, stored-status now c (find_condition cs c.type)))

status_of-other :
    (t : String) (now : Time) (cs : List Api.Condition) (c : Api.Condition)
    → c.type == t ≡ false
    → status_of t (set_condition now cs c) ≡ status_of t cs
status_of-other t now cs c h = rw (find-set_condition now cs c t) (rw h refl)

status_of-two :
    (n m : Time) (cs : List Api.Condition) (c d : Api.Condition)
    → c.type ≡ Api.condition_available
    → d.type ≡ Api.condition_progressing
    → (status_of Api.condition_available (set_condition m (set_condition n cs c) d) ≡ some c.status)
      × (status_of Api.condition_progressing (set_condition m (set_condition n cs c) d)
          ≡ some d.status)
status_of-two n m cs c d hc hd =
    let first = status_of-set n cs c in
    let second = status_of-set m (set_condition n cs c) d in
    (
      status_of-other Api.condition_available m (set_condition n cs c) d (rw hd refl)
          ∙ (ap (λ t. status_of t (set_condition n cs c)) (sym hc) ∙ first),
      ap (λ t. status_of t (set_condition m (set_condition n cs c) d)) (sym hd) ∙ second,
    )

abbrev pub truth : Bool → String
truth b = if b then condition_true else condition_false

-- The type and the status of a condition that is chosen by two tests.
pub chosen_lem :
    (t u v w : String) (b c : Bool) (r r' r'' m m' m'' : String)
    → let chosen =
        if b then condition t u r m else if c then condition t v r' m' else condition t w r'' m'' in
      (chosen.type ≡ t) × (chosen.status ≡ (if b then u else if c then v else w))
chosen_lem t u v w true c r r' r'' m m' m'' = (refl, refl)
chosen_lem t u v w false true r r' r'' m m' m'' = (refl, refl)
chosen_lem t u v w false false r r' r'' m m' m'' = (refl, refl)

available_lem :
    (d a : ℕ)
    → ((available_condition (pos d) (pos a)).type ≡ Api.condition_available)
      × ((available_condition (pos d) (pos a)).status ≡ truth (ltb 0 d && eqb a d))
unfolding available_condition
available_lem d a =
    let status : truth (ltb 0 d && eqb a d) ≡ (
        if eqb_ℤ (pos d) (pos 0)
        then condition_false
        else if eqb_ℤ (pos a) (pos d)
        then condition_true
        else condition_false) =
      ground arith in
    let chosen =
      chosen_lem Api.condition_available condition_false condition_true condition_false
        (eqb_ℤ (pos d) (pos 0)) (eqb_ℤ (pos a) (pos d)) in
    ((chosen _ _ _ _ _ _).0, rw status ((chosen _ _ _ _ _ _).1))

progressing_lem :
    (d u a : ℕ)
    → ((progressing_condition (pos d) (pos u) (pos a)).type ≡ Api.condition_progressing)
      × ((progressing_condition (pos d) (pos u) (pos a)).status
          ≡ truth (ltb 0 d && (ltb u d || ltb a d)))
unfolding progressing_condition
progressing_lem d u a =
    let status : truth (ltb 0 d && (ltb u d || ltb a d)) ≡ (
        if eqb_ℤ (pos d) (pos 0)
        then condition_false
        else if ltb_ℤ (pos u) (pos d) || ltb_ℤ (pos a) (pos d)
        then condition_true
        else condition_false) =
      ground arith in
    let chosen =
      chosen_lem Api.condition_progressing condition_false condition_true condition_false
        (eqb_ℤ (pos d) (pos 0)) (ltb_ℤ (pos u) (pos d) || ltb_ℤ (pos a) (pos d)) in
    ((chosen _ _ _ _ _ _).0, rw status ((chosen _ _ _ _ _ _).1))

-- With fewer than 2^31 devices and processes: Available is True where there are devices and exactly as
-- many processes are ready, and False otherwise; Progressing is True where there are devices and fewer
-- processes are updated or ready than there are devices, and False otherwise.
pub conditions_of_counts :
    (now : ℕ → Time) (spare : ℕ) (dep : DeviceProcessDeployment) (devices : ℕ) (hashes : Map String)
    (procs : List DeviceProcess)
    → devices < 2 ^ 31
    → length procs < 2 ^ 31
    → let ready = count is_process_ready procs in
      let updated = count (is_updated hashes) procs in
      let cs = (status_slices now spare dep devices hashes procs).new in
      (status_of Api.condition_available cs ≡ some (truth (ltb 0 devices && eqb ready devices)))
      × (status_of Api.condition_progressing cs
          ≡ some (truth (ltb 0 devices && (ltb updated devices || ltb ready devices))))
unfolding status_slices mark_conditions set_shared
conditions_of_counts now spare dep devices hashes procs hd hp =
    let ready = count is_process_ready procs in
    let updated = count (is_updated hashes) procs in
    let a = available_lem devices ready in
    let p = progressing_lem devices updated ready in
    let both =
      status_of-two (now 0) (now 1) dep.status.conditions
        (available_condition (pos devices) (pos ready))
        (progressing_condition (pos devices) (pos updated) (pos ready)) a.0 p.0 in
    rw (int32_of_lt devices hd) (
      rw (tally-exact is_process_ready procs hp) (
        rw (tally-exact (is_updated hashes) procs hp) (both.0 ∙ ap some a.1, both.1 ∙ ap some p.1)))
