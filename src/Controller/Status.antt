-- ===== src/Controller/Status.antt =====
-- `updateStatus`. `status := deployment.Status` copies the struct and shares the array of the
-- conditions, so that a write in place is seen through both slices.
pub mod Counts
pub mod Aliasing
use praetor.Base.{
  ℕ, ◌-◌, ltb, Bool, true, false, not, ◌&&◌, ◌||◌, Option, none, some, get_or, is_nil, List, [],
  ◌∷◌, String, ◌==◌, if◌then◌else◌, length, join, Map, lookup, insert,
}
use praetor.Base.Int.{ℤ, pos, int32, ◌+ℤ◌, ◌-ℤ◌, ltb_ℤ, eqb_ℤ}
use praetor.Base.Decimal.{format_int}
use praetor.Base.Result.{Result, ok, err}
use praetor.Api
use praetor.Api.{
  Time, DeviceProcess, DeviceProcessSpec, DeviceProcessDeployment, DeviceProcessDeploymentStatus,
  condition_true, condition_false,
}
use praetor.Conditions.{find_condition, set_condition, condition}
use praetor.Controller.Env.{Env, Act, Device, pure, step, ◌>>=◌, ◌>>◌}
use praetor.Controller.Names.{device_process_name}
use praetor.Controller.Labels.{build_desired_device_process}

abbrev is_true : Option Api.Condition → Bool
is_true none = false
is_true (some c) = c.status == condition_true

unfoldable pub is_process_ready : DeviceProcess → Bool
unfolding find_condition
is_process_ready proc =
    proc.status.phase == Api.phase_running
    && is_true (find_condition proc.status.conditions Api.condition_agent_connected)
    && is_true (find_condition proc.status.conditions Api.condition_healthy)

-- n++ on an int32, where the test holds.
abbrev pub increment_if : Bool → ℤ → ℤ
increment_if true n = int32 (n +ℤ pos 1)
increment_if false n = n

unfoldable pub is_updated : Map String → DeviceProcess → Bool
unfolding lookup
is_updated hashes proc =
    let hash = get_or (lookup proc.metadata.name hashes) "" in
    not (hash == "") && proc.status.observed_spec_hash == hash

-- A counter of the loop over the processes.
unfoldable pub tally : (DeviceProcess → Bool) → List DeviceProcess → ℤ → ℤ
tally test [] n = n
tally test (p ∷ procs) n = tally test procs (increment_if (test p) n)

abbrev pub at_least_zero : ℤ → ℤ
at_least_zero n = if ltb_ℤ n (pos 0) then pos 0 else n

-- The two slices over the conditions: that of the deployment, that of the new status, whether they
-- share an array, and the room behind the new one.
pub record Slices : Type 0 where
  pub old : List Api.Condition
  pub new : List Api.Condition
  pub shared : Bool
  pub spare : ℕ

abbrev pub write_through : Bool → Time → Api.Condition → List Api.Condition → List Api.Condition
write_through shared now c old =
    if shared && not (is_nil (find_condition old c.type)) then set_condition now old c else old

-- SetCondition(&status.Conditions, c): a write in place, or an `append`, which takes a new array when
-- there is no room.
unfoldable pub set_shared : Time → Api.Condition → Slices → Slices
unfolding set_condition find_condition
set_shared now c s = record {
  old = write_through s.shared now c s.old;
  new = set_condition now s.new c;
  shared = s.shared && (not (is_nil (find_condition s.new c.type)) || ltb 0 s.spare);
  spare = if is_nil (find_condition s.new c.type) then s.spare - 1 else s.spare;
}

abbrev pub no_targets : String → Api.Condition
no_targets type = condition type condition_false "NoTargets" "no devices matched selector"

unfoldable pub available_condition : (desired available : ℤ) → Api.Condition
unfolding format_int join
available_condition desired available =
    if eqb_ℤ desired (pos 0)
    then no_targets Api.condition_available
    else if eqb_ℤ available desired
    then condition Api.condition_available condition_true "AllAvailable"
        "all device processes are available"
    else condition Api.condition_available condition_false "NotEnoughAvailable"
        (join (format_int available ∷ "/" ∷ format_int desired ∷ " available" ∷ []))

unfoldable pub progressing_condition : (desired updated available : ℤ) → Api.Condition
unfolding format_int join
progressing_condition desired updated available =
    if eqb_ℤ desired (pos 0)
    then no_targets Api.condition_progressing
    else if ltb_ℤ updated desired || ltb_ℤ available desired
    then condition Api.condition_progressing condition_true "Updating" (
        join (
          "updated="
          ∷ format_int updated
          ∷ " available="
          ∷ format_int available
          ∷ " desired="
          ∷ format_int desired
          ∷ []))
    else condition Api.condition_progressing condition_false "Updated"
        "all device processes updated"

unfoldable pub mark_conditions : (now : ℕ → Time) (desired updated available : ℤ) → Slices → Slices
unfolding set_shared available_condition progressing_condition
mark_conditions now desired updated available s =
    set_shared (now 1) (progressing_condition desired updated available)
      (set_shared (now 0) (available_condition desired available) s)

-- The new status, over the conditions that it has in the end.
unfoldable pub counted_status :
    DeviceProcessDeployment
    → (devices : ℕ) → Map String
    → List DeviceProcess
    → List Api.Condition
    → DeviceProcessDeploymentStatus
unfolding tally is_updated is_process_ready
counted_status dep devices hashes procs cs =
    let desired = int32 (pos devices) in
    let available = tally is_process_ready procs (pos 0) in
    record {
      observed_generation = dep.metadata.generation;
      desired_number_scheduled = desired;
      current_number_scheduled = int32 (pos (length procs));
      updated_number_scheduled = tally (is_updated hashes) procs (pos 0);
      number_ready = tally is_process_ready procs (pos 0);
      number_available = available;
      number_unavailable = at_least_zero (int32 (desired -ℤ available));
      conditions = cs;
    }

unfoldable pub status_slices :
    (now : ℕ → Time) (spare : ℕ)
    → DeviceProcessDeployment
    → (devices : ℕ) → Map String
    → List DeviceProcess
    → Slices
unfolding mark_conditions tally is_updated is_process_ready
status_slices now spare dep devices hashes procs =
    mark_conditions now (int32 (pos devices)) (tally (is_updated hashes) procs (pos 0))
      (tally is_process_ready procs (pos 0))
      (record {
        old = dep.status.conditions;
        new = dep.status.conditions;
        shared = true;
        spare = spare;
      })

-- reflect.DeepEqual on two statuses.
abbrev condition_equal : Api.Condition → Api.Condition → Bool
condition_equal a b =
    a.type == b.type
    && a.status == b.status
    && eqb_ℤ a.observed_generation b.observed_generation
    && not (ltb a.last_transition_time b.last_transition_time)
    && not (ltb b.last_transition_time a.last_transition_time)
    && a.reason == b.reason
    && a.message == b.message

abbrev all_equal : List Api.Condition → List Api.Condition → Bool
all_equal [] [] = true
all_equal [] (b ∷ bs) = false
all_equal (a ∷ as') [] = false
all_equal (a ∷ as') (b ∷ bs) = condition_equal a b && all_equal as' bs

unfoldable pub deep_equal : DeviceProcessDeploymentStatus → DeviceProcessDeploymentStatus → Bool
deep_equal a b =
    eqb_ℤ a.observed_generation b.observed_generation
    && eqb_ℤ a.desired_number_scheduled b.desired_number_scheduled
    && eqb_ℤ a.current_number_scheduled b.current_number_scheduled
    && eqb_ℤ a.updated_number_scheduled b.updated_number_scheduled
    && eqb_ℤ a.number_ready b.number_ready
    && eqb_ℤ a.number_available b.number_available
    && eqb_ℤ a.number_unavailable b.number_unavailable
    && all_equal a.conditions b.conditions

module _ {W : Type 0} (env : Env W) where
  unfoldable pub hash_device_process_spec : DeviceProcessSpec → String
  unfolding join
  hash_device_process_spec spec = join ("sha256:" ∷ env.sha256_hex (env.marshal_spec spec) ∷ [])

  unfoldable pub desired_hashes : DeviceProcessDeployment → List Device → Map String → Map String
  unfolding insert device_process_name build_desired_device_process hash_device_process_spec
  desired_hashes dep [] hashes = hashes
  desired_hashes dep (device ∷ devices) hashes =
      let name = device_process_name env dep.metadata.name device.name in
      desired_hashes dep devices (
        insert name
          (hash_device_process_spec (build_desired_device_process env dep device name).spec) hashes)

  -- The end: the slice of the deployment shows the writes in place before it is compared and copied.
  unfoldable pub write_status :
      DeviceProcessDeployment → DeviceProcessDeploymentStatus → Slices → Act W (Unit {0})
  unfolding deep_equal
  write_status dep status slices =
      let seen = record dep { status = record dep.status { conditions = slices.old } } in
      if deep_equal seen.status status
      then pure tt
      else env.patch_status seen (record seen { status = status })

  -- The status that the lists and the clock give, written.
  unfoldable pub status_at :
      (spare : ℕ)
      → DeviceProcessDeployment
      → List Device
      → List DeviceProcess
      → (ℕ → Time)
      → Act W (Unit {0})
  unfolding desired_hashes counted_status status_slices write_status
  status_at spare dep devices procs now =
      let hashes = desired_hashes dep devices [] in
      let slices = status_slices now spare dep (length devices) hashes procs in
      write_status dep (counted_status dep (length devices) hashes procs slices.new) slices

  -- `spare` is the room behind the conditions that were read.
  unfoldable pub update_status :
      (spare : ℕ) → DeviceProcessDeployment → List Device → Act W (Unit {0})
  update_status spare dep devices = do
    procs ← env.list_processes dep.metadata.namespace dep.metadata.name
    now ← step env.clock
    status_at spare dep devices procs now
