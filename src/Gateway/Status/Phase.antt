-- ===== src/Gateway/Status/Phase.antt =====
-- The phase of a process after an observation.
use praetor.Base.{
  ℕ, ◌≡◌, refl, ◌≢◌, ◌↔◌, ◌⊎◌, Bool, true, false, ◌&&◌, ◌||◌, Option, String, ◌==◌, eq_iff, arith,
  if◌then◌else◌,
}
use praetor.Api
use praetor.Api.{Time, Condition, DeviceProcessStatus}
use praetor.Gateway.Types.{Observation}
use praetor.Gateway.Env.{Env}
use praetor.Gateway.Status.{trimmed, is_set, observed_phase, lifted_phase, observed_status}

-- The phases are three texts.
three_phases :
    (◌≢◌ {A = String} "Failed" "Running")
    × (◌≢◌ {A = String} "Failed" "Pending")
    × (◌≢◌ {A = String} "Running" "Pending")
three_phases = (
  (λ e. cc ((eq_iff "Failed" "Running").1 e)),
  (λ e. cc ((eq_iff "Failed" "Pending").1 e)),
  (λ e. cc ((eq_iff "Running" "Pending").1 e)),
)

abbrev pub Failed : Observation → Type 0
Failed obs = trimmed obs.error_message ≢ ""

abbrev pub IsUp : Observation → Type 0
IsUp obs = (is_set obs.process_started ≡ true) ⊎ (is_set obs.healthy ≡ true)

-- The phase as one choice from three tests.
abbrev pub phase_by : (blank up : Bool) → String
phase_by true true = Api.phase_running
phase_by true false = Api.phase_pending
phase_by false up = Api.phase_failed

chosen : (blank started healthy : Bool) → String
chosen blank started healthy =
    let phase =
      if blank
      then (if started then Api.phase_running else Api.phase_pending)
      else Api.phase_failed in
    if healthy && (phase == Api.phase_pending || phase == "") then Api.phase_running else phase

chosen-eq-phase_by :
    (blank started healthy : Bool)
    → chosen blank started healthy ≡ phase_by blank (started || healthy)
unfolding chosen
chosen-eq-phase_by true true true = refl
chosen-eq-phase_by true true false = refl
chosen-eq-phase_by true false true = refl
chosen-eq-phase_by true false false = refl
chosen-eq-phase_by false true true = refl
chosen-eq-phase_by false true false = refl
chosen-eq-phase_by false false true = refl
chosen-eq-phase_by false false false = refl

pub lifted_phase_lem :
    (obs : Observation)
    → lifted_phase obs
      ≡ phase_by
          (trimmed obs.error_message == "")
          (is_set obs.process_started || is_set obs.healthy)
unfolding lifted_phase observed_phase chosen
lifted_phase_lem obs =
    chosen-eq-phase_by (trimmed obs.error_message == "") (is_set obs.process_started)
      (is_set obs.healthy)

phase_by_iff :
    (blank started healthy : Bool)
    → ((phase_by blank (started || healthy) ≡ Api.phase_failed) ↔ (blank ≡ false))
      × ((phase_by blank (started || healthy) ≡ Api.phase_running)
          ↔ ((blank ≡ true) × ((started ≡ true) ⊎ (healthy ≡ true))))
      × ((phase_by blank (started || healthy) ≡ Api.phase_pending)
          ↔ ((blank ≡ true) × (started ≡ false) × (healthy ≡ false)))
phase_by_iff blank started healthy = ground (arith, three_phases)

-- The phase that an observation gives is Failed exactly where it carries an error text that is not
-- blank; else Running exactly where the process is reported started or healthy, and Pending otherwise.
pub phase_of_observation :
    {W : Type 0} (env : Env W) (now : ℕ → Time) (obs : Observation)
    (reported_at start : Option Time) (st : DeviceProcessStatus)
    → ((observed_status env now obs reported_at start st).phase ≡ Api.phase_failed ↔ Failed obs)
      × ((observed_status env now obs reported_at start st).phase ≡ Api.phase_running
          ↔ ((trimmed obs.error_message ≡ "") × IsUp obs))
      × ((observed_status env now obs reported_at start st).phase ≡ Api.phase_pending ↔ (
          (trimmed obs.error_message ≡ "")
          × (is_set obs.process_started ≡ false)
          × (is_set obs.healthy ≡ false)))
unfolding observed_status
phase_of_observation env now obs reported_at start st = rw lifted_phase_lem (
    ground (
      arith,
      eq_iff (trimmed obs.error_message) "",
      phase_by_iff (trimmed obs.error_message == "") (is_set obs.process_started)
          (is_set obs.healthy),
    ))
