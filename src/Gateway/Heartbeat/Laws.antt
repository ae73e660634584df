-- ===== src/Gateway/Heartbeat/Laws.antt =====
-- What the registry promises about heartbeats, and when a device counts as seen.
use praetor.Base.{
  ℕ, ◌≤◌, ◌≡◌, refl, ap, ◌∙◌, true, false, none, some, List, [], ◌∷◌, String, eq_refl, arith, Map,
  lookup, insert, lookup-insert, Bool-cases, inl, inr,
}
use praetor.Base.Int.{ℤ, pos, ◌-ℤ◌, ltb_ℤ}
use praetor.Api.{Time}
use praetor.Gateway.Types.{Config, Registry}
use praetor.Gateway.Heartbeat.{
  saturate, since, normalize_heartbeat, hint_at, record_report, record_heartbeat,
  last_seen_and_heartbeat, record_desired_heartbeat_if_eligible, desired_heartbeat,
  store_desired_heartbeat, whole_seconds,
}

-- The heartbeat interval that the gateway computes with is positive, for every hint and every
-- configuration.
pub normalize_heartbeat_pos :
    (cfg : Config) (hb : ℤ) → ltb_ℤ (pos 0) (normalize_heartbeat cfg hb) ≡ true
unfolding normalize_heartbeat
normalize_heartbeat_pos cfg hb = elim (Bool-cases (ltb_ℤ (pos 0) hb)) [
  | inl set ↦ rw (set, normalize_heartbeat) set
  | inr unset ↦
      rw (unset, normalize_heartbeat)
        (elim (Bool-cases (ltb_ℤ (pos 0) (whole_seconds cfg.default_interval))) [
          | inl set ↦ rw set set
          | inr none_set ↦ rw none_set refl
        ])
]

-- The critical sections of the gateway, each one atomic under its mutex. Handlers of several devices
-- and the sweep interleave them in any order.
pub data Section : Registry → Registry → Type 0 where
  heartbeat :
      (r : Registry) (now : Time) (device : String) (hint : ℤ)
      → Section r (record_heartbeat now device hint r)
  report : (r : Registry) (now : Time) (device : String) → Section r (record_report now device r)
  desired : (r : Registry) (device : String) → Section r (store_desired_heartbeat device r)

pub data Reach (r : Registry) : Registry → Type 0 where
  here : Reach r r
  next : {s t : Registry} → Reach r s → Section s t → Reach r t

-- Every stored hint is positive.
abbrev pub HintsArePositive : Registry → Type 0
HintsArePositive r =
    (device : String) (h : ℤ) → lookup device r.heartbeat_hints ≡ some h → ltb_ℤ (pos 0) h ≡ true

insert-HintsArePositive :
    (m : Map ℤ) (k : String) (v : ℤ)
    → ((j : String) (h : ℤ) → lookup j m ≡ some h → ltb_ℤ (pos 0) h ≡ true)
    → ltb_ℤ (pos 0) v ≡ true
    → (j : String) (h : ℤ) → lookup j (insert k v m) ≡ some h
    → ltb_ℤ (pos 0) h ≡ true
insert-HintsArePositive m k v all p j h e = ground (arith, lookup-insert k j v m, all j h)

desired_heartbeat_pos :
    (r : Registry) (device : String) → ltb_ℤ (pos 0) (desired_heartbeat r device) ≡ true
unfolding desired_heartbeat
desired_heartbeat_pos r device =
    elim (Bool-cases (ltb_ℤ (pos 0) (hint_at device r.heartbeat_hints))) [
      | inl set ↦ rw (set, desired_heartbeat) set
      | inr unset ↦ rw (unset, desired_heartbeat) refl
    ]

Section-HintsArePositive : {r s : Registry} → Section r s → HintsArePositive r → HintsArePositive s
unfolding record_heartbeat record_report store_desired_heartbeat
Section-HintsArePositive (heartbeat r now device hint) all =
    elim (Bool-cases (ltb_ℤ (pos 0) hint)) [
      | inl set ↦ λ j h. rw set (insert-HintsArePositive r.heartbeat_hints device hint all set j h)
      | inr unset ↦ λ j h. rw unset (all j h)
    ]
Section-HintsArePositive (report r now device) all = all
Section-HintsArePositive (desired r device) all =
    insert-HintsArePositive r.heartbeat_hints device (desired_heartbeat r device) all
      (desired_heartbeat_pos r device)

-- However the critical sections of the handlers interleave, every hint that is stored stays positive.
pub Reach-HintsArePositive : {r s : Registry} → HintsArePositive r → Reach r s → HintsArePositive s
Reach-HintsArePositive all here = all
Reach-HintsArePositive all (next reach section) =
    Section-HintsArePositive section (Reach-HintsArePositive all reach)

-- Polls for the desired state of one device, each with its readings of the clock.
abbrev pub poll : Config → String → (ℕ → Time) → Registry → Registry
poll cfg device now r =
    record_desired_heartbeat_if_eligible cfg now device (store_desired_heartbeat device r)

abbrev pub polls : Config → String → List (ℕ → Time) → Registry → Registry
polls cfg device [] r = r
polls cfg device (now ∷ nows) r = polls cfg device nows (poll cfg device now r)

poll_unreported :
    (cfg : Config) (device : String) (now : ℕ → Time) (r : Registry)
    → lookup device r.last_report ≡ none
    → ((poll cfg device now r).last_seen ≡ r.last_seen)
      × ((poll cfg device now r).last_report ≡ r.last_report)
unfolding record_desired_heartbeat_if_eligible store_desired_heartbeat
poll_unreported cfg device now r h = ground (arith, h)

-- A device that has never reported is not seen by polling, however often it polls.
polls_unreported :
    (cfg : Config) (device : String) (nows : List (ℕ → Time)) (r : Registry)
    → lookup device r.last_report ≡ none
    → (polls cfg device nows r).last_seen ≡ r.last_seen
polls_unreported cfg device [] r h = refl
polls_unreported cfg device (now ∷ nows) r h =
    let (seen, reported) = poll_unreported cfg device now r h in
    polls_unreported cfg device nows (poll cfg device now r) (ap (lookup device) reported ∙ h)
    ∙ seen

-- A poll of a device that has no hint is answered with 15 seconds and fixes this as its heartbeat,
-- whatever default interval the gateway is configured with.
pub configured_default_unused :
    (cfg : Config) (r : Registry) (device : String)
    → lookup device r.heartbeat_hints ≡ none
    → (desired_heartbeat r device ≡ pos 15)
      × ((last_seen_and_heartbeat cfg (store_desired_heartbeat device r) device).1 ≡ pos 15)
unfolding desired_heartbeat store_desired_heartbeat last_seen_and_heartbeat normalize_heartbeat
configured_default_unused cfg r device h = (rw h refl, rw lookup-insert (rw eq_refl (rw h refl)))

saturate_mono :
    (limit d d' : ℤ)
    → ltb_ℤ d' d ≡ false
    → ltb_ℤ limit (saturate d) ≡ true
    → ltb_ℤ limit (saturate d') ≡ true
saturate_mono limit d d' h e = ground arith

sub_mono :
    (now now' seen : ℕ) → now ≤ now' → ltb_ℤ (pos now' -ℤ pos seen) (pos now -ℤ pos seen) ≡ false
unfolding ◌-ℤ◌
sub_mono now now' seen h = ground arith

-- Ages only grow.
pub since_mono :
    (limit : ℤ) (now now' seen : Time)
    → now ≤ now'
    → ltb_ℤ limit (since now seen) ≡ true
    → ltb_ℤ limit (since now' seen) ≡ true
unfolding since
since_mono limit now now' seen h e =
    saturate_mono limit (pos now -ℤ pos seen) (pos now' -ℤ pos seen) (sub_mono now now' seen h) e
