-- ===== src/Gateway/Heartbeat.antt =====
-- The registry of devices: heartbeats, reports, hints and staleness.
pub mod Laws
use praetor.Base.{
  ℕ, ◌-◌, ◌*◌, ◌/◌, ◌^◌, ◌≡◌, Bool, true, false, not, ◌||◌, Option, none, some, get_or, String, eqb,
  if◌then◌else◌, Map, lookup, insert, suc,
}
use praetor.Base.Int.{ℤ, pos, negsuc, sub_ℕ, ◌-ℤ◌, ◌*ℤ◌, ltb_ℤ, int64}
use praetor.Api.{Time}
use praetor.Gateway.Types.{Config, Registry, default_heartbeat_seconds}

abbrev pub second : ℤ
second = pos 1000000000

-- int(d.Seconds()): whole seconds, towards zero
abbrev pub whole_seconds : ℤ → ℤ
whole_seconds (pos n) = pos (n / 1000000000)
whole_seconds (negsuc n) = sub_ℕ 0 (suc n / 1000000000)

-- A difference of times stops at the ends of int64.
abbrev pub saturate : ℤ → ℤ
saturate d =
    if ltb_ℤ (pos (2 ^ 63 - 1)) d
    then pos (2 ^ 63 - 1)
    else if ltb_ℤ d (negsuc (2 ^ 63 - 1))
    then negsuc (2 ^ 63 - 1)
    else d

-- now.Sub(then)
unfoldable pub since : Time → Time → ℤ
unfolding ◌-ℤ◌
since now seen = saturate (pos now -ℤ pos seen)

-- hb <= 0
abbrev pub is_unset : ℤ → Bool
is_unset hb = not (ltb_ℤ (pos 0) hb)

unfoldable pub normalize_heartbeat : Config → ℤ → ℤ
normalize_heartbeat cfg hb =
    if is_unset hb
    then (let d = whole_seconds cfg.default_interval in
        if is_unset d then default_heartbeat_seconds else d)
    else hb

-- time.Duration(hb*g.staleMultiplier) * time.Second
unfoldable pub stale_after : Config → ℤ → ℤ
unfolding ◌*ℤ◌ int64
stale_after cfg hb = int64 (int64 (hb *ℤ cfg.stale_multiplier) *ℤ second)

-- A map of Go gives the zero value where the key is missing.
abbrev pub time_at : String → Map Time → Time
time_at device m = get_or (lookup device m) 0

abbrev pub hint_at : String → Map ℤ → ℤ
hint_at device m = get_or (lookup device m) (pos 0)

unfoldable pub record_report : Time → String → Registry → Registry
record_report now device r = record r { last_report = insert device now r.last_report }

unfoldable pub record_heartbeat : Time → String → ℤ → Registry → Registry
record_heartbeat now device hint r = record r {
  last_seen = insert device now r.last_seen;
  heartbeat_hints =
      if ltb_ℤ (pos 0) hint then insert device hint r.heartbeat_hints else r.heartbeat_hints;
}

-- The pair that `lastSeenAndHeartbeat` returns.
unfoldable pub last_seen_and_heartbeat : Config → Registry → String → Time × ℤ
unfolding normalize_heartbeat
last_seen_and_heartbeat cfg r device =
    (time_at device r.last_seen, normalize_heartbeat cfg (hint_at device r.heartbeat_hints))

unfoldable pub effective_heartbeat : Config → Registry → String → ℤ
unfolding normalize_heartbeat
effective_heartbeat cfg r device = normalize_heartbeat cfg (hint_at device r.heartbeat_hints)

-- The clock is read once for the test and once more for the record.
unfoldable pub record_desired_heartbeat_if_eligible :
    Config → (ℕ → Time) → String → Registry → Registry
unfolding normalize_heartbeat stale_after since record_heartbeat
record_desired_heartbeat_if_eligible cfg now device r =
    let reported = time_at device r.last_report in
    let heartbeat = normalize_heartbeat cfg (hint_at device r.heartbeat_hints) in
    if eqb reported 0
    then r
    else if ltb_ℤ (stale_after cfg heartbeat) (since (now 0) reported)
    then r
    else record_heartbeat (now 1) device heartbeat r

-- The part of `computeDesired` under the lock: the hint that is answered, which is stored too.
unfoldable pub desired_heartbeat : Registry → String → ℤ
desired_heartbeat r device =
    let hint = hint_at device r.heartbeat_hints in
    if ltb_ℤ (pos 0) hint then hint else default_heartbeat_seconds

unfoldable pub store_desired_heartbeat : String → Registry → Registry
unfolding desired_heartbeat
store_desired_heartbeat device r = record r {
  heartbeat_hints = insert device (desired_heartbeat r device) r.heartbeat_hints;
}

-- prevSeen.IsZero() || now.Sub(prevSeen) > staleAfter
unfoldable pub is_stale : Config → Time → Time → ℤ → Bool
unfolding stale_after since
is_stale cfg now seen hb = eqb seen 0 || ltb_ℤ (stale_after cfg hb) (since now seen)
