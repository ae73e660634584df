-- ===== src/Gateway/Sweep/Laws.antt =====
-- Overdue devices and stale devices.
use praetor.Base.{◌≤◌, ◌≡◌, true, String, arith}
use praetor.Api.{Time}
use praetor.Gateway.Types.{Config, Registry}
use praetor.Gateway.Heartbeat.{
  time_at, hint_at, stale_after, normalize_heartbeat, last_seen_and_heartbeat, is_stale,
}
use praetor.Gateway.Heartbeat.Laws.{since_mono}
use praetor.Gateway.Sweep.{is_overdue}

-- A device that the sweep holds overdue is stale for a report that comes at the same time or later.
pub overdue_then_stale :
    (cfg : Config) (r : Registry) (device : String) (now now' : Time)
    → now ≤ now'
    → is_overdue cfg now r device (time_at device r.last_seen) ≡ true
    → is_stale cfg now'
        (last_seen_and_heartbeat cfg r device).0
        (last_seen_and_heartbeat cfg r device).1
      ≡ true
unfolding is_overdue is_stale last_seen_and_heartbeat
overdue_then_stale cfg r device now now' h e =
    let late =
      since_mono (stale_after cfg (normalize_heartbeat cfg (hint_at device r.heartbeat_hints))) now
        now' (time_at device r.last_seen) h e in
    ground (arith, late)
