-- ===== src/Gateway/Handlers/Reconnects.antt =====
-- The report of a device that the sweep holds overdue.
use praetor.Base.{List, String}
use praetor.Api.{Time}
use praetor.Gateway.Types.{Config, Response, Observation}
use praetor.Gateway.Env.{Env, Act, Sys, attempt, ◌>>=◌}
use praetor.Gateway.Heartbeat.{last_seen_and_heartbeat, record_heartbeat, record_report}
use praetor.Gateway.Sweep.{mark_device_connected}
use praetor.Gateway.Handlers.{after_connect, apply_observations}

module _ {W : Type 0} (env : Env W) (cfg : Config) where
  -- The processes of the device are marked connected, and then the observations are applied, unless
  -- the marking fails.
  abbrev pub reconnect : String → Time → List Observation → Act W Response
  reconnect device reported_at observations =
      attempt (mark_device_connected env device) >>= λ connected.
      after_connect env cfg (apply_observations env cfg device reported_at observations) connected

  -- The state with the heartbeat and the report of the device, behind three readings of the clock.
  abbrev pub noted : String → Sys W → Sys W
  noted device s =
      let (now, w) = env.clock s.world in
      let hb = (last_seen_and_heartbeat cfg s.registry device).1 in
      record s {
        registry = record_report (now 2) device (record_heartbeat (now 1) device hb s.registry);
        world = w;
      }
