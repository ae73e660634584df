-- ===== src/Gateway/Handlers.antt =====
-- The three handlers, after routing. A handler never fails: an error becomes a response.
pub mod Isolation
pub mod Reconnects
use praetor.Base.{
  ℕ, ◌≡◌, Bool, true, false, not, ◌&&◌, Option, none, some, List, [], ◌∷◌, String, ◌==◌,
  if◌then◌else◌, trim_space,
}
use praetor.Base.Int.{ℤ}
use praetor.Base.Result.{Result, ok, err, ApiError, bad_request, not_found}
use praetor.Api.{Time}
use praetor.Gateway.Types
use praetor.Gateway.Types.{Config, ReportRequest, Response, Observation, ack}
use praetor.Gateway.Env.{
  Env, Act, Sys, pure, attempt, read_clock, registry, modify_registry, ◌>>=◌, ◌>>◌,
}
use praetor.Gateway.Heartbeat.{
  record_report, record_heartbeat, record_desired_heartbeat_if_eligible, last_seen_and_heartbeat,
  effective_heartbeat, desired_heartbeat, store_desired_heartbeat, is_stale,
}
use praetor.Gateway.Auth
use praetor.Gateway.Auth.{Route, handle_device}
use praetor.Gateway.Desired.{list_device_processes, desired_items, hash_desired}
use praetor.Gateway.Update.{update_status_for_observation}
use praetor.Gateway.Sweep.{mark_device_connected}

abbrev pub internal_error : String → Response
internal_error = Types.status 500

module _ {W : Type 0} (env : Env W) (cfg : Config) where
  -- `computeDesired`: the document and its ETag.
  unfoldable pub compute_desired : String → Act W (Types.DesiredResponse × String)
  compute_desired device = do
    procs ← list_device_processes env device
    r ← registry
    modify_registry (store_desired_heartbeat device)
    let items = desired_items env procs
    pure (
      record {
        device_name = device;
        heartbeat_interval_seconds = desired_heartbeat r device;
        items = items;
      },
      hash_desired env items,
    )

  -- `handleDesired` behind `computeDesired`.
  unfoldable pub desired_response :
      (if_none_match : String) → Types.DesiredResponse × String → Response
  desired_response if_none_match (body, etag) =
      let given = trim_space if_none_match in
      if not (given == "") && given == etag
      then Types.not_modified etag
      else Types.desired etag body

  unfoldable pub answer_desired :
      String → (if_none_match : String) → Result (Types.DesiredResponse × String) → Act W Response
  answer_desired device if_none_match (err e) =
      pure (internal_error "failed to compute desired state")
  answer_desired device if_none_match (ok doc) = do
    now ← read_clock env
    modify_registry (record_desired_heartbeat_if_eligible cfg now device)
    pure (desired_response if_none_match doc)

  unfoldable pub handle_desired : String → (if_none_match : String) → Act W Response
  handle_desired device if_none_match = do
    computed ← attempt (compute_desired device)
    answer_desired device if_none_match computed

  -- The time of the report: the one that it names, or the clock's; `none` for one that is no time.
  unfoldable pub reported_time : String → Time → Option Time
  reported_time timestamp now = if timestamp == "" then some now else env.parse_rfc3339 timestamp

  -- What the loop over the observations does with the outcome of one of them.
  unfoldable pub after_observation : Act W Response → Result (Unit {0}) → Act W Response
  after_observation rest (ok _) = rest
  after_observation rest (err (bad_request message)) = pure (Types.status 400 message)
  after_observation rest (err not_found) = rest
  after_observation rest (err _) = pure (internal_error "failed to apply observation")

  unfoldable pub apply_observations : String → Time → List Observation → Act W Response
  apply_observations device reported_at [] = pure ack
  apply_observations device reported_at (obs ∷ observations) = do
    done ← attempt (update_status_for_observation env device obs (some reported_at))
    after_observation (apply_observations device reported_at observations) done

  unfoldable pub after_connect : Act W Response → Result (Unit {0}) → Act W Response
  after_connect rest (ok _) = rest
  after_connect rest (err e) = pure (internal_error "failed to mark device connected")

  -- `handleReport` with a body that was decoded and a time that was read.
  unfoldable pub report_at : String → Time → List Observation → Act W Response
  report_at device reported_at observations = do
    now ← read_clock env
    r ← registry
    let seen_hb = last_seen_and_heartbeat cfg r device
    modify_registry (record_heartbeat (now 1) device seen_hb.1)
    modify_registry (record_report (now 2) device)
    let rest = apply_observations device reported_at observations
    if is_stale cfg (now 0) seen_hb.0 seen_hb.1
        then (do
          connected ← attempt (mark_device_connected env device)
          after_connect rest connected)
        else rest

  unfoldable pub report_or_reject : String → List Observation → Option Time → Act W Response
  report_or_reject device observations none = pure (Types.status 400 "invalid timestamp")
  report_or_reject device observations (some t) = report_at device t observations

  -- The body is what the JSON decoder makes of the first 4 MiB, `none` where it fails.
  unfoldable pub handle_report : String → Option ReportRequest → Act W Response
  handle_report device none = pure (Types.status 400 "invalid JSON body")
  handle_report device (some req) = do
    now ← read_clock env
    report_or_reject device req.observations (reported_time req.timestamp (now 0))

  unfoldable pub handle_connect : String → Act W Response
  handle_connect device = do
    now ← read_clock env
    r ← registry
    modify_registry (record_heartbeat (now 0) device (effective_heartbeat cfg r device))
    modify_registry (record_report (now 1) device)
    connected ← attempt (mark_device_connected env device)
    after_connect (pure ack) connected

-- A request as the handlers read it.
pub record Request : Type 0 where
  pub path : String
  pub method : String
  pub device_token : String
  pub if_none_match : String
  pub body : Option ReportRequest

module _ {W : Type 0} (env : Env W) (cfg : Config) where
  unfoldable pub serve_route : Request → Route → Act W Response
  serve_route req Auth.not_found = pure (Types.status 404 "404 page not found")
  serve_route req Auth.unauthorized = pure (Types.status 401 "unauthorized")
  serve_route req Auth.method_not_allowed = pure (Types.status 405 "")
  serve_route req (Auth.desired device) = handle_desired env cfg device req.if_none_match
  serve_route req (Auth.report device) = handle_report env cfg device req.body
  serve_route req (Auth.connect device) = handle_connect env cfg device

  -- `handleDevice` with the handler that it calls.
  unfoldable pub serve : Request → Act W Response
  serve req = serve_route req (handle_device env cfg req.path req.method req.device_token)
