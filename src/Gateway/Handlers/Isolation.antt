-- ===== src/Gateway/Handlers/Isolation.antt =====
-- What the handlers write.
use praetor.Base.{Option, none, some, List, [], ◌∷◌, String}
use praetor.Base.Result.{Result, ok, err, not_found}
use praetor.Api.{Time}
use praetor.Gateway.Types.{Config, ReportRequest, Response, Observation, DesiredResponse}
use praetor.Gateway.Env.{Env, Act, attempt, ◌>>=◌}
use praetor.Gateway.Env.Keeps.{
  Keeps, ReadsKeep, WritesKeep, Keeps-pure, Keeps-bind, Keeps-attempt, keeps_rules,
}
use praetor.Gateway.Update.Isolation.{update_status-Keeps}
use praetor.Gateway.Sweep.{mark_device_connected}
use praetor.Gateway.Sweep.Isolation.{list-Keeps, mark_connected-Keeps}
use praetor.Gateway.Handlers.{
  compute_desired, answer_desired, handle_desired, after_observation, apply_observations,
  after_connect, report_at, report_or_reject, handle_report, handle_connect,
}

module _ {W : Type 0} (env : Env W) (cfg : Config) (P : W → Type 0) (device : String)
    (reads : ReadsKeep env P) where
  compute_desired-Keeps : Keeps P (compute_desired env cfg device)
  unfolding compute_desired
  compute_desired-Keeps = search (keeps_rules, list-Keeps env P device reads) depth 9

  answer_desired-Keeps :
      (given : String) (r : Result (DesiredResponse × String))
      → Keeps P (answer_desired env cfg device given r)
  unfolding answer_desired
  answer_desired-Keeps given (err e) = Keeps-pure _
  answer_desired-Keeps given (ok doc) = search keeps_rules depth 9

  -- A poll for the desired state writes nothing: it keeps whatever the reads keep.
  pub handle_desired-Keeps : (given : String) → Keeps P (handle_desired env cfg device given)
  unfolding handle_desired
  handle_desired-Keeps given =
      Keeps-bind _ _ (Keeps-attempt _ compute_desired-Keeps) (λ r. answer_desired-Keeps given r)

  module _ (writes : WritesKeep env device P) where
    after_observation-Keeps :
        (rest : Act W Response) (r : Result (Unit {0}))
        → Keeps P rest
        → Keeps P (after_observation env cfg rest r)
    unfolding after_observation
    after_observation-Keeps rest (ok u) k = k
    after_observation-Keeps rest (err not_found) k = k
    after_observation-Keeps rest (err _) k = Keeps-pure _

    after_connect-Keeps :
        (rest : Act W Response) (r : Result (Unit {0}))
        → Keeps P rest
        → Keeps P (after_connect env cfg rest r)
    unfolding after_connect
    after_connect-Keeps rest (ok u) k = k
    after_connect-Keeps rest (err e) k = Keeps-pure _

    apply_observations-Keeps :
        (reported_at : Time) (observations : List Observation)
        → Keeps P (apply_observations env cfg device reported_at observations)
    unfolding apply_observations
    apply_observations-Keeps reported_at [] = Keeps-pure _
    apply_observations-Keeps reported_at (obs ∷ observations) =
        Keeps-bind _ _
          (Keeps-attempt _ (update_status-Keeps env P device reads writes obs (some reported_at)))
          (λ r. after_observation-Keeps _ r (apply_observations-Keeps reported_at observations))

    connect_then-Keeps :
        (rest : Act W Response)
        → Keeps P rest
        → Keeps P (attempt (mark_device_connected env device) >>= after_connect env cfg rest)
    connect_then-Keeps rest k =
        Keeps-bind _ _ (Keeps-attempt _ (mark_connected-Keeps env P device reads writes))
          (λ r. after_connect-Keeps rest r k)

    report_at-Keeps :
        (reported_at : Time) (observations : List Observation)
        → Keeps P (report_at env cfg device reported_at observations)
    unfolding report_at
    report_at-Keeps reported_at observations =
        let rest = apply_observations-Keeps reported_at observations in
        search (keeps_rules, connect_then-Keeps) depth 12

    report_or_reject-Keeps :
        (observations : List Observation) (at : Option Time)
        → Keeps P (report_or_reject env cfg device observations at)
    unfolding report_or_reject
    report_or_reject-Keeps observations none = Keeps-pure _
    report_or_reject-Keeps observations (some t) = report_at-Keeps t observations

    -- A report of a device keeps whatever is kept by reads and by writes to processes of the device.
    pub handle_report-Keeps :
        (body : Option ReportRequest) → Keeps P (handle_report env cfg device body)
    unfolding handle_report
    handle_report-Keeps none = Keeps-pure _
    handle_report-Keeps (some req) = search (keeps_rules, report_or_reject-Keeps)

    -- A connect of a device keeps whatever is kept by reads and by writes to processes of the device.
    pub handle_connect-Keeps : Keeps P (handle_connect env cfg device)
    unfolding handle_connect
    handle_connect-Keeps = search (keeps_rules, connect_then-Keeps) depth 12
