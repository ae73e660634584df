-- ===== src/Agent/Poll.antt =====
-- agent/main.go: one poll for the desired state, and the report that follows it.
pub mod Kept
pub mod Isolated
use Prim.Native.String
use praetor.Base.{
  ℕ, Bool, true, false, Option, none, some, List, [], ◌∷◌, String, ◌==◌, eqb, if◌then◌else◌, insert,
  join, trim_space,
}
use praetor.Base.Maps.{Map}
use praetor.Base.Int.{ℤ, pos, ltb_ℤ, ◌*ℤ◌, int64}
use praetor.Base.Decimal.{format_nat}
use praetor.Base.Result.{Result, ok, err, other}
use praetor.Base.Act.{Act, pure, raise, ◌>>=◌, ◌>>◌}
use praetor.Base.Act.State
use praetor.Base.Act.State.{State}
use praetor.Gateway.Types.{DesiredResponse, Observation}
use praetor.Agent.Env.{Env, ManagedItem, DesiredReply}
use praetor.Agent.Keys.{item_key}
use praetor.Agent.Reconcile.{reconcile_items, remove_missing}
use praetor.Agent.StateFile.{persist_state}

-- The fields of `agent` that stay as `main` sets them, and the version of the build.
pub record Config : Type 0 where
  pub device_name : String
  pub gateway_url : String
  pub device_token : String
  pub device_token_secret : String
  pub state_path : String
  pub version : String

-- The fields that change. The heartbeat is a duration in nanoseconds.
pub record Agent : Type 0 where
  pub last_etag : String
  pub last_observed : Map String
  pub last_desired : Option DesiredResponse
  pub managed : Map ManagedItem
  pub heartbeat : ℤ

-- What an answer of the gateway comes to: a document or none, with the tag.
pub data Fetched : Type 0 where
  document : DesiredResponse → String → Fetched
  unchanged : String → Fetched

-- The entries of `lastObserved` behind a report.
unfoldable pub note_observed : List Observation → Map String → Map String
unfolding insert item_key
note_observed [] seen = seen
note_observed (obs ∷ more) seen =
    note_observed more (insert (item_key obs.namespace obs.name) obs.observed_spec_hash seen)

-- time.Duration(seconds) * time.Second, where the seconds are given.
unfoldable pub adopt_heartbeat : ℤ → Agent → Agent
unfolding int64 ◌*ℤ◌
adopt_heartbeat seconds a =
    if ltb_ℤ (pos 0) seconds then record a { heartbeat = int64 (seconds *ℤ pos 1000000000) } else a

-- The tag and the document, and the document to act on.
unfoldable pub remember : Fetched → Agent → Agent
remember (document d etag) a = record a {
  last_etag = if etag == "" then a.last_etag else etag;
  last_desired = some d;
}
remember (unchanged etag) a = record a { last_etag = if etag == "" then a.last_etag else etag }

unfoldable pub document_of : Result DesiredResponse → String → Result Fetched
document_of (ok d) etag = ok (document d etag)
document_of (err e) etag = err e

unfoldable pub read_reply : String → DesiredReply → Result Fetched
unfolding trim_space document_of format_nat
read_reply last_etag reply =
    let given = trim_space reply.etag in
    let etag = if given == "" then last_etag else given in
    if eqb reply.status_code 200
    then document_of reply.body etag
    else if eqb reply.status_code 304
    then ok (unchanged etag)
    else err (other (String.◌++◌ "unexpected status " (format_nat reply.status_code)))

module _ {W : Type 0} (env : Env W) (config : Config) where
  unfoldable pub compute_device_token : String
  compute_device_token =
      if config.device_token_secret == ""
      then config.device_token
      else env.hmac_sha256_hex config.device_token_secret config.device_name

  unfoldable pub device_url : String → String
  unfolding join
  device_url last = join (config.gateway_url ∷ "/v1/devices/" ∷ config.device_name ∷ last ∷ [])

  unfoldable pub fetch_desired : String → Act W Fetched
  unfolding compute_device_token device_url read_reply
  fetch_desired last_etag = do
    reply ← env.get_desired (device_url "/desired") last_etag compute_device_token
    λ w. (read_reply last_etag reply, w)

  abbrev pub check_status : ℕ → Result (Unit {0})
  check_status code =
      if eqb code 200
      then ok tt
      else err (other (String.◌++◌ "report failed with status " (format_nat code)))

  -- The report of some observations.
  unfoldable pub post : List Observation → Act W (Unit {0})
  unfolding compute_device_token device_url
  post obs = do
    stamp ← λ w. (ok (env.format_rfc3339 (env.now w).0), (env.now w).1)
    code ← env.post_report (device_url "/report") config.version stamp obs compute_device_token
    λ w. (check_status code, w)

  -- The agent and its world, behind an action of the world.
  abbrev pub after_post :
      List Observation → Agent → Result (Unit {0}) × W → Result (Unit {0}) × (Agent × W)
  after_post obs a (ok _, w) =
      (ok tt, (record a { last_observed = note_observed obs a.last_observed }, w))
  after_post obs a (err e, w) = (err e, (a, w))

  unfoldable pub send_report : List Observation → Act (Agent × W) (Unit {0})
  send_report obs (a, w) = after_post obs a (post obs w)

  -- The observations, and the managed items behind the loop, the removals and the write of the state.
  unfoldable pub reconcile :
      Map ManagedItem → DesiredResponse → State W (List Observation × Map ManagedItem)
  reconcile managed desired = State.◌>>=◌ (reconcile_items env managed desired.items []) (λ out.
      State.◌>>◌ (remove_missing env out.1 managed)
        (State.◌>>◌ (persist_state env config.state_path out.1) (State.pure out)))

  abbrev pub report_some : List Observation → Act (Agent × W) (Unit {0})
  report_some [] = pure tt
  report_some (obs ∷ more) = send_report (obs ∷ more)

  unfoldable pub act_on : Option DesiredResponse → Act (Agent × W) (Unit {0})
  act_on none s = (ok tt, s)
  act_on (some desired) (a, w) =
      let (out, w') = reconcile a.managed desired w in
      report_some out.0
        (record (adopt_heartbeat desired.heartbeat_interval_seconds a) { managed = out.1 }, w')

  abbrev pub after_fetch : Agent → Result Fetched × W → Result (Unit {0}) × (Agent × W)
  after_fetch a (ok fetched, w) = let a' = remember fetched a in act_on a'.last_desired (a', w)
  after_fetch a (err e, w) = (err e, (a, w))

  unfoldable pub poll_desired : Act (Agent × W) (Unit {0})
  poll_desired (a, w) = after_fetch a (fetch_desired a.last_etag w)
