-- ===== src/Agent/Poll/Kept.antt =====
-- What a poll leaves of the agent.
use praetor.Base.{
  ◌≡◌, refl, ap, ◌∙◌, Bool, true, false, ◌||◌, Option, none, some, List, [], ◌∷◌, String, has_key,
  lookup,
}
use praetor.Base.Result.{Result, ok, err, ApiError}
use praetor.Gateway.Types.{DesiredResponse, Observation}
use praetor.Agent.Env.{Env}
use praetor.Agent.Reconcile.Complete.{is_desired, has_key-reconcile_items}
use praetor.Agent.Poll.{
  Config, Agent, Fetched, remember, fetch_desired, send_report, report_some, post, reconcile,
  act_on, after_post, after_fetch, poll_desired,
}

or_false : (b : Bool) → (b || false) ≡ b
or_false true = refl
or_false false = refl

module _ {W : Type 0} (env : Env W) (config : Config) where
  after_fetch-err :
      (a : Agent) (r : Result Fetched) (w : W) (e : ApiError)
      → r ≡ err e
      → after_fetch env config a (r, w) ≡ (err e, (a, w))
  after_fetch-err a (ok fetched) w e h = cc
  after_fetch-err a (err x) w e h = let same : x ≡ e = cc in rw same refl

  -- A poll that gets no answer, or one that it cannot use, changes nothing of the agent, and does
  -- nothing to the world but ask.
  pub poll_failed :
      (a : Agent) (w : W) (e : ApiError)
      → (fetch_desired env config a.last_etag w).0 ≡ err e
      → poll_desired env config (a, w) ≡ (err e, (a, (fetch_desired env config a.last_etag w).1))
  unfolding poll_desired
  poll_failed a w e h =
      let asked = fetch_desired env config a.last_etag w in after_fetch-err a asked.0 asked.1 e h

  -- A report leaves the managed items.
  post-managed :
      (obs : List Observation) (a : Agent) (r : Result (Unit {0})) (w : W)
      → (after_post env config obs a (r, w)).1.0.managed ≡ a.managed
  post-managed obs a (ok u) w = refl
  post-managed obs a (err e) w = refl

  report-managed :
      (obs : List Observation) (a : Agent) (w : W)
      → (report_some env config obs (a, w)).1.0.managed ≡ a.managed
  unfolding send_report
  report-managed [] a w = refl
  report-managed (obs ∷ more) a w =
      let sent = post env config (obs ∷ more) w in post-managed (obs ∷ more) a sent.0 sent.1

  -- The keys that are managed behind an action on a document are those of its items.
  act_on-managed :
      (a : Agent) (w : W) (d : DesiredResponse) (key : String)
      → has_key key (act_on env config (some d) (a, w)).1.0.managed ≡ is_desired key d.items
  unfolding act_on reconcile lookup
  act_on-managed a w d key =
      ap (has_key key) (report-managed (reconcile env config a.managed d w).0.0 _ _)
      ∙ (has_key-reconcile_items env a.managed d.items [] w key ∙ or_false (is_desired key d.items))

  act_on-managed_some :
      (o : Option DesiredResponse) (a : Agent) (w : W) (d : DesiredResponse) (key : String)
      → o ≡ some d
      → has_key key (act_on env config o (a, w)).1.0.managed ≡ is_desired key d.items
  act_on-managed_some none a w d key h = cc
  act_on-managed_some (some e) a w d key h =
      let same : e ≡ d = cc in rw same (act_on-managed a w d key)

  poll_managed_of :
      (a : Agent) (r : Result Fetched) (w : W) (fetched : Fetched) (d : DesiredResponse)
      (key : String)
      → r ≡ ok fetched
      → (remember fetched a).last_desired ≡ some d
      → has_key key (after_fetch env config a (r, w)).1.0.managed ≡ is_desired key d.items
  poll_managed_of a (ok f) w fetched d key got last =
      let same : f ≡ fetched = cc in
      rw same (act_on-managed_some _ (remember fetched a) w d key last)
  poll_managed_of a (err e) w fetched d key got last = cc

  -- Whatever fails of the files, of systemctl, of the fetches and of the report, a poll that gets an
  -- answer leaves as the managed items exactly those of the document to act on: the new one, or
  -- behind an answer of no change the one before.
  pub poll-refines :
      (a : Agent) (w : W) (fetched : Fetched) (d : DesiredResponse) (key : String)
      → (fetch_desired env config a.last_etag w).0 ≡ ok fetched
      → (remember fetched a).last_desired ≡ some d
      → has_key key (poll_desired env config (a, w)).1.0.managed ≡ is_desired key d.items
  unfolding poll_desired
  poll-refines a w fetched d key got last =
      let asked = fetch_desired env config a.last_etag w in
      poll_managed_of a asked.0 asked.1 fetched d key got last
