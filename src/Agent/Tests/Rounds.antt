-- ===== src/Agent/Tests/Rounds.antt =====
-- Runs of the reconciliation, of a poll and of the loop.
use praetor.Base.{
  ◌≡◌, ℕ, true, ◌≤◌, ◌+◌, ◌||◌, not, ◌&&◌, ◌==◌, leb, refl, some, [], ◌∷◌, All, has_key, arith,
  trim_space,
}
use praetor.Base.Int.{pos}
use praetor.Base.Result.{ok}
use praetor.Agent.Env.{ManagedItem}
use praetor.Agent.Actions.{seconds, mark_action, should_attempt_action}
use praetor.Agent.Actions.Throttle.{should_attempt-mark}
use praetor.Agent.Reconcile.{reconcile_items, remove_missing}
use praetor.Agent.Reconcile.Complete.{AnswersAll, is_desired, reconcile_items_answers}
use praetor.Agent.Poll.{
  document, remember, fetch_desired, poll_desired, act_on, reconcile, send_report, post,
  note_observed, adopt_heartbeat,
}
use praetor.Agent.Poll.Kept.{poll-refines}
use praetor.Agent.StateFile.{persist_state}
use praetor.Agent.Run.{
  Loop, wake, new_ticker, elapse, receive, reset, is_ready, settle, enter, polled, five_seconds,
  poll, Run, here, next,
}
use praetor.Agent.Run.Backoff.{Run-IsBounded}
use praetor.Agent.Run.Starved.{time_of, IsPrompt, heartbeat_starves}
use praetor.Agent.Tests.World.{World, env, config, agent, world, desired, stored_items}

reconcile_items_answers_example :
    AnswersAll desired.items (reconcile_items env stored_items desired.items [] world).0.0
reconcile_items_answers_example = reconcile_items_answers env stored_items desired.items [] world

fetched : (fetch_desired env config agent.last_etag world).0 ≡ ok (document desired "e1")
unfolding fetch_desired
fetched = refl

remembered : (remember (document desired "e1") agent).last_desired ≡ some desired
unfolding remember
remembered = refl

poll-refines_example :
    has_key "infra/agent" (poll_desired env config (agent, world)).1.0.managed
    ≡ is_desired "infra/agent" desired.items
poll-refines_example =
    poll-refines env config agent world (document desired "e1") desired "infra/agent" fetched
      remembered

abbrev marked : ManagedItem
marked = record {
  unit_name = "apollo-infra-agent.service";
  last_action_at = "";
  last_action_spec_hash = "";
  last_action_description = "";
}

-- Nine seconds on the clock, against a mark at five: the interval is not over.
should_attempt-mark_example :
    (should_attempt_action env
      (mark_action env marked "h1" "restart" world).0
      "h1"
      (seconds 5)
      world).0
    ≡ ((not ("h1" == "") && not ("h1" == "h1")) || leb (5000000000 + seconds 5) world.time)
unfolding trim_space
should_attempt-mark_example =
    should_attempt-mark env marked "h1" "h1" "restart" (seconds 5) 5000000000 world world refl refl

polled_well : (poll_desired env config (agent, world)).0 ≡ ok tt
unfolding poll_desired fetch_desired remember act_on reconcile reconcile_items remove_missing
    persist_state send_report post note_observed adopt_heartbeat
polled_well = refl

heartbeat_after : (poll_desired env config (agent, world)).1.0.heartbeat ≡ pos 15000000000
unfolding poll_desired fetch_desired remember act_on reconcile reconcile_items remove_missing
    persist_state send_report post note_observed adopt_heartbeat
heartbeat_after = refl

-- What the first poll does: the files are written, the daemon is reloaded, the unit is started and
-- shown; the report is noted.
commands_of_poll :
    (poll_desired env config (agent, world)).1.1.commands
    ≡ ("show" ∷ "apollo-infra-agent.service" ∷ "-p" ∷ "MainPID" ∷ "-p" ∷ "ExecMainStartTimestamp"
        ∷ "-p" ∷ "ActiveState" ∷ "-p" ∷ "SubState" ∷ [])
      ∷ ("enable" ∷ "--now" ∷ "apollo-infra-agent.service" ∷ [])
      ∷ ("daemon-reload" ∷ [])
      ∷ []
unfolding poll_desired fetch_desired remember act_on reconcile reconcile_items remove_missing
    persist_state send_report post note_observed adopt_heartbeat
commands_of_poll = refl

-- The loop behind a first poll that takes some time.
abbrev behind_poll : ℕ → Loop World
behind_poll took =
    settle (poll_desired env config (agent, world)).1 (five_seconds + took) 15000000000
      (receive (elapse five_seconds (new_ticker 0 five_seconds)))
      (elapse five_seconds (new_ticker 0 15000000000))

abbrev start : Loop World
start = enter agent world 0 15000000000

ready_at_five : is_ready (wake start) start.desired ≡ true
unfolding is_ready wake enter elapse new_ticker
ready_at_five = refl

abbrev one_round : Run env config start (polled ∷ []) (behind_poll 1)
unfolding enter wake
one_round = next here (poll 1 15000000000 ready_at_five polled_well heartbeat_after (omega arith))

Run-IsBounded_example : (seconds 2 ≤ seconds 2) × (seconds 2 ≤ seconds 30)
unfolding settle
Run-IsBounded_example = Run-IsBounded env config agent world 0 15000000000 one_round

one_round-IsPrompt : IsPrompt env config one_round
unfolding one_round enter new_ticker time_of
one_round-IsPrompt = (tt, omega arith)

heartbeat_starves_example : All (λ e. e ≡ polled) (polled ∷ [])
heartbeat_starves_example =
    heartbeat_starves env config agent world 0 15000000000 one_round one_round-IsPrompt (cc, tt)

-- Behind a poll of sixteen seconds the channel of the heartbeat ticker holds a tick, also behind the
-- reset: the select may choose it.
ready_behind_slow_poll :
    is_ready (wake (behind_poll 16000000000)) (behind_poll 16000000000).heartbeat ≡ true
unfolding is_ready wake settle elapse reset new_ticker
ready_behind_slow_poll = refl
