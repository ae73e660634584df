-- ===== src/Agent/Run/Starved.antt =====
-- The heartbeat ticker of the loop.
use praetor.Base.{◌≡◌, refl, ◌≤◌, ◌<◌, ◌+◌, ℕ, List, arith, All, ◌≢◌, ◌∙◌, ap, true, false}
use praetor.Agent.Env.{Env}
use praetor.Agent.Poll.{Config, Agent, poll_desired}
use praetor.Agent.Run.{
  next_tick, Ticker, new_ticker, elapse, receive, reset, is_ready, wake, Loop, Event, polled,
  poll_failed, enter, settle, five_seconds, Step, poll, fail_poll, report, fail_report, Run, here,
  next,
}

-- A ticker that is not late at one time is not late at a later one.
elapse_due-le :
    (t : Ticker) (before now : ℕ)
    → t.due ≤ before + five_seconds
    → before ≤ now
    → t.period ≡ five_seconds
    → (elapse now t).due ≤ now + five_seconds
unfolding elapse next_tick
elapse_due-le t before now h late pace = ground (arith, pace)

elapse_early : (t : Ticker) (now : ℕ) → now < t.due → elapse now t ≡ t
unfolding elapse
elapse_early t now h = ground arith

elapse_period : (t : Ticker) (now : ℕ) → (elapse now t).period ≡ t.period
unfolding elapse
elapse_period t now = ground arith

module _ {W : Type 0} (env : Env W) (config : Config) where
  -- How long the handling of the round takes.
  unfoldable pub time_of : {s t : Loop W} {e : Event} → Step env config s e t → ℕ
  time_of (poll took period due good beat positive) = took
  time_of (fail_poll took jitter e due bad short) = took
  time_of (report took period due good beat positive) = took
  time_of (fail_report took jitter e due bad short) = took

  -- Each round of a run takes less than the heartbeat period that it starts with, less five seconds.
  abbrev pub IsPrompt : {s t : Loop W} {es : List Event} → Run env config s es t → Type 0
  IsPrompt here = Unit
  IsPrompt (next {t} run step) = IsPrompt run × (five_seconds + time_of step < t.heartbeat.period)

  -- The heartbeat ticker was reset when the round began, and the next poll is at most five seconds off.
  record IsAhead (s : Loop W) : Type 0 where
    pub quiet : s.heartbeat.pending ≡ false
    pub whole : s.heartbeat.due ≡ s.now + s.heartbeat.period
    pub soon : s.desired.due ≤ s.now + five_seconds
    pub pace : s.desired.period ≡ five_seconds

  wake_after : (s : Loop W) → s.now ≤ wake s
  unfolding wake
  wake_after s = ground arith

  wake_soon : (s : Loop W) → IsAhead s → wake s ≤ s.now + five_seconds
  unfolding wake
  wake_soon s h = ground (arith, h.soon)

  -- Up to the end of a short round the heartbeat ticker stands still.
  heartbeat_rests :
      (s : Loop W) (took : ℕ)
      → IsAhead s
      → five_seconds + took < s.heartbeat.period
      → (elapse (wake s) s.heartbeat ≡ s.heartbeat)
        × (elapse (wake s + took) s.heartbeat ≡ s.heartbeat)
  heartbeat_rests s took h short =
      let soon = wake_soon s h in
      (
        elapse_early s.heartbeat (wake s) (omega (arith, h.whole, soon)),
        elapse_early s.heartbeat (wake s + took) (omega (arith, h.whole, soon)),
      )

  -- A round that polls well puts the heartbeat off.
  poll-IsAhead :
      (s : Loop W) (took period : ℕ) (a : Agent) (w : W)
      → IsAhead s
      → five_seconds + took < s.heartbeat.period
      → IsAhead (
          settle
            (a, w)
            (wake s + took)
            period
            (receive (elapse (wake s) s.desired))
            (elapse (wake s) s.heartbeat))
  unfolding settle reset
  poll-IsAhead s took period a w h short =
      let (first, second) = heartbeat_rests s took h short in
      let polled_ticker = receive (elapse (wake s) s.desired) in
      let pace : polled_ticker.period ≡ five_seconds = elapse_period s.desired (wake s) ∙ h.pace in
      record {
        quiet = rw first (rw second h.quiet);
        whole = refl;
        soon =
            elapse_due-le polled_ticker (wake s) (wake s + took)
              (elapse_due-le s.desired s.now (wake s) h.soon (wake_after s) h.pace) (omega arith)
              pace;
        pace = elapse_period polled_ticker (wake s + took) ∙ pace;
      }

  not_ready :
      (s : Loop W) (took : ℕ)
      → IsAhead s
      → five_seconds + took < s.heartbeat.period
      → is_ready (wake s) s.heartbeat ≢ true
  unfolding is_ready
  not_ready s took h short ready =
      let still = (heartbeat_rests s took h short).0 in
      cc (ap (λ t. t.pending) still, h.quiet, ready)

  round-IsAhead :
      {s t : Loop W} {e : Event} (step : Step env config s e t)
      → IsAhead s
      → five_seconds + time_of step < s.heartbeat.period
      → e ≢ poll_failed
      → IsAhead t × (e ≡ polled)
  unfolding time_of
  round-IsAhead {s} (poll took period due good beat positive) h short kept = (
    poll-IsAhead s took period (poll_desired env config (s.agent, s.world)).1.0
        (poll_desired env config (s.agent, s.world)).1.1 h short,
    refl,
  )
  round-IsAhead (fail_poll took jitter e due bad slept) h short kept = absurd (kept refl)
  round-IsAhead {s} (report took period due good beat positive) h short kept =
      absurd (not_ready s took h short due)
  round-IsAhead {s} (fail_report took jitter e due bad slept) h short kept =
      absurd (not_ready s took h short due)

  Run-IsAhead :
      (a : Agent) (w : W) (now period : ℕ) {es : List Event} {t : Loop W}
      → (run : Run env config (enter a w now period) es t) → IsPrompt run
      → All (λ e. e ≢ poll_failed) es
      → IsAhead t × All (λ e. e ≡ polled) es
  unfolding enter new_ticker
  Run-IsAhead a w now period here short kept =
      (record { quiet = refl; whole = refl; soon = omega arith; pace = refl }, tt)
  Run-IsAhead a w now period (next run step) short kept =
      let (ahead, rest) = Run-IsAhead a w now period run short.0 kept.1 in
      let (more, same) = round-IsAhead step ahead short.1 kept.0 in (more, (same, rest))

  -- In a run of the loop in which no poll fails and each round takes less than the heartbeat period
  -- less five seconds, no heartbeat report is ever sent: each poll sets the heartbeat ticker back, and
  -- the next poll comes first.
  pub heartbeat_starves :
      (a : Agent) (w : W) (now period : ℕ) {es : List Event} {t : Loop W}
      → (run : Run env config (enter a w now period) es t) → IsPrompt run
      → All (λ e. e ≢ poll_failed) es
      → All (λ e. e ≡ polled) es
  heartbeat_starves a w now period run short kept = (Run-IsAhead a w now period run short kept).1
