-- ===== src/Agent/Run.antt =====
-- agent/main.go: the loop of `run`. A step is one round: the select, the handling of the ticker that
-- it chose and, where that succeeds, the reset of the heartbeat ticker. Times are nanoseconds; a ticker
-- fires at the time that it is due. The end of the context is left out.
pub mod Backoff
pub mod Starved
use praetor.Base.{
  ℕ, suc, ◌+◌, ◌-◌, ◌*◌, ◌/◌, ◌≤◌, ◌<◌, ◌≡◌, ◌||◌, Bool, true, false, List, [], ◌∷◌, leb, ltb,
  if◌then◌else◌,
}
use praetor.Base.Int.{pos}
use praetor.Base.Result.{Result, ok, err, ApiError}
use praetor.Agent.Env.{Env}
use praetor.Agent.Actions.{seconds}
use praetor.Agent.Poll.{Config, Agent, poll_desired, send_report}

abbrev pub max_backoff : ℕ
max_backoff = seconds 30

-- Durations are below 2^62, so that doubling does not wrap.
unfoldable pub next_backoff : ℕ → ℕ
next_backoff current = let n = current * 2 in if ltb max_backoff n then max_backoff else n

abbrev pub min : ℕ → ℕ → ℕ
min a b = if leb a b then a else b

abbrev pub max : ℕ → ℕ → ℕ
max a b = if leb a b then b else a

-- The firing behind the one at `due`, of a ticker that keeps its pace up to `now`.
unfoldable pub next_tick : ℕ → ℕ → ℕ → ℕ
next_tick period due now = due + period * ((now - due) / period + 1)

-- time.Ticker of Go 1.22: the time of its next firing, and whether its channel, which has room for one
-- tick, holds one.
pub record Ticker : Type 0 where
  pub pending : Bool
  pub due : ℕ
  pub period : ℕ

unfoldable pub new_ticker : (now period : ℕ) → Ticker
new_ticker now period = record { pending = false; due = now + period; period = period }

-- The ticker at a later time. A firing while the channel is full is dropped.
unfoldable pub elapse : ℕ → Ticker → Ticker
unfolding next_tick
elapse now t =
    if leb t.due now then record t { pending = true; due = next_tick t.period t.due now } else t

-- The tick is received.
abbrev pub receive : Ticker → Ticker
receive t = record t { pending = false }

-- Reset: the channel keeps the tick that it holds.
unfoldable pub reset : (now period : ℕ) → Ticker → Ticker
reset now period t = record t { due = now + period; period = period }

-- The agent and the local variables of the loop.
pub record Loop (W : Type 0) : Type 0 where
  pub agent : Agent
  pub world : W
  pub now : ℕ
  pub desired : Ticker
  pub heartbeat : Ticker
  pub backoff : ℕ

-- When the select returns: at once where a tick is held, else with the first firing.
unfoldable pub wake : {W : Type 0} → Loop W → ℕ
wake s =
    if s.desired.pending || s.heartbeat.pending
    then s.now
    else max s.now (min s.desired.due s.heartbeat.due)

-- Whether the select may choose the ticker.
unfoldable pub is_ready : ℕ → Ticker → Bool
unfolding elapse
is_ready now t = (elapse now t).pending

pub data Event : Type 0 where
  polled poll_failed reported report_failed : Event

abbrev pub five_seconds : ℕ
five_seconds = seconds 5

abbrev pub jitter_bound : ℕ
jitter_bound = 250000000

module _ {W : Type 0} where
  -- The loop behind the first poll.
  unfoldable pub enter : Agent → W → (now period : ℕ) → Loop W
  unfolding new_ticker
  enter a w now period = record {
    agent = a;
    world = w;
    now = now;
    desired = new_ticker now five_seconds;
    heartbeat = new_ticker now period;
    backoff = seconds 2;
  }

  -- A round that succeeds: the backoff is set back, and the heartbeat ticker is reset.
  unfoldable pub settle : Agent × W → (ended period : ℕ) → (desired heartbeat : Ticker) → Loop W
  unfolding elapse reset
  settle (a, w) ended period desired heartbeat = record {
    agent = a;
    world = w;
    now = ended;
    desired = elapse ended desired;
    heartbeat = reset ended period (elapse ended heartbeat);
    backoff = seconds 2;
  }

  -- A round that fails: it ends behind the sleep, and `continue` leaves the heartbeat ticker alone.
  unfoldable pub back_off :
      Loop W → Agent × W → (ended jitter : ℕ) → (desired heartbeat : Ticker) → Loop W
  unfolding next_backoff elapse
  back_off s (a, w) ended jitter desired heartbeat =
      let slept = ended + s.backoff + jitter in
      record {
        agent = a;
        world = w;
        now = slept;
        desired = elapse slept desired;
        heartbeat = elapse slept heartbeat;
        backoff = next_backoff s.backoff;
      }

module _ {W : Type 0} (env : Env W) (config : Config) where
  -- One round. The select chooses either ticker whose channel holds a tick; the handling takes any
  -- time. The reset of a ticker asks for a positive period.
  pub data Step (s : Loop W) : Event → Loop W → Type 0 where
    poll :
        (took period : ℕ)
        → is_ready (wake s) s.desired ≡ true
        → (poll_desired env config (s.agent, s.world)).0 ≡ ok tt
        → (poll_desired env config (s.agent, s.world)).1.0.heartbeat ≡ pos period
        → 0 < period
        → Step s polled (
            settle
              (poll_desired env config (s.agent, s.world)).1
              (wake s + took)
              period
              (receive (elapse (wake s) s.desired))
              (elapse (wake s) s.heartbeat))
    fail_poll :
        (took jitter : ℕ) (e : ApiError)
        → is_ready (wake s) s.desired ≡ true
        → (poll_desired env config (s.agent, s.world)).0 ≡ err e
        → jitter < jitter_bound
        → Step s poll_failed (
            back_off s
              (poll_desired env config (s.agent, s.world)).1
              (wake s + took)
              jitter
              (receive (elapse (wake s) s.desired))
              (elapse (wake s) s.heartbeat))
    report :
        (took period : ℕ)
        → is_ready (wake s) s.heartbeat ≡ true
        → (send_report env config [] (s.agent, s.world)).0 ≡ ok tt
        → s.agent.heartbeat ≡ pos period
        → 0 < period
        → Step s reported (
            settle
              (send_report env config [] (s.agent, s.world)).1
              (wake s + took)
              period
              (elapse (wake s) s.desired)
              (receive (elapse (wake s) s.heartbeat)))
    fail_report :
        (took jitter : ℕ) (e : ApiError)
        → is_ready (wake s) s.heartbeat ≡ true
        → (send_report env config [] (s.agent, s.world)).0 ≡ err e
        → jitter < jitter_bound
        → Step s report_failed (
            back_off s
              (send_report env config [] (s.agent, s.world)).1
              (wake s + took)
              jitter
              (elapse (wake s) s.desired)
              (receive (elapse (wake s) s.heartbeat)))

  -- The rounds of a run, the last one first.
  pub data Run (s : Loop W) : List Event → Loop W → Type 0 where
    here : Run s [] s
    next : {es : List Event} {e : Event} {t u : Loop W} → Run s es t → Step t e u → Run s (e ∷ es) u
