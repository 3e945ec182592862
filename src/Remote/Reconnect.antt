-- ===== src/Remote/Reconnect.antt =====
-- The rounds of `Run` of internal/remote/runner.go in time: a subscription, the backoff, and the polls
-- of `pollUntil` within it, with the intervals that cmd/zeus-gslb/main.go sets.
pub mod Gaps
pub mod Fallback
mod Refines
mod Examples
use zeus_gslb.Prelude.{
  ℕ, suc, Text, Time, second, ◌-◌, ◌*◌, ltb, Bool, Option, none, some, List, [], ◌∷◌, if◌then◌else◌,
}
use zeus_gslb.Prelude.Int.{pos, pos_part}
use zeus_gslb.Bundle.{Bundle}
use zeus_gslb.Bundle.Cache.{Dir}
use zeus_gslb.Bundle.Store.{Store}
use zeus_gslb.Remote.Backoff.{exponential_backoff}
use zeus_gslb.Remote.Refetch.{Fetch, refetch_and_apply}

abbrev pub poll_fallback_interval : Time
poll_fallback_interval = 5 * second

-- `remote.ExponentialBackoff(reconnectBackoffBase, reconnectBackoffCeil)`
unfoldable pub reconnect_backoff : ℕ → Time
reconnect_backoff attempt =
    pos_part (exponential_backoff (pos (1 * second)) (pos (30 * second)) (pos attempt))

-- One subscription: the refetches that its events make, and what the polls behind its end would
-- meet, as many as there are ticks.
pub record Session : Type 0 where
  pub events : List Fetch
  pub polls : List Fetch

module _ (unmarshal : Text → Option Bundle) where
  -- `onEvent` for each event.
  unfoldable pub refetch_each : List Fetch → Store × Dir → Store × Dir
  refetch_each [] x = x
  refetch_each (f ∷ fs) (s, d) = refetch_each fs (refetch_and_apply unmarshal f s d)

  -- `pollUntil` with `left` until the deadline: a tick before it is a poll. A fetch is shorter than
  -- the interval.
  unfoldable pub poll_until : Time → Time → List Fetch → Store × Dir → Store × Dir
  poll_until interval left [] x = x
  poll_until interval left (f ∷ fs) (s, d) =
      let rest = poll_until interval (left - interval) fs (refetch_and_apply unmarshal f s d) in
      if ltb interval left then rest else (s, d)

  -- One round of the loop of `Run`, the end of subscription number `attempt` included.
  unfoldable pub run_round : ℕ → Session → Store × Dir → Store × Dir
  run_round attempt session x =
      poll_until poll_fallback_interval (reconnect_backoff attempt) session.polls
        (refetch_each session.events x)

  -- The loop, which counts the attempts from 0 on and never resets the count.
  unfoldable pub run_rounds : ℕ → List Session → Store × Dir → Store × Dir
  run_rounds attempt [] x = x
  run_rounds attempt (session ∷ sessions) x =
      run_rounds (suc attempt) sessions (run_round (suc attempt) session x)

-- The waits of those rounds.
unfoldable pub waits_of : ℕ → List Session → List Time
waits_of attempt [] = []
waits_of attempt (session ∷ sessions) =
    reconnect_backoff (suc attempt) ∷ waits_of (suc attempt) sessions
