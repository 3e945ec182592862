-- ===== src/Remote/Refetch.antt =====
-- The steady state of internal/remote/runner.go: `refetchAndApply`, `pollUntil` and `Run`, on what
-- the stream, the timers and the fetches deliver.
pub mod Serving
use zeus_gslb.Prelude.{ℕ, Text, Time, Bool, Option, none, some, List, [], ◌∷◌}
use zeus_gslb.Prelude.Result.{Result, ok, err}
use zeus_gslb.Bundle.{Bundle}
use zeus_gslb.Bundle.Cache.{Dir, Plan}
use zeus_gslb.Bundle.Store.{Store, apply_if_changed}

-- What one refetch meets: the bytes of the bundle or an error, the time, and how a save ends.
pub record Fetch : Type 0 where
  pub fetched : Option Text
  pub now : Time
  pub plan : Plan

-- What the loops of `Run` and `pollUntil` take: `onEvent` of a subscription, the end of one, a tick
-- of the poll, the end of the backoff, and the end of the context.
pub data RunnerSignal : Type 0 where
  event poll : Fetch → RunnerSignal
  stream_down deadline done : RunnerSignal

-- Where `Run` is.
pub data Phase : Type 0 where
  subscribed down stopped : Phase

module _ (unmarshal : Text → Option Bundle) where
  unfoldable pub refetch_and_apply : Fetch → Store → Dir → Store × Dir
  refetch_and_apply f s d = elim f.fetched [
    | none ↦ (s, d)
    | some raw ↦ let (s', d', applied) = apply_if_changed unmarshal f.plan raw f.now s d in (s', d')
  ]

  -- One signal. A signal that the phase does not listen to changes nothing.
  unfoldable pub step : RunnerSignal → Phase × Store × Dir → Phase × Store × Dir
  step (event f) (subscribed, s, d) = let (s', d') = refetch_and_apply f s d in (subscribed, s', d')
  step stream_down (subscribed, s, d) = (down, s, d)
  step (poll f) (down, s, d) = let (s', d') = refetch_and_apply f s d in (down, s', d')
  step deadline (down, s, d) = (subscribed, s, d)
  step done (p, s, d) = (stopped, s, d)
  step _ x = x

  unfoldable pub run_signals : List RunnerSignal → Phase × Store × Dir → Phase × Store × Dir
  run_signals [] x = x
  run_signals (g ∷ gs) x = run_signals gs (step g x)
