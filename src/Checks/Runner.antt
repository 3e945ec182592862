-- ===== src/Checks/Runner.antt =====
-- `RunOnce` and `Run` of internal/checks/runner.go: which targets are due, their probes, and the transitions
-- that are reported.
pub mod OneTarget
pub mod Passes
pub mod History
pub mod Schedule
pub mod Outcome
pub mod Notices
mod Examples
use zeus_gslb.Prelude.{
  ℕ, Text, ◌+◌, Time, millisecond, second, ltb, Bool, true, false, not, ◌&&◌, Option, none, some,
  List, [], ◌∷◌, ◌++◌, if◌then◌else◌,
}
use zeus_gslb.Prelude.Int.{ℤ, pos, pos_part, scale, leb_ℤ}
use zeus_gslb.Prelude.Dict
use zeus_gslb.Prelude.Dict.{Dict}
use zeus_gslb.Checks.Machine.{Machine, Health, record_result}
use zeus_gslb.Checks.Prober.{LocalCheckConfig, Prober, Network, probe_once}
use zeus_gslb.Checks.Targets.{Target}

pub record Runner : Type 0 where
  pub machine : Machine
  pub last_run : Dict Time

-- A call of `OnTransition`.
pub record Notice : Type 0 where
  pub target_key : Text
  pub health : Health
  pub at : Time

-- The interval in nanoseconds, a second where the product is not positive.
unfoldable pub interval_of : ℤ → ℕ
interval_of interval_ms =
    let interval = scale interval_ms millisecond in
    if leb_ℤ interval (pos 0) then second else pos_part interval

-- Whether the loop does not skip the target.
unfoldable pub is_due : Time → Text → Target → Runner → Bool
is_due now key t r = elim (Dict.get key r.last_run) [
  | none ↦ true
  | some last ↦ not (ltb now (last + interval_of t.config.interval_ms))
]

-- The body of the loop, with the runner behind it and the calls of `OnTransition`.
unfoldable pub run_target : Network → Time → Text → Target → Runner → Runner × List Notice
run_target net now key t r =
    let (machine, transitioned, health) =
      record_result r.machine key (probe_once net t.prober) t.config.failure_threshold
        t.config.recovery_threshold in
    if is_due now key t r
    then (
      record { machine = machine; last_run = Dict.put key now r.last_run },
      (if transitioned then (record { target_key = key; health = health; at = now }) ∷ [] else []),
    )
    else (r, [])

-- The targets in the order in which the map is walked, each with the network as its probe finds it.
unfoldable pub run_once : (Text → Network) → Time → Dict Target → Runner → Runner × List Notice
run_once net now [] r = (r, [])
run_once net now ((key, t) ∷ targets) r =
    let (r', first) = run_target (net key) now key t r in
    let (r'', rest) = run_once net now targets r' in (r'', first ++ rest)
