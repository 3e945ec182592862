-- ===== src/Main/Feedback.antt =====
-- cmd/zeus-gslb/main.go: the goroutine of the checks and that of the reporter, step by step, over the
-- health machine that they share: `OnTransition` calls `NotifyTransition` in the goroutine of the
-- checks, and `States` of the reporter is the machine.
pub mod Kept
pub mod News
pub mod Current
pub mod Rest
mod Examples
use zeus_gslb.Prelude.{Text, Time, ◌≡◌, Bool, Option, some, if◌then◌else◌}
use zeus_gslb.Prelude.Int.{ℤ}
use zeus_gslb.Checks.Machine
use zeus_gslb.Checks.Machine.{Machine, Health, new_machine, record_result}
use zeus_gslb.Checks.Runner.{Notice}
use zeus_gslb.Remote.Goroutines.{Goroutines, outside, entered, update, new_reporter, calls, reports}
use zeus_gslb.Remote.Goroutines
use zeus_gslb.Main.Reports.{on_transition}

pub record Feedback : Type 0 where
  pub reporter : Goroutines
  pub machine : Machine

-- `machine` and `reporter` before their goroutines are started.
abbrev pub new_feedback : Feedback
unfolding new_machine
new_feedback = record { reporter = new_reporter; machine = new_machine }

-- `OnTransition` in the goroutine of the checks, which enters `NotifyTransition`.
unfoldable pub announce : (Time → Text) → Bool → Notice → Goroutines → Goroutines
announce format transitioned n r =
    if transitioned
    then record r { callers = update r.callers 0 (entered (on_transition format n)) }
    else r

-- The steps of the reporter that the machine leaves: only `OnTransition` enters `NotifyTransition`,
-- and a report takes the states of the machine.
abbrev pub Allowed :
    {cluster : Text} {r r' : Goroutines} → Machine → Goroutines.Step cluster r r' → Type 0
Allowed m (calls i t h) = ⊥
Allowed m (reports ts states h) = states ≡ some (Machine.states m)
Allowed m _ = Unit

-- A probe's result, with `OnTransition` where it is a transition; and a step of the reporter or of a
-- call of `NotifyTransition`.
pub data Step (cluster : Text) (format : Time → Text) (s : Feedback) : Feedback → Type 0 where
  records :
      (key : Text) (up : Bool) (failure recovery : ℤ) (now : Time)
      → s.reporter.callers 0 ≡ outside
      → Step cluster format s (
          let (m, transitioned, health) = record_result s.machine key up failure recovery in
          record {
            reporter =
                announce format transitioned
                  (record { target_key = key; health = health; at = now })
                  s.reporter;
            machine = m;
          })
  goes :
      {r : Goroutines} (step : Goroutines.Step cluster s.reporter r)
      → Allowed s.machine step
      → Step cluster format s (record s { reporter = r })

pub data Reachable (cluster : Text) (format : Time → Text) : Feedback → Type 0 where
  start : Reachable cluster format new_feedback
  then_step :
      (s t : Feedback)
      → Reachable cluster format s
      → Step cluster format s t
      → Reachable cluster format t
