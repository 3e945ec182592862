-- ===== src/Main/Reports/Examples.antt =====
-- Two passes over one target, and a heartbeat before the reporter is notified.
use zeus_gslb.Prelude.{
  Text, text, second, Time, map, ap, ◌≡◌, ◌*◌, refl, true, false, none, List, [], ◌∷◌, ◌++◌,
}
use zeus_gslb.Prelude.Int.{pos}
use zeus_gslb.Bundle.Samples.{tcp_check, named}
use zeus_gslb.Checks.Machine
use zeus_gslb.Checks.Machine.{health_text}
use zeus_gslb.Checks.Runner.History.{Pass, runner_after}
use zeus_gslb.Checks.Runner.Notices.{told}
use zeus_gslb.Remote.Reporter.{
  Transition, succeeds, ReporterEvent, transition, heartbeat, run_events,
}
use zeus_gslb.Remote.Reporter.Rounds.{reported, notified}
use zeus_gslb.Main.Reports.{on_transition, idle_reporter, last_state, reports_tell}

abbrev pass : Time → Pass
pass now = record {
  records = named (text "a.") (pos 30) (tcp_check (text "t") (pos 1000) ∷ []) ∷ [];
  has_lister = false;
  now = now;
  net = λ key. record {
    dial = λ addr. true;
    get_status = λ url. none;
    ready_count = λ namespace service. pos 0;
  };
}

abbrev passes : List Pass
passes = pass (3 * second) ∷ pass second ∷ []

abbrev format : Time → Text
format t = text "now"

abbrev transitions : List Transition
transitions = map (on_transition format) (told passes)

abbrev events : List ReporterEvent
events = heartbeat none (λ n. succeeds) ∷ map transition transitions

notified-transition : (ts : List Transition) → notified (map transition ts) ≡ ts
notified-transition [] = refl
notified-transition (t ∷ ts) = ap (◌∷◌ t) (notified-transition ts)

reports_tell_example :
    last_state
      (text "t")
      (reported (run_events (text "z-01") events idle_reporter).1
        ++ (run_events (text "z-01") events idle_reporter).0.pending)
      (text "unknown")
    ≡ health_text (Machine.state (runner_after passes).machine (text "t"))
reports_tell_example =
    reports_tell format (text "z-01") (text "t") passes events (notified-transition transitions)
