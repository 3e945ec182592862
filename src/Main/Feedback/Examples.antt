-- ===== src/Main/Feedback/Examples.antt =====
-- A report whose queue was taken before a target went down, and whose states have that already.
use zeus_gslb.Prelude.{text, Time, Text, ◌≡◌, refl, false, some, [], ◌∷◌, ℕ, arith}
use zeus_gslb.Prelude.Int
use zeus_gslb.Prelude.Int.{pos}
use zeus_gslb.Prelude.Dict
use zeus_gslb.Checks.Machine.{new_machine, record_result, record_in, get_or_create, health_text}
use zeus_gslb.Remote.Reporter.{HealthReport, Transition}
use zeus_gslb.Remote.Reporter.Rounds.{reported}
use zeus_gslb.Checks.Machine
use zeus_gslb.Main.Feedback.Rest.{rest-told}
use zeus_gslb.Remote.Goroutines
use zeus_gslb.Remote.Goroutines.{sending, outside}
use zeus_gslb.Main.Reports.{on_transition, last_state}
use zeus_gslb.Main.Feedback.{Feedback, announce, Reachable, start, then_step, records, goes}
use zeus_gslb.Main.Feedback.Current.{sending-IsCurrent, IsCurrent}

abbrev format : Time → Text
format t = text "now"

abbrev run :
    (s : Feedback) × (h : HealthReport) × Reachable (text "c") format s
    × (s.reporter.sender ≡ sending h)
unfolding Dict.get Dict.put new_machine record_result record_in get_or_create announce on_transition
    Goroutines.ensure_init Int.incr
run = (
  _,
  _,
  then_step _ _
      (then_step _ _
        (then_step _ _
          (then_step _ _ (then_step _ _ start (goes (Goroutines.starts refl) tt))
            (goes (Goroutines.heartbeats refl) tt))
          (goes (Goroutines.takes refl) tt))
        (records (text "t") false (pos 1) (pos 1) 0 refl))
      (goes (Goroutines.reports [] (some _) refl) refl),
  refl,
)

sending-IsCurrent_example : IsCurrent run.0.reporter run.1
unfolding run
sending-IsCurrent_example = sending-IsCurrent (text "c") format run.0 run.1 run.2 run.3

abbrev went_down : Transition
went_down = record { target_key = text "t"; state = text "unhealthy"; at = text "now" }

-- The target goes down, and `Run` reports it and waits.
abbrev rest : (s : Feedback) × Reachable (text "c") format s
unfolding Dict.get Dict.put new_machine record_result record_in get_or_create announce on_transition
    Goroutines.ensure_init Goroutines.offer Int.incr
rest = (
  _,
  then_step _ _
      (then_step _ _
        (then_step _ _
          (then_step _ _
            (then_step _ _
              (then_step _ _
                (then_step _ _
                  (then_step _ _ (then_step _ _ start (goes (Goroutines.starts refl) tt))
                    (records (text "t") false (pos 1) (pos 1) 0 refl))
                  (goes (Goroutines.prepares 0 went_down refl) tt))
                (goes (Goroutines.appends 0 went_down refl) tt))
              (goes (Goroutines.wakes 0 refl) tt))
            (goes (Goroutines.receives refl refl) tt))
          (goes (Goroutines.takes refl) tt))
        (goes (Goroutines.reports (went_down ∷ []) (some _) refl) refl))
      (goes (Goroutines.finishes _ refl) tt),
)

all_outside : (i : ℕ) → rest.0.reporter.callers i ≡ outside
unfolding rest
all_outside i = ground arith

rest-told_example :
    (reported rest.0.reporter.sent ≡ rest.0.reporter.notified)
    × ((key : Text)
        → last_state key (reported rest.0.reporter.sent) (text "unknown")
          ≡ health_text (Machine.state rest.0.machine key))
unfolding rest
rest-told_example = rest-told (text "c") format rest.0 rest.1 refl (λ q. cc q) all_outside
