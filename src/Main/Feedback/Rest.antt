-- ===== src/Main/Feedback/Rest.antt =====
-- What has been reported when the goroutines come to rest.
use mathlib.Core.List.{append-nil}
use zeus_gslb.Prelude.{ℕ, Text, text, Time, ◌≡◌, ◌≢◌, sym, ap, ◌∙◌, true, some, ◌++◌}
use zeus_gslb.Checks.Machine
use zeus_gslb.Checks.Machine.{health_text}
use zeus_gslb.Remote.Reporter.Rounds.{reported}
use zeus_gslb.Remote.Goroutines.{outside, selecting}
use zeus_gslb.Remote.Goroutines.Orderly.{quiet-reported}
use zeus_gslb.Main.Reports.{last_state}
use zeus_gslb.Main.Feedback.{Feedback, Reachable}
use zeus_gslb.Main.Feedback.Kept.{in_call}
use zeus_gslb.Main.Feedback.Current.{Reachable-IsFed}

-- Where `Run` waits at its `select` and could not go on by the channel, and no goroutine is in a
-- call, after any results of the probes and any steps: every transition has been in exactly one
-- report, in the order of the mutex; and who follows the transitions of the reports about a target,
-- from "unknown" on, has the health that the machine of the checks has of it.
pub rest-told :
    (cluster : Text) (format : Time → Text) (s : Feedback)
    → Reachable cluster format s
    → s.reporter.sender ≡ selecting
    → s.reporter.wake ≢ some true
    → ((i : ℕ) → s.reporter.callers i ≡ outside)
    → (reported s.reporter.sent ≡ s.reporter.notified)
      × ((key : Text)
          → last_state key (reported s.reporter.sent) (text "unknown")
            ≡ health_text (Machine.state s.machine key))
rest-told cluster format s r at_select empty quiet =
    let fed = Reachable-IsFed cluster format s r in
    let all = quiet-reported cluster s.reporter fed.reach at_select empty quiet in
    let none_called = ap in_call (quiet 0) in
    (
      all,
      λ key.
          ap (λ l. last_state key l (text "unknown"))
            (all
              ∙ sym (append-nil s.reporter.notified)
              ∙ ap (λ l. s.reporter.notified ++ l) (sym none_called))
          ∙ fed.hears key,
    )
