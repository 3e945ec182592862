-- ===== src/Remote/Reporter/Rounds.antt =====
-- No transition is lost or reported twice by the queue, and a round of sending is bounded.
use mathlib.Core.List.{append-nil, append_assoc}
use zeus_gslb.Prelude.{Text, ◌≡◌, sym, ap, ◌∙◌, inl, inr, false, List, [], ◌∷◌, ◌++◌, Bool-cases}
use zeus_gslb.Remote.Reporter.{
  Transition, HealthReport, HealthReporter, notify_transition, send_now, ReporterEvent, transition,
  heartbeat, wake, on_event, run_events,
}

-- The transitions of the reports, in their order.
abbrev pub reported : List HealthReport → List Transition
reported [] = []
reported (h ∷ hs) = h.transitions ++ reported hs

-- The transitions that the events notify, in their order.
abbrev pub notified : List ReporterEvent → List Transition
notified [] = []
notified (transition t ∷ es) = t ∷ notified es
notified (heartbeat states sends ∷ es) = notified es
notified (wake states sends ∷ es) = notified es

-- The reports of a run carry each transition that was queued or notified exactly once and in its
-- order, and what they do not carry yet is the queue that is left.
pub run_events-reported :
    (cluster : Text) (es : List ReporterEvent) (r : HealthReporter)
    → reported (run_events cluster es r).1 ++ (run_events cluster es r).0.pending
      ≡ r.pending ++ notified es
unfolding run_events on_event send_now notify_transition
run_events-reported cluster [] r = sym (append-nil r.pending)
run_events-reported cluster (transition t ∷ es) r =
    run_events-reported cluster es (notify_transition t r)
    ∙ append_assoc r.pending (t ∷ []) (notified es)
run_events-reported cluster (heartbeat states sends ∷ es) r =
    append_assoc r.pending
      (reported (run_events cluster es (record { pending = []; woken = r.woken })).1)
      (run_events cluster es (record { pending = []; woken = r.woken })).0.pending
    ∙ ap (λ l. r.pending ++ l)
        (run_events-reported cluster es (record { pending = []; woken = r.woken }))
run_events-reported cluster (wake states sends ∷ es) r = elim (Bool-cases r.woken) [
  | inl h ↦ rw h (
      append_assoc r.pending
        (reported (run_events cluster es (record { pending = []; woken = false })).1)
        (run_events cluster es (record { pending = []; woken = false })).0.pending
      ∙ ap (λ l. r.pending ++ l)
          (run_events-reported cluster es (record { pending = []; woken = false })))
  | inr h ↦ rw h (run_events-reported cluster es (record { pending = r.pending; woken = false }))
]
