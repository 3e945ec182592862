-- ===== src/Main/Reports.antt =====
-- cmd/zeus-gslb/main.go: `OnTransition`, by which the transitions of the checks reach the reports.
mod Examples
use zeus_gslb.Prelude.{
  Text, text, text_eq, Time, map, ◌≡◌, refl, sym, ap, ◌∙◌, Bool, true, false, List, [], ◌∷◌, ◌++◌,
  if◌then◌else◌, Bool-cases, inl, inr,
}
use zeus_gslb.Checks.Machine
use zeus_gslb.Checks.Machine.{Health, health_text, unknown}
use zeus_gslb.Checks.Runner.{Notice}
use zeus_gslb.Checks.Runner.History.{Pass, runner_after}
use zeus_gslb.Checks.Runner.Notices.{told, last_told, told_health}
use zeus_gslb.Remote.Reporter.{Transition, HealthReporter, ReporterEvent, run_events}
use zeus_gslb.Remote.Reporter.Rounds.{reported, notified, run_events-reported}

-- What `OnTransition` hands to `NotifyTransition`; the format of the time is a parameter.
unfoldable pub on_transition : (Time → Text) → Notice → Transition
on_transition format n = record {
  target_key = n.target_key;
  state = health_text n.health;
  at = format n.at;
}

abbrev pub idle_reporter : HealthReporter
idle_reporter = record { pending = []; woken = false }

-- The state that a reader of the transitions has of a target.
abbrev pub last_state : Text → List Transition → Text → Text
last_state key [] s = s
last_state key (t ∷ ts) s = last_state key ts (if text_eq t.target_key key then t.state else s)

either_text :
    (b : Bool) (g h : Health)
    → (if b then health_text g else health_text h) ≡ health_text (if b then g else h)
either_text true g h = refl
either_text false g h = refl

last_state-on_transition :
    (format : Time → Text) (key : Text) (ns : List Notice) (h : Health)
    → last_state key (map (on_transition format) ns) (health_text h)
      ≡ health_text (last_told key ns h)
unfolding on_transition
last_state-on_transition format key [] h = refl
last_state-on_transition format key (n ∷ ns) h =
    ap (last_state key (map (on_transition format) ns))
      (either_text (text_eq n.target_key key) n.health h)
    ∙ last_state-on_transition format key ns (if text_eq n.target_key key then n.health else h)

-- When the reporter is notified of the transitions of the passes in their order, with heartbeats and
-- wake-ups in between: who follows the transitions of the reports about a target, and those that
-- still wait, from "unknown" on, has the health that the machine of the checks has of it.
pub reports_tell :
    (format : Time → Text) (cluster key : Text) (ps : List Pass) (es : List ReporterEvent)
    → notified es ≡ map (on_transition format) (told ps)
    → last_state key
        (reported (run_events cluster es idle_reporter).1
          ++ (run_events cluster es idle_reporter).0.pending)
        (text "unknown")
      ≡ health_text (Machine.state (runner_after ps).machine key)
reports_tell format cluster key ps es h =
    ap (λ l. last_state key l (text "unknown")) (run_events-reported cluster es idle_reporter ∙ h)
    ∙ last_state-on_transition format key (told ps) unknown
    ∙ ap health_text (told_health key ps).0
