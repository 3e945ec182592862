-- ===== src/Remote/Reporter.antt =====
-- internal/remote/reporter.go: the queue of transitions and the retries of a report.
pub mod Rounds
pub mod Retries
use zeus_gslb.Prelude.{
  ℕ, zero, suc, Text, ◌+◌, ltb, Bool, true, false, Option, none, some, List, [], ◌∷◌, ◌++◌,
  if◌then◌else◌,
}
use zeus_gslb.Prelude.Dict.{Dict}

-- `At` as the text that it is formatted to.
pub record Transition : Type 0 where
  pub target_key : Text
  pub state : Text
  pub at : Text

pub record HealthReport : Type 0 where
  pub cluster : Text
  pub protocol_version : ℕ
  pub transitions : List Transition
  pub states : Dict Text

abbrev pub health_protocol_version : ℕ
health_protocol_version = 1

abbrev pub max_health_report_retries : ℕ
max_health_report_retries = 5

-- The queue and the `wake` channel of capacity one.
pub record HealthReporter : Type 0 where
  pub pending : List Transition
  pub woken : Bool

unfoldable pub notify_transition : Transition → HealthReporter → HealthReporter
notify_transition t r = record { pending = r.pending ++ t ∷ []; woken = true }

-- How a round of sending ends: delivered after so many failures, given up, or cut off by the
-- context.
pub data Round : Type 0 where
  delivered : ℕ → Round
  gave_up stopped : Round

-- What a send meets: success, or an error while the context lives, is done, or is done in the wait.
pub data Send : Type 0 where
  succeeds fails fails_done fails_then_done : Send

-- The loop of `sendNow` on the sends in their order, from `attempt` failures on; `left` of the
-- `maxHealthReportRetries` retries remain.
unfoldable pub send_loop : (ℕ → Send) → ℕ → ℕ → Round
send_loop sends zero attempt = elim (sends attempt) [
  | succeeds ↦ delivered attempt
  | fails ↦ gave_up
  | fails_done ↦ stopped
  | fails_then_done ↦ gave_up
]
send_loop sends (suc left) attempt =
    let rest = send_loop sends left (attempt + 1) in
    elim (sends attempt) [
      | succeeds ↦ delivered attempt
      | fails ↦ rest
      | fails_done ↦ stopped
      | fails_then_done ↦ stopped
    ]

-- The report of `sendNow`.
abbrev pub report_of : Text → Option (Dict Text) → HealthReporter → HealthReport
report_of cluster states r = record {
  cluster = cluster;
  protocol_version = health_protocol_version;
  transitions = r.pending;
  states = elim states [ none ↦ [] | some s ↦ s ];
}

-- `sendNow`: the report that it sends, and how that goes. `none` is a reporter without states.
unfoldable pub send_now :
    Text → Option (Dict Text) → (ℕ → Send) → HealthReporter → HealthReporter × HealthReport × Round
send_now cluster states sends r = (
  record r { pending = [] },
  report_of cluster states r,
  send_loop sends max_health_report_retries 0,
)

-- What reaches the reporter: a transition, the heartbeat or the wake-up.
pub data ReporterEvent : Type 0 where
  transition : Transition → ReporterEvent
  heartbeat wake : Option (Dict Text) → (ℕ → Send) → ReporterEvent

-- One event, with the report that it sends.
unfoldable pub on_event : Text → ReporterEvent → HealthReporter → HealthReporter × List HealthReport
on_event cluster (transition t) r = (notify_transition t r, [])
on_event cluster (heartbeat states sends) r =
    let (r', report, round) = send_now cluster states sends r in (r', report ∷ [])
on_event cluster (wake states sends) r =
    if r.woken
    then (let (r', report, round) = send_now cluster states sends (record r { woken = false }) in
        (r', report ∷ []))
    else (r, [])

-- The events in the order in which the mutex and the channel admit them.
unfoldable pub run_events :
    Text → List ReporterEvent → HealthReporter → HealthReporter × List HealthReport
run_events cluster [] r = (r, [])
run_events cluster (e ∷ es) r =
    let (r', first) = on_event cluster e r in
    let (r'', rest) = run_events cluster es r' in (r'', first ++ rest)
