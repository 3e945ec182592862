-- ===== src/Remote/Sending.antt =====
-- `sendNow` of internal/remote/reporter.go over `ReportHealth`: what each send meets, and how long a
-- round takes with the backoff that cmd/zeus-gslb/main.go gives it.
pub mod Accepted
pub mod Duration
mod Examples
use zeus_gslb.Prelude.{
  ℕ, zero, suc, Text, second, ◌+◌, ◌*◌, Bool, true, false, Option, none, some, List, if◌then◌else◌,
}
use zeus_gslb.Prelude.Result.{Result, ok, err}
use zeus_gslb.Prelude.Int.{pos, pos_part}
use zeus_gslb.Prelude.Dict.{Dict}
use zeus_gslb.Remote.Backoff.{exponential_backoff}
use zeus_gslb.Remote.Client.{Client, ClientError, Net, report_health}
use zeus_gslb.Remote.Reporter.{
  HealthReport, HealthReporter, Round, Send, succeeds, fails, fails_done, fails_then_done,
  report_of, send_now, delivered, gave_up, stopped, max_health_report_retries,
}

-- What one send meets: the network, whether the context is done behind an error, or ends in the wait
-- that follows, and how long `ReportHealth` takes.
pub record Trial : Type 0 where
  pub net : Net
  pub done : Bool
  pub done_in_wait : Bool
  pub took : ℕ

abbrev pub send_of : Result ClientError Text → Trial → Send
send_of (ok s) t = succeeds
send_of (err e) t = if t.done then fails_done else if t.done_in_wait then fails_then_done else fails

unfoldable pub sends_of :
    (HealthReport → Option Text) → Client → HealthReport → (ℕ → Trial) → ℕ → Send
sends_of marshal c report trials n =
    send_of (report_health marshal (trials n).net c report) (trials n)

-- `sendNow` with the client's `ReportHealth`.
unfoldable pub send_now_by :
    (HealthReport → Option Text)
    → Client
    → Option (Dict Text)
    → (ℕ → Trial)
    → HealthReporter
    → HealthReporter × HealthReport × Round
send_now_by marshal c states trials r =
    send_now c.cluster states (sends_of marshal c (report_of c.cluster states r) trials) r

-- `remote.ExponentialBackoff(healthReportRetryBase, healthReportRetryCeil)`
unfoldable pub report_backoff : ℕ → ℕ
report_backoff attempt =
    pos_part (exponential_backoff (pos second) (pos (30 * second)) (pos attempt))

-- The loop of `sendNow` with a clock: how the round ends, and how long it has taken then at most. A
-- context that ends in a wait cuts that wait short.
unfoldable pub timed_loop : (ℕ → Send) → (ℕ → ℕ) → ℕ → ℕ → Round × ℕ
timed_loop sends took zero attempt = elim (sends attempt) [
  | succeeds ↦ (delivered attempt, took attempt)
  | fails ↦ (gave_up, took attempt)
  | fails_done ↦ (stopped, took attempt)
  | fails_then_done ↦ (gave_up, took attempt)
]
timed_loop sends took (suc left) attempt =
    let (round, time) = timed_loop sends took left (attempt + 1) in
    elim (sends attempt) [
      | succeeds ↦ (delivered attempt, took attempt)
      | fails ↦ (round, took attempt + (report_backoff (attempt + 1) + time))
      | fails_done ↦ (stopped, took attempt)
      | fails_then_done ↦ (stopped, took attempt + report_backoff (attempt + 1))
    ]

-- `sendNow` with the client's `ReportHealth`, by the clock.
unfoldable pub send_now_timed :
    (HealthReport → Option Text)
    → Client
    → Option (Dict Text)
    → (ℕ → Trial)
    → HealthReporter
    → Round × ℕ
send_now_timed marshal c states trials r =
    timed_loop (sends_of marshal c (report_of c.cluster states r) trials) (λ n. (trials n).took)
      max_health_report_retries 0
