-- ===== src/Remote/Sending/Accepted.antt =====
-- A round of sending, by what the server answers.
use zeus_gslb.Prelude.{ℕ, Text, ◌≤◌, ◌<◌, ◌≡◌, ◌↔◌, refl, ap, false, Option, arith}
use zeus_gslb.Prelude.Result.{Result, ok, err}
use zeus_gslb.Prelude.Dict.{Dict}
use zeus_gslb.Remote.Client.{Client, ClientError, Response, report_health}
use zeus_gslb.Remote.Client.Fetching.{Reported, report_health-Reported, report_health-ok}
use zeus_gslb.Remote.Reporter.{HealthReport, HealthReporter, delivered, succeeds, fails, report_of}
use zeus_gslb.Remote.Reporter.Retries.{FirstSuccess, send_now_delivers}
use zeus_gslb.Remote.Sending.{Trial, send_of, sends_of, send_now_by}

-- The send fails while the context lives, through the wait behind it.
pub record IsRetried (r : Result ClientError Text) (t : Trial) : Type 0 where
  pub error : ClientError
  pub failed : r ≡ err error
  pub alive : t.done ≡ false
  pub alive_in_wait : t.done_in_wait ≡ false

send_of-fails : (r : Result ClientError Text) (t : Trial) → (send_of r t ≡ fails) ↔ IsRetried r t
send_of-fails (ok s) t = (λ h. absurd (cc h), λ i. absurd (cc (i.failed)))
send_of-fails (err e) t = (
  λ h. record {
    error = e;
    failed = refl;
    alive = ground (arith, h);
    alive_in_wait = ground (arith, h);
  },
  λ i. rw (i.alive, i.alive_in_wait) refl,
)

send_of-succeeds :
    (r : Result ClientError Text) (t : Trial) → send_of r t ≡ succeeds → (s : Text) × (r ≡ ok s)
send_of-succeeds (ok s) t h = (s, refl)
send_of-succeeds (err e) t h = absurd (ground (arith, h))

module _ (marshal : HealthReport → Option Text) (c : Client) (report : HealthReport)
    (trials : ℕ → Trial) where
  -- Send number `n` is answered with a status from 200 to 299, it is one of six, and those before it
  -- fail while the context lives.
  pub record AcceptedAt (n : ℕ) : Type 0 where
    pub within : n ≤ 5
    pub retried :
        (j : ℕ) → j < n → IsRetried (report_health marshal (trials j).net c report) (trials j)
    pub body : Text
    pub answer : Response
    pub reported : Reported marshal (trials n).net c report body answer

  AcceptedAt-FirstSuccess :
      (n : ℕ) → AcceptedAt n → FirstSuccess (sends_of marshal c report trials) 0 n × (n ≤ 5)
  unfolding sends_of
  AcceptedAt-FirstSuccess n a = (
    record {
      from = omega arith;
      before = λ j l u.
          (send_of-fails (report_health marshal (trials j).net c report) (trials j)).1
            (a.retried j u);
      success =
          ap (λ r. send_of r (trials n))
            ((report_health-ok marshal (trials n).net c report).1 (a.body, a.answer, a.reported));
    },
    a.within,
  )

  FirstSuccess-AcceptedAt :
      (n : ℕ) → FirstSuccess (sends_of marshal c report trials) 0 n → n ≤ 5 → AcceptedAt n
  unfolding sends_of
  FirstSuccess-AcceptedAt n f le =
      let (s, h) =
        send_of-succeeds (report_health marshal (trials n).net c report) (trials n) f.success in
      let (body, a, r) = report_health-Reported marshal (trials n).net c report s h in
      record {
        within = le;
        retried = λ j u.
            (send_of-fails (report_health marshal (trials j).net c report) (trials j)).0
              (f.before j (omega arith) u);
        body = body;
        answer = a;
        reported = r;
      }

-- `sendNow` delivers its report, the queued transitions and all states, with send number `n`,
-- counted from 0, exactly when the server answers that send with a status from 200 to 299, it is one
-- of the first six, and those before it failed while the context lived.
pub send_now_by-delivered :
    (marshal : HealthReport → Option Text) (c : Client) (states : Option (Dict Text))
    (trials : ℕ → Trial) (r : HealthReporter) (n : ℕ)
    → ((send_now_by marshal c states trials r).2 ≡ delivered n)
      ↔ AcceptedAt marshal c (report_of c.cluster states r) trials n
unfolding send_now_by
send_now_by-delivered marshal c states trials r n =
    let report = report_of c.cluster states r in
    let (there, back) = send_now_delivers c.cluster states (sends_of marshal c report trials) r n in
    (
      λ h. FirstSuccess-AcceptedAt marshal c report trials n (there h).0 (there h).1,
      λ a. back (AcceptedAt-FirstSuccess marshal c report trials n a),
    )
