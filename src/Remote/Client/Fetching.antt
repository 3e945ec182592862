-- ===== src/Remote/Client/Fetching.antt =====
-- When a fetch of the bundle and a report succeed.
use zeus_gslb.Prelude.{
  Text, length, take, ◌≡◌, ◌≤◌, ◌<◌, ◌↔◌, refl, ap, arith, true, Option, none, some, [],
}
use zeus_gslb.Prelude.Result.{ok, bind_gives, ok-injective}
use zeus_gslb.Remote.Reporter.{HealthReport}
use zeus_gslb.Remote.Client.{
  Client, Net, Response, Request, max_bundle_bytes, HttpClient, send, read_limited, bundle_of,
  accepted, bundle_request, fetch_bundle, report_request, marshalled, post_report, report_health,
}

-- The response of a server that took the request.
pub record Answered (net : Net) (http : HttpClient) (r : Request) (a : Response) : Type 0 where
  pub built : net.builds r.method r.url ≡ true
  pub answer : net.exchange http r ≡ some a

-- The body that a fetch takes for the bundle: that of an answer with status 200, up to the limit, and
-- whole or broken no earlier than there.
pub record Fetched (net : Net) (c : Client) (raw : Text) (a : Response) : Type 0 where
  pub answered : Answered net c.http_client (bundle_request c) a
  pub status : a.status ≡ 200
  pub unbroken : a.broken ≡ true → max_bundle_bytes ≤ length a.body
  pub bytes : raw ≡ take max_bundle_bytes a.body

send_made :
    (net : Net) (http : HttpClient) (r : Request) (a : Response)
    → send net http r ≡ ok a
    → Answered net http r a
unfolding send
send_made net http r a h = record { built = ground (arith, h); answer = ground (arith, h) }

pub send_sent :
    (net : Net) (http : HttpClient) (r : Request) (a : Response)
    → Answered net http r a
    → send net http r ≡ ok a
unfolding send
send_sent net http r a h = rw (h.built, h.answer) refl

bundle_of_right :
    (a : Response)
    → a.status ≡ 200
    → (a.broken ≡ true → max_bundle_bytes ≤ length a.body)
    → bundle_of a ≡ ok (take max_bundle_bytes a.body)
unfolding bundle_of read_limited
bundle_of_right a s u = ground arith

bundle_of_left :
    (a : Response) (raw : Text)
    → bundle_of a ≡ ok raw
    → (a.status ≡ 200)
      × (a.broken ≡ true → max_bundle_bytes ≤ length a.body)
      × (raw ≡ take max_bundle_bytes a.body)
unfolding bundle_of read_limited
bundle_of_left a raw h = (ground arith, ground arith, ground arith)

-- `FetchBundle` gives bytes exactly where the request is built and answered with status 200 and the
-- body is read; the bytes are then those of the body, cut off at 16 MiB, so that a longer body is
-- taken for its beginning, even one that breaks off behind the limit.
pub fetch_bundle-ok :
    (net : Net) (c : Client) (raw : Text)
    → (fetch_bundle net c ≡ ok raw) ↔ ((a : Response) × Fetched net c raw a)
unfolding fetch_bundle
fetch_bundle-ok net c raw = (
  λ h.
      let (a, s, b) = bind_gives (send net c.http_client (bundle_request c)) bundle_of raw h in
      let (status, whole, bytes) = bundle_of_left a raw b in
      (
        a,
        record {
          answered = send_made net c.http_client (bundle_request c) a s;
          status = status;
          unbroken = whole;
          bytes = bytes;
        },
      ),
  λ (a, f).
      rw (send_sent net c.http_client (bundle_request c) a f.answered, f.bytes)
        (bundle_of_right a f.status f.unbroken),
)

-- A report that was marshalled and answered with a status from 200 to 299.
pub record Reported (marshal : HealthReport → Option Text) (net : Net) (c : Client)
    (report : HealthReport) (body : Text) (a : Response) : Type 0 where
  pub marshals : marshal report ≡ some body
  pub answered : Answered net c.http_client (report_request c body) a
  pub status : (200 ≤ a.status) × (a.status < 300)

accepted_right : (a : Response) → (200 ≤ a.status) × (a.status < 300) → accepted a ≡ ok []
unfolding accepted
accepted_right a h = ground arith

accepted_left : (a : Response) (s : Text) → accepted a ≡ ok s → (200 ≤ a.status) × (a.status < 300)
unfolding accepted
accepted_left a s h = ground arith

marshalled-some : (o : Option Text) (body : Text) → marshalled o ≡ ok body → o ≡ some body
marshalled-some none body h = absurd (cc h)
marshalled-some (some b) body h = ap some (ok-injective h)

module _ (marshal : HealthReport → Option Text) (net : Net) (c : Client)
    (report : HealthReport) where
  pub report_health-Reported :
      (s : Text)
      → report_health marshal net c report ≡ ok s
      → (body : Text) × (a : Response) × Reported marshal net c report body a
  unfolding report_health post_report
  report_health-Reported s h =
      let (body, m, p) = bind_gives (marshalled (marshal report)) (post_report net c) s h in
      let (a, d, t) = bind_gives (send net c.http_client (report_request c body)) accepted s p in
      (
        body,
        a,
        record {
          marshals = marshalled-some (marshal report) body m;
          answered = send_made net c.http_client (report_request c body) a d;
          status = accepted_left a s t;
        },
      )

-- `ReportHealth` returns nil exactly where the report is marshalled and the request built and
-- answered with a status from 200 to 299.
pub report_health-ok :
    (marshal : HealthReport → Option Text) (net : Net) (c : Client) (report : HealthReport)
    → (report_health marshal net c report ≡ ok [])
      ↔ ((body : Text) × (a : Response) × Reported marshal net c report body a)
unfolding report_health post_report
report_health-ok marshal net c report = (
  report_health-Reported marshal net c report [],
  λ (body, a, r).
      rw (r.marshals, send_sent net c.http_client (report_request c body) a r.answered)
        (accepted_right a r.status),
)
