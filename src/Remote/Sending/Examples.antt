-- ===== src/Remote/Sending/Examples.antt =====
-- A report that is refused once and then accepted.
use zeus_gslb.Prelude.{
  ℕ, zero, suc, Text, text, second, ◌≡◌, ◌↔◌, false, true, Option, none, some, [], suc,
}
use zeus_gslb.Remote.Client.{Client, Net, new_client}
use zeus_gslb.Remote.Reporter.{HealthReport, HealthReporter, delivered, report_of}
use zeus_gslb.Remote.Sending.{Trial, send_now_by}
use zeus_gslb.Remote.Sending.Accepted.{AcceptedAt, send_now_by-delivered}

abbrev client : Client
client = new_client (text "http://zeus") (text "z-01") (text "t")

abbrev net : ℕ → Net
net status = record {
  builds = λ m u. true;
  exchange = λ h r. some (record { status = status; body = []; broken = false });
}

abbrev trials : ℕ → Trial
trials zero = record { net = net 503; done = false; done_in_wait = false; took = second }
trials (suc n) = record { net = net 204; done = false; done_in_wait = false; took = second }

abbrev marshal : HealthReport → Option Text
marshal r = some r.cluster

abbrev quiet : HealthReporter
quiet = record { pending = []; woken = true }

send_now_by-delivered_example :
    ((send_now_by marshal client none trials quiet).2 ≡ delivered 1)
    ↔ AcceptedAt marshal client (report_of client.cluster none quiet) trials 1
send_now_by-delivered_example = send_now_by-delivered marshal client none trials quiet 1
