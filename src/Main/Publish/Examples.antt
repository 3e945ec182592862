-- ===== src/Main/Publish/Examples.antt =====
-- An event behind a keepalive, over a stand-in for the DNS library.
use zeus_gslb.Prelude.{
  ℕ, Text, text, text_eq, lower_byte, to_lower, ◌≡◌, ◌⊎◌, refl, arith, true, false, some, List, [],
  ◌∷◌, none, ◌||◌, has_prefix, ◌≢◌,
}
use zeus_gslb.Prelude.Int.{pos}
use zeus_gslb.Bundle.{Record}
use zeus_gslb.Bundle.Samples.{
  decode, second_raw, second_bundle, second_parses, first_store, first_dir, fine_plan, named,
}
use zeus_gslb.Bundle.Store.{apply_if_changed, apply_bundle, same_hash}
use zeus_gslb.Remote.Client.{
  Client, Net, Response, new_client, max_bundle_bytes, send, bundle_request, bundle_url,
  headers_with, trim_slashes, fetch_bundle, bundle_of, read_limited, events_url,
}
use zeus_gslb.Remote.Stream.{
  max_token_size, ended, subscribe_to, events_request, read_events, scan, last_line, drop_cr,
}
use zeus_gslb.Remote.Stream.Lines.{print}
use zeus_gslb.Remote.Stream.Events.{flat}
use zeus_gslb.Dns.Evaluator.{new_evaluator}
use zeus_gslb.Dns.Handler.{Question, type_a, lookup_in, lookup, serve_dns}
use zeus_gslb.Dns.Handler.Records.{address_records}
use zeus_gslb.Main.Boot.{Meeting}
use zeus_gslb.Main.Publish.{follow, on_subscription, fetches, fetch_by}
use zeus_gslb.Main.Publish.Reaches.{Prints, publish_reaches}
use zeus_gslb.Remote.Client.Fetching.{Fetched}
use zeus_gslb.Remote.Sse.{subscribe, read_line}
use zeus_gslb.Remote.Url.{query_escape}
use zeus_gslb.Remote.Reconnect.{refetch_each}
use zeus_gslb.Remote.Refetch.{refetch_and_apply}
use zeus_gslb.Dns.Handler.Samples.{lib}
use zeus_gslb.Bundle.Validate.{parse_and_validate, validate, first_bad}

abbrev client : Client
client = new_client (text "http://zeus") (text "c") (text "t")

abbrev blocks : List (List Text)
blocks = (text ":" ∷ []) ∷ (text "data:" ∷ []) ∷ []

abbrev stream : Response
stream = record { status = 200; body = print false (flat blocks []); broken = false }

abbrev bundle_response : Response
bundle_response = record { status = 200; body = second_raw; broken = false }

abbrev answering : Response → Net
answering a = record { builds = λ m u. true; exchange = λ h r. some a }

abbrev world : ℕ → Meeting
world i = record { cancelled = false; net = answering bundle_response; now = 9; plan = fine_plan }

abbrev served_record : Record
served_record = named (text "b.x.org.") (pos 30) []

abbrev question : Question
question = record { name = text "B.x.org."; qtype = type_a }

prints : Prints (answering stream) client blocks
unfolding max_token_size
prints = record {
  response = stream;
  answered = record { built = refl; answer = refl };
  status = refl;
  crlf = false;
  rest = [];
  body = refl;
  lines = (
    record { one = refl; bare = refl; short = omega arith },
    (
      record { one = refl; bare = refl; short = omega arith },
      (
        record { one = refl; bare = refl; short = omega arith },
        (record { one = refl; bare = refl; short = omega arith }, tt),
      ),
    ),
  );
  filled = ((λ h. ground arith, tt), ((λ h. ground arith, tt), tt));
  begun = tt;
}

found : lookup lib second_bundle (text "B.x.org.") ≡ some served_record
unfolding lookup lookup_in to_lower lower_byte text_eq
found = refl

fetched : Fetched (world 0).net client second_raw bundle_response
unfolding max_bundle_bytes
fetched = record {
  answered = record { built = refl; answer = refl };
  status = refl;
  unbroken = λ h. absurd (cc h);
  bytes = refl;
}

serves :
    (follow decode client (answering stream) false ended world (first_store, first_dir)).0.current
    ≡ some second_bundle
unfolding follow on_subscription subscribe_to send bundle_request bundle_url events_request
    events_url headers_with query_escape trim_slashes new_client read_events scan last_line drop_cr
    max_token_size subscribe read_line has_prefix fetches fetch_by fetch_bundle bundle_of
    read_limited max_bundle_bytes refetch_each refetch_and_apply apply_if_changed apply_bundle
    parse_and_validate validate first_bad same_hash text_eq
serves = refl

is_ok : text_eq (text "ok") (text "ok") || text_eq (text "ok") (text "degraded") ≡ true
unfolding text_eq
is_ok = refl

publish_reaches_example :
    ((second_bundle ≡ second_bundle)
      ⊎ ((second_bundle.content_hash ≡ second_bundle.content_hash)
          × (second_bundle.content_hash ≢ [])))
    × ((serve_dns lib
          (new_evaluator none)
          (follow decode client
            (answering stream)
            false
            ended
            world
            (first_store, first_dir)).0.current
          (question ∷ [])
          12).1.answer
        ≡ address_records lib (text "B.x.org.") (pos 30) served_record.answers)
unfolding has_prefix
publish_reaches_example =
    publish_reaches decode lib client (answering stream) false ended blocks world 0 bundle_response
      second_raw second_bundle second_bundle first_store first_dir (new_evaluator none) question
      served_record 12 prints refl fetched second_parses serves refl found refl refl is_ok
