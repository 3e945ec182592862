-- ===== src/Dns/Handler/Examples.antt =====
-- Tests of the handler, and its theorems at concrete inputs, over small stand-ins for the library.
use mathlib.Core.List.{reverse}
use zeus_gslb.Prelude.{
  ℕ, Text, text, text_eq, lower_byte, to_lower, has_prefix, ◌+◌, ◌-◌, ◌*◌, ◌≡◌, ◌≢◌, refl, Bool,
  false, Option, none, some, List, [], ◌∷◌, ◌++◌, length, ◌==◌, if◌then◌else◌,
}
use zeus_gslb.Prelude.Int.{pos, to_uint32}
use zeus_gslb.Prelude.Dict
use zeus_gslb.Bundle.{Record, Bundle}
use zeus_gslb.Dns.Damper.{evaluate_entry, evaluate, new_damper}
use zeus_gslb.Dns.Evaluator.{
  Evaluator, mark, flag, local_targets, effective_health, viable, walk, active, walk_record, settle,
  legacy_answers, new_evaluator, resolve,
}
use zeus_gslb.Dns.Handler.{
  Library, Question, Qtype, type_a, type_aaaa, success, server_failure, name_error, refused,
  lookup_in, lookup, set_nxdomain, add_answers, fill_answer, answer_a, answer_aaaa, answer_other,
  answer_query, answer_question, serve_dns,
}
use zeus_gslb.Dns.Handler.Wire.{IsWellFormed, serve_dns-IsWellFormed}
use zeus_gslb.Dns.Handler.Rcodes.{noerror_has_address}

program : Unit {0}
unfolding text_eq lower_byte to_lower has_prefix to_uint32 Dict.get Dict.put mark flag local_targets
    effective_health viable walk active walk_record settle legacy_answers new_evaluator resolve
    evaluate_entry evaluate new_damper lookup_in lookup set_nxdomain add_answers fill_answer
    answer_a answer_aaaa answer_other answer_query answer_question serve_dns
program = tt

ends_with_dot : Text → Bool
ends_with_dot [] = false
ends_with_dot (c ∷ []) = c == b'.'
ends_with_dot (c ∷ d ∷ s) = ends_with_dot (d ∷ s)

dotted : Text → Text
dotted s = if ends_with_dot s then s else s ++ b'.' ∷ []

below : Text → Text → Bool
below zone name = has_prefix (reverse name) (reverse zone)

-- Four decimal numbers with a dot after each but the last.
quad : ℕ → Text → List ℕ → Option (List ℕ)
quad acc [] out = if length out == 3 then some (out ++ acc ∷ []) else none
quad acc (c ∷ s) out =
    quad (if c == b'.' then 0 else acc * 10 + (c - 48)) s
      (if c == b'.' then out ++ acc ∷ [] else out)

abbrev lib : Library
lib = record {
  fqdn = dotted;
  is_sub_domain = below;
  parse_ip4 = λ s. quad 0 s [];
  set_reply = λ qs. record {
    rcode = success;
    authoritative = false;
    recursion_available = false;
    answer = [];
    ns = [];
  };
  reply_rcode = λ qs. refl;
  reply_answer = λ qs. refl;
  reply_ns = λ qs. refl;
}

abbrev api : Record
api = record {
  fqdn = text "api.z-acme.local";
  ttl = pos 5;
  state = text "ok";
  mode = text "single";
  answers =
      record { ip = text "10.244.0.15"; port = pos 80 }
      ∷ record { ip = text "oops"; port = pos 80 }
      ∷ [];
  candidates = none;
  local_checks = [];
}

abbrev zone : Bundle
zone = record {
  protocol_version = pos 1;
  domain = text "z-acme.local";
  generated_at = [];
  content_hash = [];
  records = api ∷ [];
}

abbrev idle : Evaluator
idle = new_evaluator none

abbrev ask : Text → Qtype → Question
ask name t = record { name = name; qtype = t }

known :
    (serve_dns lib idle (some zone) (ask (text "API.z-acme.local") type_a ∷ []) 0).1.answer
    ≡ record { name = text "API.z-acme.local."; ttl = 5; ip = 10 ∷ 244 ∷ 0 ∷ 15 ∷ [] } ∷ []
unfolding program ends_with_dot dotted below quad
known = refl

codes :
    ((serve_dns lib idle (some zone) (ask (text "db.z-acme.local") type_aaaa ∷ []) 0).1.rcode
      ≡ name_error)
    × ((serve_dns lib idle (some zone) (ask (text "example.org") type_a ∷ []) 0).1.rcode ≡ refused)
    × ((serve_dns lib idle (some zone) [] 0).1.rcode ≡ refused)
    × ((serve_dns lib idle none (ask (text "example.org") type_a ∷ []) 0).1.rcode ≡ server_failure)
unfolding program ends_with_dot dotted below quad
codes = (refl, refl, refl, refl)

abbrev missing : Question
missing = ask (text "db.z-acme.local") type_aaaa

abbrev api_address : Question
api_address = ask (text "api.z-acme.local") type_a

abbrev api_v6 : Question
api_v6 = ask (text "api.z-acme.local") type_aaaa

noerror_has_address_example : (serve_dns lib idle (some zone) (api_address ∷ []) 0).1.answer ≢ []
unfolding program ends_with_dot dotted below quad
noerror_has_address_example = noerror_has_address lib idle (some zone) api_address 0 refl refl

serve_dns-IsWellFormed_example :
    IsWellFormed lib (serve_dns lib idle (some zone) (api_address ∷ []) 0).1
serve_dns-IsWellFormed_example = serve_dns-IsWellFormed lib idle (some zone) (api_address ∷ []) 0
