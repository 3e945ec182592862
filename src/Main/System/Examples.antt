-- ===== src/Main/System/Examples.antt =====
-- A responder that answers, takes a new bundle, probes and answers again, over a stand-in for the
-- DNS library.
use zeus_gslb.Prelude.{
  Text, text, text_eq, lower_byte, to_lower, second, All, ◌≡◌, refl, arith, not, Bool, true, false,
  none, List, [], ◌∷◌,
}
use zeus_gslb.Prelude.Int.{pos, to_uint32}
use zeus_gslb.Prelude.Dict
use zeus_gslb.Prelude.Dict.{Dict}
use zeus_gslb.Bundle.{Candidate}
use zeus_gslb.Bundle.Store.{offered}
use zeus_gslb.Bundle.Samples.{decode, second_raw, fine_plan, first_dir, first_store, first_IsLoaded}
use zeus_gslb.Checks.Prober.{Network}
use zeus_gslb.Checks.Runner.History.{results}
use zeus_gslb.Dns.Evaluator.{health_unhealthy, flag, viable, legacy_answers, new_evaluator, resolve}
use zeus_gslb.Dns.Handler.{
  Question, type_a, lookup_in, lookup, add_answers, fill_answer, answer_a, answer_query,
  answer_question, serve_dns,
}
use zeus_gslb.Main.LocalView.{local_verdict}
use zeus_gslb.Main.System.{
  Happening, stores, query, pass, evaluator_now, started, system_after, response,
}
use zeus_gslb.Main.System.Answers.{IsSourced, response-IsSourced}
use zeus_gslb.Dns.Handler.Samples.{lib}
use zeus_gslb.Main.System.Checks.{passes_of, viable-passes}

abbrev question : Text → Question
question name = record { name = name; qtype = type_a }

abbrev network : Text → Network
network key = record {
  dial = λ addr. false;
  get_status = λ url. none;
  ready_count = λ namespace service. pos 0;
}

abbrev history : List Happening
history =
    pass false second network
    ∷ stores (offered fine_plan second_raw 9)
    ∷ query (question (text "a.x.org.") ∷ []) 5
    ∷ []

answers_at_first :
    (response lib decode
      (started lib decode first_store first_dir)
      (question (text "A.x.org.") ∷ [])
      5).answer
    ≡ record { name = text "A.x.org."; ttl = 30; ip = text "10.0.0.1" } ∷ []
unfolding serve_dns answer_question answer_query answer_a lookup lookup_in to_lower lower_byte
    text_eq resolve legacy_answers fill_answer add_answers new_evaluator to_uint32
answers_at_first = refl

response-IsSourced_example :
    All
      (IsSourced lib decode first_store first_dir history (question (text "b.x.org.") ∷ []))
      (response lib decode
        (system_after lib decode first_store first_dir history)
        (question (text "b.x.org.") ∷ [])
        12).answer
response-IsSourced_example =
    response-IsSourced lib decode first_store first_dir history (question (text "b.x.org.") ∷ []) 12
      first_IsLoaded

abbrev candidate : Candidate
candidate = record {
  cluster = text "z-01";
  target_key = text "t";
  health = text "healthy";
  answers = [];
}

abbrev local_keys : Dict Bool
local_keys = (text "t", true) ∷ []

is_local : flag (text "t") local_keys ≡ true
unfolding flag Dict.get text_eq
is_local = refl

viable-passes_example :
    (let health =
        local_verdict
          (results (text "t") (passes_of lib decode first_store first_dir history))
          (text "healthy") in
      viable
        (evaluator_now (system_after lib decode first_store first_dir history)).machine
        candidate
        local_keys
      ≡ (not (text_eq health health_unhealthy), text_eq health health_unhealthy))
viable-passes_example =
    viable-passes lib decode first_store first_dir history candidate local_keys (omega arith)
      is_local
