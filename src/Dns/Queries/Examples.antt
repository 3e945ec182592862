-- ===== src/Dns/Queries/Examples.antt =====
-- Two queries about a name with two candidates, over a stand-in for the DNS library.
use mathlib.Core.List.{flatten}
use zeus_gslb.Prelude.{
  ℕ, Text, text, text_eq, lower_byte, to_lower, ◌==◌, ◌≡◌, ◌≢◌, refl, arith, inl, All, true, false,
  none, some, List, [], ◌∷◌, if◌then◌else◌, ◌≤◌, length,
}
use zeus_gslb.Prelude.Int.{pos, to_uint32}
use zeus_gslb.Prelude.Decimal.{itoa}
use zeus_gslb.Prelude.Dict
use zeus_gslb.Bundle.{Answer, Bundle, Candidate, Record}
use zeus_gslb.Dns.Answers.{answer_key, count_of, tally, spend, answer_set_equal}
use zeus_gslb.Dns.Damper.{new_damper, evaluate_entry, evaluate}
use zeus_gslb.Dns.Damper.Moves.{served}
use zeus_gslb.Dns.Evaluator.{Walked, mark, flag, local_targets, effective_health, viable, active}
use zeus_gslb.Dns.Evaluator.Serving.{servable_now}
use zeus_gslb.Dns.Handler.{
  Question, Msg, type_a, success, lookup_in, lookup, add_answers, fill_answer,
}
use zeus_gslb.Dns.Queries.{
  Shared, Job, asked, deciding, recording, written, evaluator_of, begin_resolve, begin_query,
  begin_question, begin, gathered, look_at, advance, Queries, Turn, arrives, steps, swaps, turn,
  take_turns,
}
use zeus_gslb.Dns.Queries.Stocked.{recording-ne-nil}
use zeus_gslb.Dns.Queries.Fits.{IsSourced}
use zeus_gslb.Dns.Queries.Sourced.{no_queries, written-IsSourced}
use zeus_gslb.Dns.Queries.Stale.{crossed, crossed-active_keys}
use zeus_gslb.Dns.Queries.Race.{both-deciding}
use zeus_gslb.Dns.Queries.Rate.{calls_after, queries_rate}
use zeus_gslb.Dns.Damper.Log.{after, moves}
use zeus_gslb.Dns.Handler.Samples.{lib}
use zeus_gslb.Dns.Damper.Tracks.{in_window}

program : Unit {0}
unfolding answer_set_equal answer_key count_of tally spend itoa text_eq lower_byte to_lower Dict.get
    Dict.put evaluate evaluate_entry new_damper mark flag local_targets effective_health viable
    active lookup_in lookup add_answers fill_answer to_uint32 begin_resolve begin_query
    begin_question begin gathered look_at advance turn take_turns flatten
program = tt

abbrev address : Text → List Answer
address ip = record { ip = ip; port = pos 80 } ∷ []

abbrev candidate : Text → Text → Text → Candidate
candidate key health ip = record {
  cluster = text "z-01";
  target_key = key;
  health = health;
  answers = address ip;
}

abbrev candidates : List Candidate
candidates =
    candidate (text "a") (text "unhealthy") (text "10.0.0.1")
    ∷ candidate (text "b") (text "healthy") (text "10.0.0.2")
    ∷ []

abbrev api : Record
api = record {
  fqdn = text "api.";
  ttl = pos 5;
  state = text "ok";
  mode = text "single";
  answers = [];
  candidates = some candidates;
  local_checks = [];
}

abbrev zone : Bundle
zone = record {
  protocol_version = pos 1;
  domain = text ".";
  generated_at = [];
  content_hash = [];
  records = api ∷ [];
}

abbrev question : Question
question = record { name = text "API."; qtype = type_a }

abbrev fresh : Shared
fresh = record { current = some zone; damper = new_damper; active_keys = [] }

abbrev go_on : ℕ → Turn
go_on i = steps i none 7

-- The second query arrives while the first one walks, and a bundle comes in between.
abbrev turns : List Turn
turns =
    arrives 0 (question ∷ [])
    ∷ go_on 0
    ∷ arrives 1 (question ∷ [])
    ∷ go_on 0
    ∷ go_on 1
    ∷ swaps zone
    ∷ go_on 0
    ∷ go_on 0
    ∷ go_on 1
    ∷ go_on 0
    ∷ go_on 0
    ∷ []

abbrev response : Msg
response = record {
  rcode = success;
  authoritative = true;
  recursion_available = false;
  answer = record { name = text "API."; ttl = 5; ip = text "10.0.0.2" } ∷ [];
  ns = [];
}

first_response :
    (take_turns lib turns (no_queries lib (zone ∷ []) zone)).queries 0 ≡ written response
unfolding program
first_response = refl

written-IsSourced_example : All (IsSourced lib (zone ∷ [])) response.answer
written-IsSourced_example =
    written-IsSourced lib (zone ∷ []) zone turns 0 response (inl refl)
      (tt, (tt, (tt, (tt, (tt, (inl refl, (tt, (tt, (tt, (tt, (tt, tt))))))))))) first_response

abbrev both_asked : Queries
both_asked = record { shared = fresh; queries = λ k. asked (question ∷ []) }

found : lookup lib zone (text "API.") ≡ some api
unfolding program
found = refl

servable : servable_now (evaluator_of none fresh) api candidates ≢ []
unfolding program
servable z = cc z

both-deciding_example :
    (ts : List Turn) × (job : Job) × (w : Walked) × ((take_turns lib ts both_asked).queries 0
      ≡ deciding job w)
    × ((take_turns lib ts both_asked).queries 1 ≡ deciding job w)
    × (job.rec ≡ api)
both-deciding_example =
    both-deciding lib none 7 both_asked 0 1 zone question api candidates (λ z. absurd (omega arith))
      refl refl refl refl found refl refl servable

abbrev job : Job
job = record { msg = response; name = text "API."; rec = api }

abbrev found_one : Text → Text → Walked
found_one key ip = record { viable_keys = key ∷ []; groups = address ip ∷ []; forced = false }

abbrev both_decide : Queries
both_decide = record {
  shared = fresh;
  queries = λ k.
      if k == 0
      then deciding job (found_one (text "a") (text "10.0.0.1"))
      else deciding job (found_one (text "b") (text "10.0.0.2"));
}

is_new : Dict.get (text "api.") fresh.damper ≡ none
unfolding program
is_new = refl

differ :
    answer_set_equal
      (flatten (address (text "10.0.0.1") ∷ []))
      (flatten (address (text "10.0.0.2") ∷ []))
    ≡ false
unfolding program
differ = refl

crossed-active_keys_example :
    let m = (take_turns lib (crossed 0 1 none 7) both_decide).shared in
    (served m.damper (text "api.") ≡ some (flatten (address (text "10.0.0.2") ∷ [])))
    × (Dict.get (text "api.") m.active_keys ≡ some (text "a" ∷ []))
crossed-active_keys_example =
    crossed-active_keys lib both_decide 0 1 (job, found_one (text "a") (text "10.0.0.1"))
      (job, found_one (text "b") (text "10.0.0.2")) none 7 (λ z. absurd (omega arith)) refl refl
      refl is_new differ

-- One query, and another one that arrives while the first one walks and is served later.
abbrev timed : List Turn
timed =
    arrives 0 (question ∷ [])
    ∷ steps 0 none 7
    ∷ steps 0 none 7
    ∷ arrives 1 (question ∷ [])
    ∷ steps 1 none 7
    ∷ steps 0 none 8
    ∷ steps 0 none 8
    ∷ steps 0 none 8
    ∷ steps 1 none 9
    ∷ steps 1 none 9
    ∷ steps 1 none 9
    ∷ steps 1 none 11
    ∷ []

two_calls : length (calls_after lib timed (no_queries lib (zone ∷ []) zone) []) ≡ 2
unfolding program
two_calls = refl

queries_rate_example :
    let s = no_queries lib (zone ∷ []) zone in
    ((take_turns lib timed s).shared.damper ≡ after (calls_after lib timed s []))
    × (in_window 11 (moves (text "api.") (calls_after lib timed s [])) ≤ 3)
queries_rate_example =
    queries_rate lib timed (no_queries lib (zone ∷ []) zone) (text "api.") 11 refl (omega arith)

-- The first query at the write of the active keys.
abbrev to_recording : List Turn
to_recording = arrives 0 (question ∷ []) ∷ go_on 0 ∷ go_on 0 ∷ go_on 0 ∷ go_on 0 ∷ go_on 0 ∷ []

at_recording :
    (job : Job) × (w : Walked) × ((take_turns lib to_recording
          (no_queries lib (zone ∷ []) zone)).queries
        0
      ≡ recording job w (address (text "10.0.0.2")))
unfolding program
at_recording = (_, _, refl)

recording-ne-nil_example : address (text "10.0.0.2") ≢ []
recording-ne-nil_example =
    recording-ne-nil lib to_recording (no_queries lib (zone ∷ []) zone) 0 at_recording.0
      at_recording.1 (address (text "10.0.0.2")) refl (λ j. refl) at_recording.2
