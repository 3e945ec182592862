-- ===== src/Dns/Evaluator/Examples.antt =====
-- Tests of the evaluator, and its theorems at concrete inputs.
use mathlib.Core.List.{flatten}
use zeus_gslb.Prelude.{
  ℕ, Text, text, text_eq, ◌*◌, ◌^◌, ◌≡◌, ◌≢◌, ◌↔◌, refl, true, none, some, List, [], ◌∷◌, arith,
}
use zeus_gslb.Prelude.Int.{pos}
use zeus_gslb.Prelude.Decimal.{itoa}
use zeus_gslb.Prelude.Dict
use zeus_gslb.Bundle.{Answer, Candidate, Record}
use zeus_gslb.Dns.Answers.{answer_key, count_of, tally, spend, answer_set_equal}
use zeus_gslb.Dns.Damper.{
  minute, new_damper, is_frozen, prune_window, decide_move, maybe_auto_unfreeze, evaluate_entry,
  evaluate,
}
use zeus_gslb.Dns.Damper.Freeze.{IsFrozenAt}
use zeus_gslb.Dns.Evaluator.{
  Evaluator, mark, flag, local_targets, effective_health, viable, walk, active, walk_record, settle,
  legacy_answers, new_evaluator, resolve,
}
use zeus_gslb.Dns.Evaluator.Serving.{servable_now, resolve_fails}
use zeus_gslb.Dns.Evaluator.Stocked.{Call, after, resolve_never_empty}
use zeus_gslb.Dns.Evaluator.Forced.{has_lost, resolve_unseen}

program : Unit {0}
unfolding answer_set_equal answer_key count_of tally spend itoa text_eq Dict.get Dict.put evaluate
    evaluate_entry decide_move maybe_auto_unfreeze prune_window is_frozen new_damper mark flag
    local_targets effective_health viable walk active walk_record settle legacy_answers
    new_evaluator resolve flatten
program = tt

abbrev address : Text → List Answer
address ip = record { ip = ip; port = pos 80 } ∷ []

abbrev candidate : Text → Text → List Answer → Candidate
candidate key health answers = record {
  cluster = text "z-01";
  target_key = key;
  health = health;
  answers = answers;
}

abbrev rec_of : List Candidate → Record
rec_of cs = record {
  fqdn = text "api.";
  ttl = pos 5;
  state = text "ok";
  mode = text "single";
  answers = [];
  candidates = some cs;
  local_checks = [];
}

abbrev north : Text → Candidate
north health = candidate (text "a") health (address (text "10.0.0.1"))

abbrev south : Text → Candidate
south health = candidate (text "b") health (address (text "10.0.0.2"))

abbrev up : Text
up = text "healthy"

abbrev down : Text
down = text "unhealthy"

abbrev call : List Candidate → ℕ → Call
call cs n = record { machine = none; rec = rec_of cs; now = n * 10 ^ 9 }

abbrev north_first : List Candidate
north_first = north up ∷ south up ∷ []

abbrev south_first : List Candidate
south_first = south up ∷ north up ∷ []

-- The order of the candidates changes four times within four seconds; the last change is held back.
abbrev flapping : List Call
flapping =
    call north_first 4
    ∷ call south_first 3
    ∷ call north_first 2
    ∷ call south_first 1
    ∷ call north_first 0
    ∷ []

abbrev frozen : Evaluator
frozen = after flapping

-- The north is servable, and the south, which is served, is down.
abbrev south_down : Record
south_down = rec_of (north up ∷ south down ∷ [])

unhealthy_answer_served :
    ((resolve frozen south_down (60 * 10 ^ 9)).1 ≡ some (address (text "10.0.0.2")))
    × (active frozen (text "api.") ≡ text "b" ∷ [])
unfolding program
unhealthy_answer_served = (refl, refl)

fails_closed :
    ((resolve frozen (rec_of (north down ∷ candidate (text "c") up [] ∷ [])) minute).1 ≡ none)
    × ((resolve frozen
          (record south_down { candidates = none; state = text "no-targets" })
          minute).1
        ≡ none)
unfolding program
fails_closed = (refl, refl)

resolve_fails_example :
    (((resolve frozen south_down minute).1 ≡ none)
      ↔ (servable_now frozen south_down (north up ∷ south down ∷ []) ≡ []))
    × ((resolve frozen south_down minute).1 ≡ none → (resolve frozen south_down minute).0 ≡ frozen)
resolve_fails_example = resolve_fails frozen south_down minute (north up ∷ south down ∷ []) refl

last_answered :
    (resolve (record (after flapping) { machine = none }) south_down (60 * 10 ^ 9)).1
    ≡ some (address (text "10.0.0.2"))
unfolding program
last_answered = refl

resolve_never_empty_example : address (text "10.0.0.2") ≢ []
resolve_never_empty_example =
    resolve_never_empty flapping (call (north up ∷ south down ∷ []) 60) (north up ∷ south down ∷ [])
      (address (text "10.0.0.2")) refl last_answered

-- Behind the candidate that was active, so that the walk sees it.
abbrev south_down_first : Record
south_down_first = rec_of (south down ∷ north up ∷ [])

lost_south : has_lost frozen south_down_first (south down ∷ north up ∷ []) ≡ true
unfolding program
lost_south = refl

moved_north : (resolve frozen south_down_first (60 * 10 ^ 9)).1 ≡ some (address (text "10.0.0.1"))
unfolding program
moved_north = refl

frozen-IsFrozenAt : IsFrozenAt frozen.damper (text "api.") (address (text "10.0.0.2")) (4 * 10 ^ 9)
unfolding program
frozen-IsFrozenAt = (
  record {
    served = address (text "10.0.0.2");
    change_log = (1 * 10 ^ 9) ∷ (2 * 10 ^ 9) ∷ (3 * 10 ^ 9) ∷ [];
    frozen = true;
    last_suppressed = 4 * 10 ^ 9;
  },
  refl,
  refl,
  refl,
  refl,
)

resolve_unseen_example :
    (resolve frozen south_down (60 * 10 ^ 9)).1 ≡ some (address (text "10.0.0.2"))
unfolding program
resolve_unseen_example =
    resolve_unseen frozen south_down (60 * 10 ^ 9) (4 * 10 ^ 9) (north up) (south down ∷ [])
      (address (text "10.0.0.2")) refl refl refl refl frozen-IsFrozenAt refl (omega arith)
