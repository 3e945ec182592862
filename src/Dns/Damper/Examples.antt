-- ===== src/Dns/Damper/Examples.antt =====
-- Tests of the damper, and its theorems at concrete inputs.
use zeus_gslb.Prelude.{
  Time, ℕ, ◌*◌, ◌^◌, ◌≤◌, text, text_eq, ◌≡◌, refl, true, false, some, List, [], ◌∷◌, arith,
}
use zeus_gslb.Prelude.Int.{pos}
use zeus_gslb.Prelude.Decimal.{itoa}
use zeus_gslb.Prelude.Dict
use zeus_gslb.Bundle.{Answer}
use zeus_gslb.Dns.Answers.{answer_key, count_of, tally, spend, answer_set_equal}
use zeus_gslb.Dns.Damper.{
  minute, new_damper, is_frozen, prune_window, decide_move, maybe_auto_unfreeze, evaluate_entry,
  evaluate,
}
use zeus_gslb.Dns.Damper.Log.{Call, after, moves}
use zeus_gslb.Dns.Damper.Tracks.{in_window}
use zeus_gslb.Dns.Damper.Moves.{served}
use zeus_gslb.Dns.Damper.Rate.{rate_bound}
use zeus_gslb.Dns.Damper.Freeze.{IsFrozenAt}

program : Unit {0}
unfolding answer_set_equal answer_key count_of tally spend itoa text_eq Dict.get Dict.put evaluate
    evaluate_entry decide_move maybe_auto_unfreeze prune_window is_frozen new_damper after served
program = tt

abbrev north : List Answer
north = record { ip = text "10.0.0.1"; port = pos 80 } ∷ []

abbrev south : List Answer
south = record { ip = text "10.0.0.2"; port = pos 80 } ∷ []

abbrev call : List Answer → ℕ → Call
call c n = record { fqdn = text "api."; candidate = c; forced = false; now = n * 10 ^ 9 }

-- Four changes within four seconds: the last one is suppressed.
abbrev flapping : List Call
flapping = call north 4 ∷ call south 3 ∷ call north 2 ∷ call south 1 ∷ call north 0 ∷ []

third_move_served :
    (served (after flapping) (text "api.") ≡ some south)
    × (is_frozen (after flapping) (text "api.") ≡ true)
    × (moves (text "api.") flapping ≡ (3 * 10 ^ 9) ∷ (2 * 10 ^ 9) ∷ (1 * 10 ^ 9) ∷ [])
unfolding program
third_move_served = (refl, refl, refl)

rate_bound_example : in_window (10 * minute) (moves (text "api.") flapping) ≤ 3
rate_bound_example = rate_bound flapping (text "api.") (omega arith) (10 * minute)

flapping-IsFrozenAt : IsFrozenAt (after flapping) (text "api.") south (4 * 10 ^ 9)
unfolding program
flapping-IsFrozenAt = (
  record {
    served = south;
    change_log = (1 * 10 ^ 9) ∷ (2 * 10 ^ 9) ∷ (3 * 10 ^ 9) ∷ [];
    frozen = true;
    last_suppressed = 4 * 10 ^ 9;
  },
  refl,
  refl,
  refl,
  refl,
)

south_not_north : answer_set_equal south north ≡ false
unfolding program
south_not_north = refl

abbrev insisting : List (List Answer × Time)
insisting = (north, 15 * minute) ∷ (north, 30 * minute) ∷ (north, 45 * minute) ∷ []
