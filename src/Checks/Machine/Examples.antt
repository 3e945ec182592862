-- ===== src/Checks/Machine/Examples.antt =====
-- Tests of the health machine, and its theorems at concrete inputs.

use zeus_gslb.Prelude.{
  Text, text, text_eq, text_eq_iff, ◌≡◌, ◌≢◌, refl, Bool, true, false, List, [], ◌∷◌, arith,
}
use zeus_gslb.Prelude.Int.{pos, incr}
use zeus_gslb.Prelude.Dict
use zeus_gslb.Checks.Machine.{
  healthy, unhealthy, unknown, new_machine, get_or_create, record_in, record_result, state, ready,
  states,
}
use zeus_gslb.Checks.Machine.Verdict.{Call, after, about, verdict, state-after}
use zeus_gslb.Checks.Machine.Keys.{record_result_known}

program : Unit {0}
unfolding new_machine get_or_create record_in record_result state ready states after incr text_eq
    Dict.get Dict.put
program = tt

-- Two failures in a row make a target unhealthy, three successes healthy again.
abbrev call : Text → Bool → Call
call k up = record { key = k; up = up; failure_threshold = pos 2; recovery_threshold = pos 3 }

abbrev log : List Call
log =
    call (text "b") false
    ∷ call (text "a") true
    ∷ call (text "a") true
    ∷ call (text "a") false
    ∷ call (text "a") false
    ∷ call (text "a") true
    ∷ []

two_successes_are_too_few :
    (state (after log) (text "a") ≡ unhealthy)
    × (state (after (call (text "a") true ∷ log)) (text "a") ≡ healthy)
    × (state (after log) (text "b") ≡ unknown)
    × (ready (after log) (text "c") ≡ false)
unfolding program
two_successes_are_too_few = (refl, refl, refl, refl)

state-after_example : state (after log) (text "a") ≡ verdict (about (text "a") log)
unfolding program
state-after_example = state-after log (text "a") (omega arith)

a-ne-b : text "a" ≢ text "b"
a-ne-b h = unfold text_eq in cc ((text_eq_iff (text "a") (text "b")).1 h)

a_is_known : state (after log) (text "a") ≢ unknown
unfolding program
a_is_known h = cc h

record_result_known_example :
    state (record_result (after log) (text "a") true (pos 2) (pos 3)).0 (text "a") ≢ unknown
record_result_known_example =
    record_result_known (after log) (text "a") true (pos 2) (pos 3) a_is_known
