-- ===== src/Dns/Damper.antt =====
-- internal/dnsserver/damper.go: flap damping of the answer set of each name. A `time.Time` is its
-- distance in nanoseconds from the zero time.
pub mod Moves
pub mod Held
pub mod Log
pub mod Tracks
pub mod Rate
pub mod Freeze
mod Examples
use zeus_gslb.Prelude.{
  Time, second, Time, second, ℕ, Text, ◌+◌, ◌*◌, ◌^◌, Bool, true, false, Option, none, some, List,
  [], ◌∷◌, ◌++◌, length, filter, ltb, leb, if◌then◌else◌,
}
use zeus_gslb.Prelude.Dict
use zeus_gslb.Prelude.Dict.{Dict}
use zeus_gslb.Bundle.{Answer}
use zeus_gslb.Dns.Answers.{answer_set_equal}

abbrev pub minute : ℕ
minute = 60 * second

abbrev pub damp_window : ℕ
damp_window = 10 * minute

abbrev pub damp_change_threshold : ℕ
damp_change_threshold = 3

abbrev pub unfreeze_quiet_period : ℕ
unfreeze_quiet_period = 20 * minute

pub record RecordDampState : Type 0 where
  pub served : List Answer
  pub change_log : List Time
  pub frozen : Bool
  pub last_suppressed : Time

abbrev pub Damper : Type 0
Damper = Dict RecordDampState

unfoldable pub new_damper : Damper
new_damper = []

-- `now.Sub(t) >= d` for a constant `d` that is not negative
abbrev pub elapsed : Time → Time → ℕ → Bool
elapsed now t d = leb (t + d) now

unfoldable pub maybe_auto_unfreeze : RecordDampState → Time → RecordDampState
maybe_auto_unfreeze rs now =
    if rs.frozen
    then (if elapsed now rs.last_suppressed unfreeze_quiet_period
        then record rs { frozen = false; change_log = [] }
        else rs)
    else rs

-- `t.After(now.Add(-dampWindow))`
abbrev pub is_recent : Time → Time → Bool
is_recent now t = ltb now (t + damp_window)

unfoldable pub prune_window : List Time → Time → List Time
prune_window ts now = filter (is_recent now) ts

-- The part of `Evaluate` behind the unfreezing.
unfoldable pub decide_move :
    RecordDampState → List Answer → Bool → Time → RecordDampState × List Answer
unfolding prune_window
decide_move rs candidate forced now =
    let tentative = prune_window (rs.change_log ++ now ∷ []) now in
    if answer_set_equal rs.served candidate
    then (rs, rs.served)
    else if forced
    then (record rs { served = candidate }, candidate)
    else if rs.frozen
    then (record rs { last_suppressed = now }, rs.served)
    else if ltb damp_change_threshold (length tentative)
    then (record rs { frozen = true; last_suppressed = now }, rs.served)
    else (record rs { change_log = tentative; served = candidate }, candidate)

-- The entry of a name seen for the first time.
abbrev pub first_served : List Answer → RecordDampState
first_served candidate = record {
  served = candidate;
  change_log = [];
  frozen = false;
  last_suppressed = 0;
}

-- `Evaluate` on the entry of its name.
unfoldable pub evaluate_entry :
    Option RecordDampState → List Answer → Bool → Time → RecordDampState × List Answer
unfolding decide_move maybe_auto_unfreeze
evaluate_entry none candidate forced now = (first_served candidate, candidate)
evaluate_entry (some rs) candidate forced now =
    decide_move (maybe_auto_unfreeze rs now) candidate forced now

-- The new damper and the answers to serve.
unfoldable pub evaluate : Damper → Text → List Answer → Bool → Time → Damper × List Answer
unfolding evaluate_entry
evaluate d fqdn candidate forced now =
    let (rs, answers) = evaluate_entry (Dict.get fqdn d) candidate forced now in
    (Dict.put fqdn rs d, answers)

unfoldable pub is_frozen : Damper → Text → Bool
is_frozen d fqdn = elim (Dict.get fqdn d) [ none ↦ false | some rs ↦ rs.frozen ]
