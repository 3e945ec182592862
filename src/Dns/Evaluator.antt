-- ===== src/Dns/Evaluator.antt =====
-- internal/dnsserver/evaluate.go: which answers a record has now.
pub mod Walk
pub mod Serving
pub mod Stocked
pub mod Source
pub mod Forced
mod Examples
use mathlib.Core.List.{flatten}
use zeus_gslb.Prelude.{
  Time, Text, text, text_eq, Bool, true, false, not, ◌&&◌, ◌||◌, Option, none, some, List, [], ◌∷◌,
  ◌++◌, map, length, ◌==◌, if◌then◌else◌,
}
use zeus_gslb.Prelude.Dict
use zeus_gslb.Prelude.Dict.{Dict}
use zeus_gslb.Bundle.{Answer, Candidate, LocalCheck, Record, state_ok, state_degraded, mode_all}
use zeus_gslb.Dns.Answers.{answer_set_equal}
use zeus_gslb.Dns.Damper.{Damper, new_damper, evaluate}

-- What the evaluator asks of the local health checks.
pub record LocalHealth : Type 0 where
  pub state : Text → Text
  pub ready : Text → Bool

abbrev pub health_unhealthy : Text
health_unhealthy = text "unhealthy"

abbrev pub health_unknown : Text
health_unknown = text "unknown"

-- `active_keys` maps a name to the targets that contribute to its served answers.
pub record Evaluator : Type 0 where
  pub machine : Option LocalHealth
  pub damper : Damper
  pub active_keys : Dict (List Text)

unfoldable pub new_evaluator : Option LocalHealth → Evaluator
unfolding new_damper
new_evaluator machine = record { machine = machine; damper = new_damper; active_keys = [] }

-- A `map[string]bool` with the keys set to true, on top of another.
unfoldable pub mark : List Text → Dict Bool → Dict Bool
mark [] set = set
mark (k ∷ ks) set = mark ks (Dict.put k true set)

-- `set[k]`
unfoldable pub flag : Text → Dict Bool → Bool
flag k set = elim (Dict.get k set) [ none ↦ false | some b ↦ b ]

unfoldable pub local_targets : List LocalCheck → Dict Bool
unfolding mark
local_targets checks = mark (map (λ (lc : LocalCheck). lc.target_key) checks) []

-- The health that counts for a candidate.
unfoldable pub effective_health : Option LocalHealth → Candidate → Dict Bool → Text
effective_health none cand locals = cand.health
effective_health (some m) cand locals =
    if flag cand.target_key locals
    then (if text_eq (m.state cand.target_key) health_unknown && not (m.ready cand.target_key)
        then cand.health
        else m.state cand.target_key)
    else cand.health

-- Whether the candidate is viable, and whether the health that counts is unhealthy.
unfoldable pub viable : Option LocalHealth → Candidate → Dict Bool → Bool × Bool
viable machine cand locals =
    let effective = effective_health machine cand locals in
    (not (text_eq effective health_unhealthy), text_eq effective health_unhealthy)

-- What the loop over the candidates has gathered.
pub record Walked : Type 0 where
  pub viable_keys : List Text
  pub groups : List (List Answer)
  pub forced : Bool

abbrev pub nothing_walked : Walked
nothing_walked = record { viable_keys = []; groups = []; forced = false }

unfoldable pub walk :
    Option LocalHealth → Dict Bool → Dict Bool → Bool → List Candidate → Walked → Walked
walk machine locals prev all [] w = w
walk machine locals prev all (cand ∷ rest) w =
    let (is_viable, effective_unhealthy) = viable machine cand locals in
    let forced = if flag cand.target_key prev && effective_unhealthy then true else w.forced in
    let skipped = record w { forced = forced } in
    let taken : Walked = record {
      viable_keys = w.viable_keys ++ cand.target_key ∷ [];
      groups = w.groups ++ cand.answers ∷ [];
      forced = forced;
    } in
    let go_on = walk machine locals prev all rest skipped in
    let take_more = walk machine locals prev all rest taken in
    if is_viable && length cand.answers == 0
    then go_on
    else if is_viable
    then (if not all then taken else take_more)
    else go_on

-- `e.activeKeys[fqdn]`
unfoldable pub active : Evaluator → Text → List Text
active e fqdn = elim (Dict.get fqdn e.active_keys) [ none ↦ [] | some ks ↦ ks ]

-- The walk of a record's candidates.
unfoldable pub walk_record : Evaluator → Record → List Candidate → Walked
walk_record e rec candidates =
    walk e.machine (local_targets rec.local_checks) (mark (active e rec.fqdn) [])
      (text_eq rec.mode mode_all) candidates nothing_walked

-- The rest of `Resolve`, behind the walk: the new evaluator, and the answers or `none` for
-- SERVFAIL. `now` is what the damper's clock shows.
unfoldable pub settle : Evaluator → Text → Walked → Time → Evaluator × Option (List Answer)
settle e fqdn w now =
    let union = flatten w.groups in
    let (damper, served) = evaluate e.damper fqdn union w.forced now in
    let keys =
      if answer_set_equal served union
      then Dict.put fqdn w.viable_keys e.active_keys
      else e.active_keys in
    if length w.groups == 0
    then (e, none)
    else (record e { damper = damper; active_keys = keys }, some served)

unfoldable pub legacy_answers : Record → Option (List Answer)
legacy_answers rec =
    if text_eq rec.state state_ok || text_eq rec.state state_degraded
    then some rec.answers
    else none

unfoldable pub resolve : Evaluator → Record → Time → Evaluator × Option (List Answer)
resolve e rec now = elim rec.candidates [
  | none ↦ (e, legacy_answers rec)
  | some candidates ↦ settle e rec.fqdn (walk_record e rec candidates) now
]
