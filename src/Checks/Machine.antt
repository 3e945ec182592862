-- ===== src/Checks/Machine.antt =====
-- internal/checks/machine.go: the health of each target, from the results of its probes.
pub mod Verdict
pub mod Keys
mod Examples
use zeus_gslb.Prelude.{
  ℕ, Text, text, ◌+◌, ◌≡◌, Bool, true, false, ◌&&◌, not, Option, none, some, List, [], ◌∷◌,
  if◌then◌else◌,
}
use zeus_gslb.Prelude.Int.{ℤ, pos, ltb_ℤ, leb_ℤ, incr}
use zeus_gslb.Prelude.Dict
use zeus_gslb.Prelude.Dict.{Dict}

pub data Health : Type 0 where
  healthy unhealthy unknown : Health

-- `string(h)`
abbrev pub health_text : Health → Text
health_text healthy = text "healthy"
health_text unhealthy = text "unhealthy"
health_text unknown = text "unknown"

abbrev pub same_health : Health → Health → Bool
same_health healthy healthy = true
same_health unhealthy unhealthy = true
same_health unknown unknown = true
same_health _ _ = false

pub record TargetState : Type 0 where
  pub health : Health
  pub consec_success : ℤ
  pub consec_fail : ℤ
  pub cycles : ℤ

abbrev pub Machine : Type 0
Machine = Dict TargetState

unfoldable pub new_machine : Machine
new_machine = []

abbrev pub fresh : TargetState
fresh = record { health = unknown; consec_success = pos 0; consec_fail = pos 0; cycles = pos 0 }

-- The entry that `getOrCreate` returns. The caller writes it back in every case.
unfoldable pub get_or_create : Machine → Text → TargetState
get_or_create m key = elim (Dict.get key m) [ none ↦ fresh | some t ↦ t ]

-- A threshold below one counts as one.
abbrev pub at_least_one : ℤ → ℤ
at_least_one n = if ltb_ℤ n (pos 1) then pos 1 else n

-- The part of `RecordResult` that changes the entry, under thresholds that are at least one.
unfoldable pub record_in : TargetState → Bool → ℤ → ℤ → TargetState
record_in t true failure recovery =
    let successes = incr t.consec_success in
    record {
      health =
          if not (same_health t.health healthy) && leb_ℤ recovery successes
          then healthy
          else t.health;
      consec_success = successes;
      consec_fail = pos 0;
      cycles = incr t.cycles;
    }
record_in t false failure recovery =
    let failures = incr t.consec_fail in
    record {
      health =
          if not (same_health t.health unhealthy) && leb_ℤ failure failures
          then unhealthy
          else t.health;
      consec_success = pos 0;
      consec_fail = failures;
      cycles = incr t.cycles;
    }

-- The new machine, whether the result caused a transition, and the resulting health.
unfoldable pub record_result : Machine → Text → Bool → ℤ → ℤ → Machine × Bool × Health
unfolding record_in get_or_create
record_result m key up failure_threshold recovery_threshold =
    let t = get_or_create m key in
    let t' = record_in t up (at_least_one failure_threshold) (at_least_one recovery_threshold) in
    (Dict.put key t' m, not (same_health t'.health t.health), t'.health)

unfoldable pub state : Machine → Text → Health
state m key = elim (Dict.get key m) [ none ↦ unknown | some t ↦ t.health ]

unfoldable pub ready : Machine → Text → Bool
ready m key = elim (Dict.get key m) [ none ↦ false | some t ↦ leb_ℤ (pos 1) t.cycles ]

unfoldable pub states : Machine → Dict Text
states [] = []
states ((k, t) ∷ m) = (k, health_text t.health) ∷ states m
