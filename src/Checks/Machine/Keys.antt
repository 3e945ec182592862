-- ===== src/Checks/Machine/Keys.antt =====
-- What one call of `RecordResult` reports and leaves alone, on any machine, and the snapshot that
-- `States` takes.
use mathlib.Core.Option
use zeus_gslb.Prelude.{Text, ◌≡◌, ◌≢◌, ◌∙◌, refl, sym, ap, some, Bool, not, [], ◌∷◌, arith}
use zeus_gslb.Prelude.Int.{ℤ}
use zeus_gslb.Prelude.Dict
use zeus_gslb.Prelude.Dict.{get-put_self, get-put_ne}
use zeus_gslb.Checks.Machine.{
  Machine, TargetState, unknown, at_least_one, health_text, same_health, get_or_create, record_in,
  record_result, state, ready, states,
}

-- The entry that a call of `RecordResult` leaves.
abbrev entry : Machine → Text → Bool → ℤ → ℤ → TargetState
entry m key up failure recovery =
    record_in (get_or_create m key) up (at_least_one failure) (at_least_one recovery)

module _ (m : Machine) (key : Text) (up : Bool) (failure recovery : ℤ) where
  pub get-record_result_ne :
      (other : Text)
      → key ≢ other
      → Dict.get other (record_result m key up failure recovery).0 ≡ Dict.get other m
  unfolding record_result
  get-record_result_ne other ne = get-put_ne key other (entry m key up failure recovery) m ne

  -- On any machine, a result about one target changes neither the health nor the readiness of
  -- another target.
  pub record_result_ne :
      (other : Text)
      → key ≢ other
      → (state (record_result m key up failure recovery).0 other ≡ state m other)
        × (ready (record_result m key up failure recovery).0 other ≡ ready m other)
  unfolding record_result state ready
  record_result_ne other ne =
      let kept = get-put_ne key other (entry m key up failure recovery) m ne in
      (ground (arith, kept), ground (arith, kept))

  -- On any machine, a result reports the health that can be read afterwards, and reports a
  -- transition exactly when that health differs from the one that could be read before.
  pub record_result-reports :
      ((record_result m key up failure recovery).2
        ≡ state (record_result m key up failure recovery).0 key)
      × ((record_result m key up failure recovery).1
          ≡ not (same_health (state (record_result m key up failure recovery).0 key) (state m key)))
  unfolding record_result state
  record_result-reports = ground (arith, get-put_self key (entry m key up failure recovery) m)

  -- Once a target has left `unknown`, no result brings it back.
  pub record_result_known :
      state m key ≢ unknown → state (record_result m key up failure recovery).0 key ≢ unknown
  unfolding record_result state record_in
  record_result_known known = ground (arith, get-put_self key (entry m key up failure recovery) m)

get_or_create_local :
    (m n : Machine) (key : Text)
    → Dict.get key m ≡ Dict.get key n
    → get_or_create m key ≡ get_or_create n key
unfolding get_or_create
get_or_create_local m n key h = ground (arith, h)

entry_of_result :
    (m : Machine) (key : Text) (up : Bool) (failure recovery : ℤ)
    → Dict.get key (record_result m key up failure recovery).0
      ≡ some (entry m key up failure recovery)
unfolding record_result
entry_of_result m key up failure recovery = get-put_self key (entry m key up failure recovery) m

-- What `RecordResult` does with a target depends on that target's entry alone.
pub record_result_local :
    (m n : Machine) (key : Text) (up : Bool) (failure recovery : ℤ)
    → Dict.get key m ≡ Dict.get key n
    → (Dict.get key (record_result m key up failure recovery).0
        ≡ Dict.get key (record_result n key up failure recovery).0)
      × ((record_result m key up failure recovery).1 ≡ (record_result n key up failure recovery).1)
      × ((record_result m key up failure recovery).2 ≡ (record_result n key up failure recovery).2)
unfolding record_result record_in get_or_create
record_result_local m n key up failure recovery h =
    let same : get_or_create m key ≡ get_or_create n key = get_or_create_local m n key h in
    (
      entry_of_result m key up failure recovery
          ∙ ap (λ t. some (record_in t up (at_least_one failure) (at_least_one recovery))) same
          ∙ sym (entry_of_result n key up failure recovery),
      ap
          (λ (t : TargetState). not (
            same_health (record_in t up (at_least_one failure) (at_least_one recovery)).health
              t.health))
          same,
      ap
          (λ (t : TargetState).
            (record_in t up (at_least_one failure) (at_least_one recovery)).health)
          same,
    )

-- The snapshot has exactly the targets of the machine, each with its health.
pub get-states :
    (m : Machine) (k : Text)
    → Dict.get k (states m) ≡ Option.map (λ (t : TargetState). health_text t.health) (Dict.get k m)
unfolding states Dict.get
get-states [] k = refl
get-states ((j, t) ∷ m) k = ground (arith, get-states m k)
