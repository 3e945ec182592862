-- ===== src/Checks/Targets/Examples.antt =====
-- Two records that share a target, which the second one wants checked more often.
use zeus_gslb.Prelude.{text, ◌≡◌, ◌≢◌, ◌⊎◌, true, none, List, [], ◌∷◌, All}
use zeus_gslb.Prelude.Int.{pos}
use zeus_gslb.Prelude.Dict
use zeus_gslb.Bundle.{Record, LocalCheck}
use zeus_gslb.Bundle.Samples.{tcp_check, named}
use zeus_gslb.Checks.Targets.{build_targets}
use zeus_gslb.Checks.Targets.Merged.{all_checks}
use zeus_gslb.Checks.Targets.Built.{Built, build_targets-Built}

abbrev shared : List Record
shared =
    named (text "a.x.org.") (pos 30) (tcp_check (text "t") (pos 5000) ∷ [])
    ∷ named (text "b.x.org.") (pos 30) (tcp_check (text "t") (pos 1000) ∷ [])
    ∷ []

build_targets-Built_example :
    (All (λ (lc : LocalCheck). lc.target_key ≢ text "t") (all_checks shared)
      × (Dict.get (text "t") (build_targets true shared) ≡ none))
    ⊎ Built true (text "t") (all_checks shared) (Dict.get (text "t") (build_targets true shared))
build_targets-Built_example = build_targets-Built true (text "t") shared
