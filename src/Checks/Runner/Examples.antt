-- ===== src/Checks/Runner/Examples.antt =====
-- A pass over one target.
use zeus_gslb.Prelude.{
  Text, text, text_eq, refl, Time, true, false, none, some, List, [], ◌∷◌, ◌+◌, ◌*◌, ◌<◌, ◌≡◌,
  second,
}
use zeus_gslb.Prelude.Int.{pos, scale}
use zeus_gslb.Prelude.Decimal.{itoa}
use zeus_gslb.Prelude.Dict
use zeus_gslb.Prelude.Dict.{Dict, get-nil, IsDistinct}
use zeus_gslb.Bundle.Samples.{tcp_check, named}
use zeus_gslb.Checks.Prober.{Network, tcp_prober, new_prober}
use zeus_gslb.Checks.Targets.{
  Target, config_of, add_check, add_checks, add_records, targets_of, build_targets,
}
use zeus_gslb.Checks.Runner.{interval_of, is_due, run_target, run_once}
use zeus_gslb.Checks.Runner.History.{
  Pass, targets_at, runner_after, probed_by, probes, latest, AreSpaced,
}
use zeus_gslb.Checks.Runner.Schedule.{probes-AreSpaced, probed_when_due}

abbrev network : Text → Network
network key = record {
  dial = λ addr. true;
  get_status = λ url. some (pos 200);
  ready_count = λ namespace service. pos 0;
}

abbrev target : Target
target = record {
  config = config_of (tcp_check (text "t") (pos 1000));
  prober = tcp_prober (text "10.0.0.1:80");
}

-- A pass over one record with that target, at a time.
abbrev pass : Time → Pass
pass now = record {
  records = named (text "a.") (pos 30) (tcp_check (text "t") (pos 1000) ∷ []) ∷ [];
  has_lister = false;
  now = now;
  net = network;
}

abbrev passes : List Pass
passes = pass (3 * second) ∷ pass (second + 1) ∷ pass second ∷ []

probes-AreSpaced_example : AreSpaced (text "t") (probes (text "t") passes)
probes-AreSpaced_example = probes-AreSpaced (text "t") passes

abbrev once : List Pass
once = pass second ∷ []

is_target : Dict.get (text "t") (targets_at (pass (second + 1))) ≡ some target
unfolding build_targets targets_of add_records add_checks add_check config_of new_prober Dict.get
    Dict.put text_eq itoa
is_target = refl

is_skipped : probed_by (text "t") (pass (second + 1)) (runner_after once) ≡ none
unfolding probed_by runner_after run_once run_target is_due interval_of build_targets targets_of
    add_records add_checks add_check config_of new_prober Dict.get Dict.put text_eq scale
is_skipped = refl

probed_when_due_example :
    (u : Time) × (latest (text "t") (probes (text "t") once) ≡ some u)
    × (second + 1 < u + interval_of target.config.interval_ms)
probed_when_due_example =
    probed_when_due (text "t") once (pass (second + 1)) target is_target is_skipped
