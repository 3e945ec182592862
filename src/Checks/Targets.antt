-- ===== src/Checks/Targets.antt =====
-- `BuildTargets` of internal/checks/runner.go.
pub mod Merged
pub mod Built
mod Examples
use zeus_gslb.Prelude.{
  ℕ, Text, text_eq, Bool, true, false, ◌&&◌, ◌||◌, Option, none, some, List, [], ◌∷◌, if◌then◌else◌,
}
use zeus_gslb.Prelude.Int.{ℤ, pos, ltb_ℤ, leb_ℤ}
use zeus_gslb.Prelude.Dict
use zeus_gslb.Prelude.Dict.{Dict}
use zeus_gslb.Bundle.{Record, LocalCheck}
use zeus_gslb.Checks.Prober.{LocalCheckConfig, Prober, new_prober}

pub record Target : Type 0 where
  pub config : LocalCheckConfig
  pub prober : Prober

unfoldable pub config_of : LocalCheck → LocalCheckConfig
config_of lc = record {
  target_key = lc.target_key;
  probe = lc.probe;
  host = lc.host;
  port = lc.port;
  path = lc.path;
  namespace = lc.namespace;
  service = lc.service;
  interval_ms = lc.interval_ms;
  failure_threshold = lc.failure_threshold;
  recovery_threshold = lc.recovery_threshold;
}

-- Whether a repeated check's interval replaces the one that is kept.
unfoldable pub is_faster : ℤ → ℤ → Bool
is_faster new old = ltb_ℤ (pos 0) new && (leb_ℤ old (pos 0) || ltb_ℤ new old)

-- The body of the inner loop.
unfoldable pub add_check : LocalCheck → Dict LocalCheckConfig → Dict LocalCheckConfig
add_check lc configs = elim (Dict.get lc.target_key configs) [
  | none ↦ Dict.put lc.target_key (config_of lc) configs
  | some existing ↦
      if is_faster lc.interval_ms existing.interval_ms
      then Dict.put lc.target_key (record existing { interval_ms = lc.interval_ms }) configs
      else configs
]

unfoldable pub add_checks : List LocalCheck → Dict LocalCheckConfig → Dict LocalCheckConfig
add_checks [] configs = configs
add_checks (lc ∷ lcs) configs = add_checks lcs (add_check lc configs)

unfoldable pub add_records : List Record → Dict LocalCheckConfig → Dict LocalCheckConfig
add_records [] configs = configs
add_records (r ∷ rs) configs = add_records rs (add_checks r.local_checks configs)

-- The loop over `configs`. Its keys are distinct, so the order does not matter.
unfoldable pub targets_of : Bool → Dict LocalCheckConfig → Dict Target
targets_of has_lister [] = []
targets_of has_lister ((key, cfg) ∷ configs) =
    let rest = targets_of has_lister configs in
    elim (new_prober cfg has_lister) [
      | none ↦ rest
      | some prober ↦ Dict.put key (record { config = cfg; prober = prober }) rest
    ]

unfoldable pub build_targets : Bool → List Record → Dict Target
build_targets has_lister records = targets_of has_lister (add_records records [])
