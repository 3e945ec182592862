-- ===== src/Checks/Runner/History.antt =====
-- The runner after a log of passes: the probes of a target, and what the machine makes of them.
use zeus_gslb.Prelude.{
  ℕ, Text, Time, ◌+◌, ◌≤◌, ◌≡◌, refl, inl, inr, Bool, true, Option, none, some, List, [], ◌∷◌,
  if◌then◌else◌, arith, Bool-cases, Option-cases,
}
use zeus_gslb.Prelude.Dict
use zeus_gslb.Prelude.Dict.{Dict, get-nil}
use zeus_gslb.Bundle.{Record}
use zeus_gslb.Checks.Machine.{new_machine}
use zeus_gslb.Checks.Machine.Verdict.{Call}
use zeus_gslb.Checks.Prober.{Network, probe_once}
use zeus_gslb.Checks.Targets.{Target, build_targets}
use zeus_gslb.Checks.Targets.Built.{build_targets-IsDistinct}
use zeus_gslb.Checks.Runner.{Runner, is_due, interval_of, run_once}
use zeus_gslb.Checks.Runner.OneTarget.{Untouched, Probed}
use zeus_gslb.Checks.Runner.Passes.{Visit, run_once-Visit}

-- One pass: the records of the bundle that is served then, whether there is a lister, the time, and
-- the network as each probe finds it.
pub record Pass : Type 0 where
  pub records : List Record
  pub has_lister : Bool
  pub now : Time
  pub net : Text → Network

abbrev pub targets_at : Pass → Dict Target
targets_at p = build_targets p.has_lister p.records

-- The runner after a log of passes, newest first.
unfoldable pub runner_after : List Pass → Runner
runner_after [] = record { machine = new_machine; last_run = [] }
runner_after (p ∷ ps) = (run_once p.net p.now (targets_at p) (runner_after ps)).0

-- The target of a key that a pass probes.
unfoldable pub probed_by : Text → Pass → Runner → Option Target
probed_by key p r = elim (Dict.get key (targets_at p)) [
  | none ↦ none
  | some t ↦ if is_due p.now key t r then some t else none
]

-- What is recorded for a probe.
abbrev pub call_of : Text → Pass → Target → Call
call_of key p t = record {
  key = key;
  up = probe_once (p.net key) t.prober;
  failure_threshold = t.config.failure_threshold;
  recovery_threshold = t.config.recovery_threshold;
}

-- A probe: when it was made, and the interval of the target at that time.
pub record Probe : Type 0 where
  pub at : Time
  pub interval : ℕ

module _ (key : Text) where
  -- The probes of a target in a log of passes, newest first, and their results.
  abbrev pub probes : List Pass → List Probe
  probes [] = []
  probes (p ∷ ps) = elim (probed_by key p (runner_after ps)) [
    | none ↦ probes ps
    | some t ↦ (record { at = p.now; interval = interval_of t.config.interval_ms }) ∷ probes ps
  ]

  abbrev pub results : List Pass → List Call
  results [] = []
  results (p ∷ ps) = elim (probed_by key p (runner_after ps)) [
    | none ↦ results ps
    | some t ↦ call_of key p t ∷ results ps
  ]

  abbrev pub latest : List Probe → Option Time
  latest [] = none
  latest (q ∷ qs) = some q.at

  -- Each probe comes at least its interval after the one before it.
  abbrev pub AreSpaced : List Probe → Type 0
  AreSpaced [] = Unit
  AreSpaced (q ∷ []) = Unit
  AreSpaced (q ∷ q' ∷ qs) = (q'.at + q.interval ≤ q.at) × AreSpaced (q' ∷ qs)

  visit :
      (p : Pass) (ps : List Pass)
      → Visit p.net p.now key
          (targets_at p)
          (runner_after ps)
          (run_once p.net p.now (targets_at p) (runner_after ps))
  visit p ps =
      run_once-Visit p.net p.now key (targets_at p) (runner_after ps)
        (build_targets-IsDistinct p.has_lister p.records)

  -- A pass probes the target or leaves it alone.
  pub data Passed (p : Pass) (ps : List Pass) : Type 0 where
    made :
        (t : Target)
        → probed_by key p (runner_after ps) ≡ some t
        → is_due p.now key t (runner_after ps) ≡ true
        → Probed
            (p.net key)
            p.now
            key
            t
            (runner_after ps)
            (run_once p.net p.now (targets_at p) (runner_after ps))
        → Passed p ps
    skipped :
        probed_by key p (runner_after ps) ≡ none
        → Untouched key (runner_after ps) (run_once p.net p.now (targets_at p) (runner_after ps))
        → Passed p ps

  pub passed : (p : Pass) (ps : List Pass) → Passed p ps
  unfolding probed_by
  passed p ps = elim (Option-cases (Dict.get key (targets_at p))) [
    | inl n ↦ Passed.skipped (ground (arith, n)) ((visit p ps).absent n)
    | inr (t, h) ↦ elim (Bool-cases (is_due p.now key t (runner_after ps))) [
      | inl d ↦ Passed.made t (ground (arith, h, d)) d ((visit p ps).due t h d)
      | inr e ↦ Passed.skipped (ground (arith, h, e)) ((visit p ps).early t h e)
    ]
  ]

  abbrev pub probe_of : Pass → Target → Probe
  probe_of p t = record { at = p.now; interval = interval_of t.config.interval_ms }

  pub probes_made :
      (p : Pass) (ps : List Pass) (t : Target)
      → probed_by key p (runner_after ps) ≡ some t
      → probes (p ∷ ps) ≡ probe_of p t ∷ probes ps
  probes_made p ps t h = ground (arith, h)

  pub probes_skipped :
      (p : Pass) (ps : List Pass)
      → probed_by key p (runner_after ps) ≡ none
      → probes (p ∷ ps) ≡ probes ps
  probes_skipped p ps h = ground (arith, h)

  pub results_made :
      (p : Pass) (ps : List Pass) (t : Target)
      → probed_by key p (runner_after ps) ≡ some t
      → results (p ∷ ps) ≡ call_of key p t ∷ results ps
  results_made p ps t h = rw (h, results) refl

  pub results_skipped :
      (p : Pass) (ps : List Pass)
      → probed_by key p (runner_after ps) ≡ none
      → results (p ∷ ps) ≡ results ps
  results_skipped p ps h = rw (h, results) refl
