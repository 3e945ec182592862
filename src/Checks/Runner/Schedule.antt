-- ===== src/Checks/Runner/Schedule.antt =====
-- How the probes of a target are spaced, and when one is due.
use zeus_gslb.Prelude.{
  Text, Time, ◌+◌, ◌≤◌, ◌<◌, ◌≡◌, refl, sym, ◌∙◌, inl, inr, true, false, none, some, List, [], ◌∷◌,
  arith, Option-cases,
}
use zeus_gslb.Prelude.Dict
use zeus_gslb.Prelude.Dict.{Dict, get-nil}
use zeus_gslb.Checks.Targets.{Target}
use zeus_gslb.Checks.Runner.{Runner, is_due, interval_of}
use zeus_gslb.Checks.Runner.History.{
  Pass, targets_at, runner_after, probed_by, Probe, probes, latest, AreSpaced, made, skipped,
  passed, probes_made, probes_skipped, probe_of,
}

module _ (key : Text) where
  -- The schedule of the runner is the time of the newest probe.
  last_run-probes :
      (ps : List Pass) → Dict.get key (runner_after ps).last_run ≡ latest key (probes key ps)
  unfolding runner_after
  last_run-probes [] = get-nil key
  last_run-probes (p ∷ ps) = elim (passed key p ps) [
    | made t h d m ↦ rw (probes_made key p ps t h) m.schedule
    | skipped h u ↦ rw (probes_skipped key p ps h) (u.schedule ∙ last_run-probes ps)
  ]

  due_after :
      (now : Time) (t : Target) (r : Runner) (u : Time)
      → Dict.get key r.last_run ≡ some u
      → is_due now key t r ≡ true
      → u + interval_of t.config.interval_ms ≤ now
  unfolding is_due
  due_after now t r u h d = ground arith

  AreSpaced-cons :
      (q : Probe) (qs : List Probe)
      → ((u : Time) → latest key qs ≡ some u → u + q.interval ≤ q.at)
      → AreSpaced key qs
      → AreSpaced key (q ∷ qs)
  AreSpaced-cons q [] h s = tt
  AreSpaced-cons q (q' ∷ qs) h s = (h q'.at refl, s)

  -- The probes of a target in any log of passes, over bundles and intervals that change, come at
  -- least its interval apart. Nothing is assumed of the clock.
  pub probes-AreSpaced : (ps : List Pass) → AreSpaced key (probes key ps)
  probes-AreSpaced [] = tt
  probes-AreSpaced (p ∷ ps) = elim (passed key p ps) [
    | made t h d m ↦ rw (probes_made key p ps t h) (
        AreSpaced-cons (probe_of key p t) (probes key ps)
          (λ u e. due_after p.now t (runner_after ps) u (last_run-probes ps ∙ e) d)
          (probes-AreSpaced ps))
    | skipped h u ↦ rw (probes_skipped key p ps h) (probes-AreSpaced ps)
  ]

  not_due :
      (now : Time) (t : Target) (r : Runner)
      → is_due now key t r ≡ false
      → (u : Time) × (Dict.get key r.last_run ≡ some u)
        × (now < u + interval_of t.config.interval_ms)
  unfolding is_due
  not_due now t r d = elim (Option-cases (Dict.get key r.last_run)) [
    | inl h ↦ absurd (ground arith)
    | inr (u, h) ↦ (u, h, ground arith)
  ]

  skipped_due :
      (p : Pass) (r : Runner) (t : Target)
      → Dict.get key (targets_at p) ≡ some t
      → probed_by key p r ≡ none
      → is_due p.now key t r ≡ false
  unfolding probed_by
  skipped_due p r t g h = ground arith

  -- A pass that leaves out a target of its bundle, after any log of passes, comes less than the
  -- target's interval after the newest probe of it: a target that was never probed, or not for its
  -- interval, is probed by the next pass.
  pub probed_when_due :
      (ps : List Pass) (p : Pass) (t : Target)
      → Dict.get key (targets_at p) ≡ some t
      → probed_by key p (runner_after ps) ≡ none
      → (u : Time) × (latest key (probes key ps) ≡ some u)
        × (p.now < u + interval_of t.config.interval_ms)
  probed_when_due ps p t g h =
      let (u, e, lt) = not_due p.now t (runner_after ps) (skipped_due p (runner_after ps) t g h) in
      (u, sym (last_run-probes ps) ∙ e, lt)
