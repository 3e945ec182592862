-- ===== src/Checks/Runner/Outcome.antt =====
-- What the machine of a runner holds of a target after a log of passes.
use zeus_gslb.Prelude.{
  Text, text_eq_refl, ◌^◌, ◌≤◌, ◌<◌, ◌≡◌, refl, sym, ap, ◌∙◌, inl, inr, none, List, [], ◌∷◌, length,
  leb, arith, Option-cases,
}
use zeus_gslb.Prelude.Dict
use zeus_gslb.Prelude.Dict.{Dict, get-nil}
use zeus_gslb.Checks.Machine
use zeus_gslb.Checks.Machine.{Machine, Health, new_machine, record_result, ready}
use zeus_gslb.Checks.Machine.Verdict.{Call, after, about, verdict, state-after, ready-after}
use zeus_gslb.Checks.Machine.Keys.{record_result_local}
use zeus_gslb.Checks.Prober.{probe_once}
use zeus_gslb.Checks.Runner.History.{
  Pass, runner_after, probed_by, call_of, results, made, skipped, passed, results_made,
  results_skipped,
}

about_own :
    (key : Text) (c : Call) (cs : List Call) → c.key ≡ key → about key (c ∷ cs) ≡ c ∷ about key cs
about_own key c cs h = rw h (rw (text_eq_refl key) refl)

module _ (key : Text) where
  about-results : (ps : List Pass) → about key (results key ps) ≡ results key ps
  about-results [] = refl
  about-results (p ∷ ps) = elim (Option-cases (probed_by key p (runner_after ps))) [
    | inl h ↦ rw (results_skipped key p ps h) (about-results ps)
    | inr (t, h) ↦ rw (results_made key p ps t h) (
        about_own key (call_of key p t) (results key ps) refl
        ∙ ap (◌∷◌ (call_of key p t)) (about-results ps))
  ]

  length-results-le : (ps : List Pass) → length (results key ps) ≤ length ps
  length-results-le [] = omega arith
  length-results-le (p ∷ ps) = elim (Option-cases (probed_by key p (runner_after ps))) [
    | inl h ↦ rw (results_skipped key p ps h) (omega (arith, length-results-le ps))
    | inr (t, h) ↦ rw (results_made key p ps t h) (omega (arith, length-results-le ps))
  ]

  get-new : Dict.get key new_machine ≡ none
  unfolding new_machine
  get-new = get-nil key

  after-cons :
      (c : Call) (cs : List Call)
      → after (c ∷ cs)
        ≡ (record_result (after cs) c.key c.up c.failure_threshold c.recovery_threshold).0
  unfolding after
  after-cons c cs = refl

  -- The entry of a target is the one that its own results leave in a machine of their own.
  entry-results :
      (ps : List Pass)
      → Dict.get key (runner_after ps).machine ≡ Dict.get key (after (results key ps))
  unfolding runner_after
  entry-results [] = unfold after in refl
  entry-results (p ∷ ps) = elim (passed key p ps) [
    | made t h d m ↦ rw (results_made key p ps t h) (
        m.entry
        ∙ (record_result_local (runner_after ps).machine (after (results key ps)) key
            (probe_once (p.net key) t.prober) t.config.failure_threshold t.config.recovery_threshold
            (entry-results ps)).0
        ∙ ap (Dict.get key) (sym (after-cons (call_of key p t) (results key ps))))
    | skipped h u ↦ rw (results_skipped key p ps h) (u.entry ∙ entry-results ps)
  ]

  pub state_local :
      (m n : Machine) → Dict.get key m ≡ Dict.get key n → Machine.state m key ≡ Machine.state n key
  unfolding Machine.state
  state_local m n h = ground (arith, h)

  -- After any log of passes, fewer than 2^63, the health of a target is the verdict of the results
  -- of its own probes: the passes that skipped it, other targets, and bundles that dropped it for a
  -- while have no part in it.
  pub state-results :
      (ps : List Pass)
      → length ps < 2 ^ 63
      → Machine.state (runner_after ps).machine key ≡ verdict (results key ps)
  state-results ps fits =
      state_local (runner_after ps).machine (after (results key ps)) (entry-results ps)
      ∙ state-after (results key ps) key (omega (arith, length-results-le ps))
      ∙ ap verdict (about-results ps)

  ready_local : (m n : Machine) → Dict.get key m ≡ Dict.get key n → ready m key ≡ ready n key
  unfolding ready
  ready_local m n h = ground (arith, h)

  -- A target is ready exactly when some probe of it has been recorded.
  pub ready-results :
      (ps : List Pass)
      → length ps < 2 ^ 63
      → ready (runner_after ps).machine key ≡ leb 1 (length (results key ps))
  ready-results ps fits =
      ready_local (runner_after ps).machine (after (results key ps)) (entry-results ps)
      ∙ ready-after (results key ps) key (omega (arith, length-results-le ps))
      ∙ ap (λ l. leb 1 (length l)) (about-results ps)
