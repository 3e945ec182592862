-- ===== src/Checks/Runner/Passes.antt =====
-- What one pass of `RunOnce` does, target by target.
use mathlib.Core.Path.{subst}
use mathlib.Core.Option.{none-ne-some}
use mathlib.Core.List.{append-nil}
use zeus_gslb.Prelude.{
  text_eq_ne, Text, text_eq, text_eq_iff, ◌≡◌, refl, sym, ◌∙◌, inl, inr, Time, true, false, none,
  some, List, [], ◌∷◌, ◌++◌, filter-append, arith, Bool-cases,
}
use zeus_gslb.Prelude.Dict
use zeus_gslb.Prelude.Dict.{Dict, get-put, get-nil, get-cons, get-put_self, get-put_ne, IsDistinct}
use zeus_gslb.Checks.Machine.Keys.{record_result_local}
use zeus_gslb.Checks.Prober.{Network, probe_once}
use zeus_gslb.Checks.Targets.{Target}
use zeus_gslb.Checks.Runner.{Runner, Notice, is_due, run_target, run_once}
use zeus_gslb.Checks.Runner.OneTarget.{
  run_target_early, Untouched-stays, run_target_other, run_target_own, notices_same, is_due_local,
  head_key, head_target, tail_target, notices_about, Untouched, Probed,
}

module _ (net : Text → Network) (now : Time) where
  run_once-cons :
      (j : Text) (t : Target) (ts : Dict Target) (r : Runner)
      → run_once net now ((j, t) ∷ ts) r ≡ (
        (run_once net now ts (run_target (net j) now j t r).0).0,
        (run_target (net j) now j t r).1
            ++ (run_once net now ts (run_target (net j) now j t r).0).1,
      )
  unfolding run_once
  run_once-cons j t ts r = refl

  module _ (key : Text) where
    Untouched-then :
        (r : Runner) (a b : Runner × List Notice)
        → Untouched key r a
        → Untouched key a.0 b
        → Untouched key r (b.0, a.1 ++ b.1)
    Untouched-then r a b u v = record {
      schedule = v.schedule ∙ u.schedule;
      entry = v.entry ∙ u.entry;
      silent =
          rw (filter-append (λ (n : Notice). text_eq n.target_key key) a.1 b.1)
            (rw (u.silent, v.silent) refl);
    }

    Probed-then :
        (t : Target) (r : Runner) (a b : Runner × List Notice)
        → Probed (net key) now key t r a
        → Untouched key a.0 b
        → Probed (net key) now key t r (b.0, a.1 ++ b.1)
    Probed-then t r a b u v = record {
      schedule = v.schedule ∙ u.schedule;
      entry = v.entry ∙ u.entry;
      notices =
          rw (filter-append (λ (n : Notice). text_eq n.target_key key) a.1 b.1)
            (rw (v.silent, append-nil (notices_about key a.1)) u.notices);
    }

    Probed-later :
        (t : Target) (r : Runner) (a b : Runner × List Notice)
        → Untouched key r a
        → Probed (net key) now key t a.0 b
        → Probed (net key) now key t r (b.0, a.1 ++ b.1)
    Probed-later t r a b u v =
        let same =
          record_result_local a.0.machine r.machine key (probe_once (net key) t.prober)
            t.config.failure_threshold t.config.recovery_threshold u.entry in
        record {
          schedule = v.schedule;
          entry = v.entry ∙ same.0;
          notices =
              rw (filter-append (λ (n : Notice). text_eq n.target_key key) a.1 b.1)
                (rw u.silent (v.notices ∙ notices_same key now same.1 same.2));
        }

    run_once_absent :
        (ts : Dict Target) (r : Runner)
        → Dict.get key ts ≡ none
        → Untouched key r (run_once net now ts r)
    run_once_absent [] r h = unfold run_once in Untouched-stays key r
    run_once_absent ((j, t) ∷ ts) r h = rw (run_once-cons j t ts r) (
        Untouched-then r (run_target (net j) now j t r)
          (run_once net now ts (run_target (net j) now j t r).0)
          (run_target_other (net j) now j key t r
            (ground (arith, get-cons key j t ts, text_eq_iff j key)))
          (run_once_absent ts (run_target (net j) now j t r).0
            (ground (arith, get-cons key j t ts))))

    -- What a pass does with the target of a key: one that is due, one that is not, and no target.
    pub record Visit (ts : Dict Target) (r : Runner) (out : Runner × List Notice) : Type 0 where
      pub due :
          (t : Target)
          → Dict.get key ts ≡ some t
          → is_due now key t r ≡ true
          → Probed (net key) now key t r out
      pub early :
          (t : Target) → Dict.get key ts ≡ some t → is_due now key t r ≡ false → Untouched key r out
      pub absent : Dict.get key ts ≡ none → Untouched key r out

    visit_due :
        (j : Text) (u t : Target) (r : Runner)
        → j ≡ key
        → u ≡ t
        → is_due now key t r ≡ true
        → Probed (net key) now key t r (run_target (net j) now j u r)
    visit_due j u t r p q e =
        subst (λ k. Probed (net key) now key t r (run_target (net k) now k u r)) (sym p)
          (subst (λ v. Probed (net key) now key t r (run_target (net key) now key v r)) (sym q)
            (run_target_own (net key) now key t r e))

    visit_early :
        (j : Text) (u t : Target) (r : Runner)
        → j ≡ key
        → u ≡ t
        → is_due now key t r ≡ false
        → Untouched key r (run_target (net j) now j u r)
    visit_early j u t r p q e =
        subst (λ k. Untouched key r (run_target (net k) now k u r)) (sym p)
          (subst (λ v. Untouched key r (run_target (net key) now key v r)) (sym q)
            (rw (run_target_early (net key) now key t r e) (Untouched-stays key r)))

    run_once_due :
        (ts : Dict Target) (r : Runner) (t : Target)
        → IsDistinct ts
        → Dict.get key ts ≡ some t
        → is_due now key t r ≡ true
        → Probed (net key) now key t r (run_once net now ts r)
    run_once_due [] r t d h e = absurd (none-ne-some t (sym (get-nil key) ∙ h))
    run_once_due ((j, u) ∷ ts) r t d h e = elim (Bool-cases (text_eq j key)) [
      | inl same ↦ rw (run_once-cons j u ts r) (
          Probed-then t r (run_target (net j) now j u r)
            (run_once net now ts (run_target (net j) now j u r).0)
            (visit_due j u t r (head_key key j same) (head_target key j u t ts same h) e)
            (run_once_absent ts (run_target (net j) now j u r).0
              (subst (λ k. Dict.get k ts ≡ none) (head_key key j same) d.0)))
      | inr other ↦
          let passed = run_target_other (net j) now j key u r (text_eq_ne other) in
          rw (run_once-cons j u ts r) (
            Probed-later t r (run_target (net j) now j u r)
              (run_once net now ts (run_target (net j) now j u r).0) passed
              (run_once_due ts (run_target (net j) now j u r).0 t d.1
                (tail_target key j u t ts other h)
                (is_due_local now key t (run_target (net j) now j u r).0 r passed.schedule ∙ e)))
    ]

    run_once_early :
        (ts : Dict Target) (r : Runner) (t : Target)
        → IsDistinct ts
        → Dict.get key ts ≡ some t
        → is_due now key t r ≡ false
        → Untouched key r (run_once net now ts r)
    run_once_early [] r t d h e = absurd (none-ne-some t (sym (get-nil key) ∙ h))
    run_once_early ((j, u) ∷ ts) r t d h e = elim (Bool-cases (text_eq j key)) [
      | inl same ↦ rw (run_once-cons j u ts r) (
          Untouched-then r (run_target (net j) now j u r)
            (run_once net now ts (run_target (net j) now j u r).0)
            (visit_early j u t r (head_key key j same) (head_target key j u t ts same h) e)
            (run_once_absent ts (run_target (net j) now j u r).0
              (subst (λ k. Dict.get k ts ≡ none) (head_key key j same) d.0)))
      | inr other ↦
          let passed = run_target_other (net j) now j key u r (text_eq_ne other) in
          rw (run_once-cons j u ts r) (
            Untouched-then r (run_target (net j) now j u r)
              (run_once net now ts (run_target (net j) now j u r).0) passed
              (run_once_early ts (run_target (net j) now j u r).0 t d.1
                (tail_target key j u t ts other h)
                (is_due_local now key t (run_target (net j) now j u r).0 r passed.schedule ∙ e)))
    ]

    -- In one pass of `RunOnce`, a target that is due, which is one that has not run before or not for
    -- its interval, is probed once, whatever other targets there are and in whatever order they are
    -- visited; one that is not due is left alone, and so is what has been removed.
    pub run_once-Visit :
        (ts : Dict Target) (r : Runner) → IsDistinct ts → Visit ts r (run_once net now ts r)
    run_once-Visit ts r d = record {
      due = λ t. run_once_due ts r t d;
      early = λ t. run_once_early ts r t d;
      absent = run_once_absent ts r;
    }
