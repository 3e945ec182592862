-- ===== src/Checks/Runner/OneTarget.antt =====
-- What the loop of `RunOnce` does to one target.
use mathlib.Core.Option.{some-injective}
use zeus_gslb.Prelude.{
  Text, text_eq, text_eq_iff, text_eq_refl, ◌≡◌, ◌≢◌, ◌<◌, refl, sym, ap, ◌∙◌, inl, inr, Time, Bool,
  true, false, some, List, [], ◌∷◌, filter, if◌then◌else◌, arith, Bool-cases,
}
use zeus_gslb.Prelude.Int.{ℤ}
use zeus_gslb.Prelude.Dict
use zeus_gslb.Prelude.Dict.{Dict, get-put, get-nil, get-cons, get-put_self, get-put_ne, IsDistinct}
use zeus_gslb.Checks.Machine.{Machine, Health, record_result}
use zeus_gslb.Checks.Machine.Keys.{get-record_result_ne}
use zeus_gslb.Checks.Prober.{Network, probe_once}
use zeus_gslb.Checks.Targets.{Target}
use zeus_gslb.Checks.Runner.{Runner, Notice, interval_of, is_due, run_target}

-- What `RecordResult` returns for the probe of a target.
abbrev pub result_of : Network → Text → Target → Runner → Machine × Bool × Health
result_of net key t r =
    record_result r.machine key (probe_once net t.prober) t.config.failure_threshold
      t.config.recovery_threshold

abbrev pub notices_about : Text → List Notice → List Notice
notices_about key = filter (λ (n : Notice). text_eq n.target_key key)

-- The notices of a result: one if it is a transition.
abbrev pub notice_if : Text → Time → Bool → Health → List Notice
notice_if key now transitioned health =
    if transitioned then (record { target_key = key; health = health; at = now }) ∷ [] else []

-- Nothing has happened to a target: neither its schedule nor its health, and no notice of it.
pub record Untouched (key : Text) (r : Runner) (out : Runner × List Notice) : Type 0 where
  pub schedule : Dict.get key out.0.last_run ≡ Dict.get key r.last_run
  pub entry : Dict.get key out.0.machine ≡ Dict.get key r.machine
  pub silent : notices_about key out.1 ≡ []

-- A target has been probed: it is scheduled from `now` on, one result of its probe is recorded, and
-- there is one notice of it if that result is a transition, and none else.
pub record Probed (net : Network) (now : Time) (key : Text) (t : Target) (r : Runner)
    (out : Runner × List Notice) : Type 0 where
  pub schedule : Dict.get key out.0.last_run ≡ some now
  pub entry : Dict.get key out.0.machine ≡ Dict.get key (result_of net key t r).0
  pub notices : notices_about key out.1 ≡ (
      if (result_of net key t r).1
      then (record { target_key = key; health = (result_of net key t r).2; at = now }) ∷ []
      else [])

pub interval_positive : (i : ℤ) → 0 < interval_of i
unfolding interval_of
interval_positive i = ground arith

pub due_once :
    (now : Time) (key : Text) (t : Target) (r : Runner)
    → Dict.get key r.last_run ≡ some now
    → is_due now key t r ≡ false
unfolding is_due
due_once now key t r h = ground (arith, interval_positive t.config.interval_ms)

pub run_target_early :
    (net : Network) (now : Time) (key : Text) (t : Target) (r : Runner)
    → is_due now key t r ≡ false
    → run_target net now key t r ≡ (r, [])
unfolding run_target
run_target_early net now key t r h = rw h refl

pub run_target_due :
    (net : Network) (now : Time) (key : Text) (t : Target) (r : Runner)
    → is_due now key t r ≡ true
    → run_target net now key t r ≡ (
      record { machine = (result_of net key t r).0; last_run = Dict.put key now r.last_run },
      notice_if key now (result_of net key t r).1 (result_of net key t r).2,
    )
unfolding run_target
run_target_due net now key t r h = rw h refl

pub Untouched-stays : (key : Text) (r : Runner) → Untouched key r (r, [])
Untouched-stays key r = record { schedule = refl; entry = refl; silent = refl }

pub run_target_other :
    (net : Network) (now : Time) (j key : Text) (t : Target) (r : Runner)
    → j ≢ key
    → Untouched key r (run_target net now j t r)
run_target_other net now j key t r ne = elim (Bool-cases (is_due now j t r)) [
  | inl h ↦ rw (run_target_due net now j t r h) (record {
    schedule = get-put_ne j key now r.last_run ne;
    entry =
        get-record_result_ne r.machine j (probe_once net t.prober) t.config.failure_threshold
          t.config.recovery_threshold key ne;
    silent = ground (arith, text_eq_iff j key, ne);
  })
  | inr h ↦ rw (run_target_early net now j t r h) (Untouched-stays key r)
]

pub run_target_own :
    (net : Network) (now : Time) (key : Text) (t : Target) (r : Runner)
    → is_due now key t r ≡ true
    → Probed net now key t r (run_target net now key t r)
run_target_own net now key t r h = rw (run_target_due net now key t r h) (record {
  schedule = get-put_self key now r.last_run;
  entry = refl;
  notices = ground (arith, text_eq_refl key);
})

pub notices_same :
    (key : Text) (now : Time) {b c : Bool} {g h : Health}
    → b ≡ c
    → g ≡ h
    → notice_if key now b g ≡ notice_if key now c h
notices_same key now e f = rw (e, f) refl

pub is_due_local :
    (now : Time) (key : Text) (t : Target) (r s : Runner)
    → Dict.get key r.last_run ≡ Dict.get key s.last_run
    → is_due now key t r ≡ is_due now key t s
unfolding is_due
is_due_local now key t r s h = ground (arith, h)

module _ (key j : Text) where
  pub head_key : text_eq j key ≡ true → j ≡ key
  head_key h = (text_eq_iff j key).0 h

  module _ (u t : Target) (ts : Dict Target) where
    pub head_target : text_eq j key ≡ true → Dict.get key ((j, u) ∷ ts) ≡ some t → u ≡ t
    head_target same h =
        some-injective u t
          (sym (get-cons key j u ts ∙ ap (λ b. if b then some u else Dict.get key ts) same) ∙ h)

    pub tail_target :
        text_eq j key ≡ false → Dict.get key ((j, u) ∷ ts) ≡ some t → Dict.get key ts ≡ some t
    tail_target other h =
        sym (get-cons key j u ts ∙ ap (λ b. if b then some u else Dict.get key ts) other) ∙ h
