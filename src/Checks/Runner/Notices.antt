-- ===== src/Checks/Runner/Notices.antt =====
-- The transitions that the runner reports, against the health of the machine.
use zeus_gslb.Prelude.{
  Text, text_eq, ◌≡◌, refl, sym, ap, ◌∙◌, inl, inr, Bool, true, false, not, List, [], ◌∷◌, ◌++◌,
  if◌then◌else◌, arith, Bool-cases,
}
use zeus_gslb.Prelude.Int.{ℤ}
use zeus_gslb.Prelude.Dict
use zeus_gslb.Prelude.Dict.{get-nil, get-put_self}
use zeus_gslb.Checks.Machine
use zeus_gslb.Checks.Machine.{
  Machine, TargetState, at_least_one, Health, healthy, unhealthy, unknown, same_health, fresh,
  get_or_create, new_machine, record_in, record_result,
}
use zeus_gslb.Checks.Runner.{Runner, Notice, run_once}
use zeus_gslb.Checks.Prober.{probe_once}
use zeus_gslb.Checks.Targets.{Target}
use zeus_gslb.Checks.Runner.OneTarget.{notices_about, notices_same, result_of, Probed}
use zeus_gslb.Checks.Runner.History.{Pass, targets_at, runner_after, made, skipped, passed}
use zeus_gslb.Checks.Runner.Outcome.{state_local}

-- What `OnTransition` is called with in a pass, and in a log of passes from the oldest on.
abbrev pub notices_of : Pass → Runner → List Notice
notices_of p r = (run_once p.net p.now (targets_at p) r).1

abbrev pub told : List Pass → List Notice
told [] = []
told (p ∷ ps) = told ps ++ notices_of p (runner_after ps)

pub same_health-eq : (g h : Health) → same_health g h ≡ true → g ≡ h
same_health-eq healthy healthy e = refl
same_health-eq unhealthy unhealthy e = refl
same_health-eq unknown unknown e = refl
same_health-eq healthy unhealthy e = absurd (cc e)
same_health-eq healthy unknown e = absurd (cc e)
same_health-eq unhealthy healthy e = absurd (cc e)
same_health-eq unhealthy unknown e = absurd (cc e)
same_health-eq unknown healthy e = absurd (cc e)
same_health-eq unknown unhealthy e = absurd (cc e)

state_created : (m : Machine) (key : Text) → (get_or_create m key).health ≡ Machine.state m key
unfolding get_or_create Machine.state
state_created m key = ground arith

state_put :
    (m : Machine) (key : Text) (t : TargetState) → Machine.state (Dict.put key t m) key ≡ t.health
unfolding Machine.state
state_put m key t = ground (arith, get-put_self key t m)

module _ (m : Machine) (key : Text) (up : Bool) (f r : ℤ) where
  -- The health that `RecordResult` returns is that of the target behind it, and it is a transition
  -- where it differs from the one before.
  record_result_state :
      Machine.state (record_result m key up f r).0 key ≡ (record_result m key up f r).2
  unfolding record_result
  record_result_state =
      state_put m key (record_in (get_or_create m key) up (at_least_one f) (at_least_one r))

  record_result_moves :
      (record_result m key up f r).1
      ≡ not (same_health (record_result m key up f r).2 (Machine.state m key))
  unfolding record_result
  record_result_moves = rw (← state_created) refl

module _ (key : Text) where
  -- The health that a reader of notices, from the oldest on, has of the target.
  abbrev pub last_told : List Notice → Health → Health
  last_told [] h = h
  last_told (n ∷ ns) h = last_told ns (if text_eq n.target_key key then n.health else h)

  -- Each notice of the target is news to that reader.
  abbrev pub AreNews : List Notice → Health → Type 0
  AreNews [] h = Unit
  AreNews (n ∷ ns) h =
      (text_eq n.target_key key ≡ true → same_health n.health h ≡ false)
      × AreNews ns (if text_eq n.target_key key then n.health else h)

  last_told-append :
      (ns ms : List Notice) (h : Health) → last_told (ns ++ ms) h ≡ last_told ms (last_told ns h)
  last_told-append [] ms h = refl
  last_told-append (n ∷ ns) ms h =
      last_told-append ns ms (if text_eq n.target_key key then n.health else h)

  AreNews-append :
      (ns ms : List Notice) (h : Health)
      → AreNews ns h
      → AreNews ms (last_told ns h)
      → AreNews (ns ++ ms) h
  AreNews-append [] ms h a b = b
  AreNews-append (n ∷ ns) ms h a b =
      (a.0, AreNews-append ns ms (if text_eq n.target_key key then n.health else h) a.1 b)

  silent_told :
      (ns : List Notice) (h : Health)
      → notices_about key ns ≡ []
      → AreNews ns h × (last_told ns h ≡ h)
  silent_told [] h e = (tt, refl)
  silent_told (n ∷ ns) h e = elim (Bool-cases (text_eq n.target_key key)) [
    | inl y ↦ absurd (ground (arith, e, y))
    | inr o ↦
        let (a, b) = silent_told ns h (ground (arith, e, o)) in
        (((λ y. absurd (cc (y, o))), rw o a), rw o b)
  ]

  one_told :
      (ns : List Notice) (n : Notice) (h : Health)
      → notices_about key ns ≡ n ∷ []
      → same_health n.health h ≡ false
      → AreNews ns h × (last_told ns h ≡ n.health)
  one_told [] n h e d = absurd (cc e)
  one_told (n' ∷ ns) n h e d = elim (Bool-cases (text_eq n'.target_key key)) [
    | inl y ↦
        let same : n' ≡ n = ground (arith, e, y) in
        let (a, b) = silent_told ns n'.health (ground (arith, e, y)) in
        (((λ _. cc (same, d)), rw y a), rw y (b ∙ ap (λ (x : Notice). x.health) same))
    | inr o ↦
        let (a, b) = one_told ns n h (ground (arith, e, o)) d in
        (((λ y. absurd (cc (y, o))), rw o a), rw o b)
  ]

  -- The reader has the health of the machine, and every notice was news to it.
  record IsTold (ps : List Pass) : Type 0 where
    news : AreNews (told ps) unknown
    current : last_told (told ps) unknown ≡ Machine.state (runner_after ps).machine key

  pass_silent :
      (p : Pass) (ps : List Pass)
      → notices_about key (notices_of p (runner_after ps)) ≡ []
      → Machine.state (runner_after (p ∷ ps)).machine key
        ≡ Machine.state (runner_after ps).machine key
      → IsTold ps
      → IsTold (p ∷ ps)
  pass_silent p ps s same i =
      let ns = notices_of p (runner_after ps) in
      let (a, b) = silent_told ns (last_told (told ps) unknown) s in
      record {
        news = AreNews-append (told ps) ns unknown i.news a;
        current = last_told-append (told ps) ns unknown ∙ b ∙ i.current ∙ sym same;
      }

  pass_news :
      (p : Pass) (ps : List Pass) (n : Notice)
      → notices_about key (notices_of p (runner_after ps)) ≡ n ∷ []
      → same_health n.health (Machine.state (runner_after ps).machine key) ≡ false
      → Machine.state (runner_after (p ∷ ps)).machine key ≡ n.health
      → IsTold ps
      → IsTold (p ∷ ps)
  pass_news p ps n s d new i =
      let ns = notices_of p (runner_after ps) in
      let (a, b) =
        one_told ns n (last_told (told ps) unknown) s (ap (same_health n.health) i.current ∙ d) in
      record {
        news = AreNews-append (told ps) ns unknown i.news a;
        current = last_told-append (told ps) ns unknown ∙ b ∙ sym new;
      }

  made_IsTold :
      (p : Pass) (ps : List Pass) (t : Target)
      → Probed
          (p.net key)
          p.now
          key
          t
          (runner_after ps)
          (run_once p.net p.now (targets_at p) (runner_after ps))
      → IsTold ps
      → IsTold (p ∷ ps)
  unfolding runner_after
  made_IsTold p ps t m i =
      let r = runner_after ps in
      let up = probe_once (p.net key) t.prober in
      let result = result_of (p.net key) key t r in
      let new : Machine.state (runner_after (p ∷ ps)).machine key ≡ result.2 =
        state_local key (runner_after (p ∷ ps)).machine result.0 m.entry
        ∙ record_result_state r.machine key up t.config.failure_threshold
            t.config.recovery_threshold in
      let moves =
        record_result_moves r.machine key up t.config.failure_threshold
          t.config.recovery_threshold in
      elim (Bool-cases (same_health result.2 (Machine.state r.machine key))) [
        | inl same ↦
            pass_silent p ps
              (m.notices ∙ notices_same key p.now {h = result.2} (moves ∙ ap not same) refl)
              (new ∙ same_health-eq result.2 (Machine.state r.machine key) same) i
        | inr other ↦
            pass_news p ps (record { target_key = key; health = result.2; at = p.now })
              (m.notices ∙ notices_same key p.now {h = result.2} (moves ∙ ap not other) refl) other
              new i
      ]

  passes-IsTold : (ps : List Pass) → IsTold ps
  passes-IsTold [] = record {
    news = tt;
    current =
        unfold runner_after Machine.state new_machine in
        ground (arith, get-nil {V = TargetState} key);
  }
  passes-IsTold (p ∷ ps) = elim (passed key p ps) [
    | made t h d m ↦ made_IsTold p ps t m (passes-IsTold ps)
    | skipped h u ↦
        pass_silent p ps u.silent
          (unfold runner_after in
            state_local key (runner_after (p ∷ ps)).machine (runner_after ps).machine u.entry)
          (passes-IsTold ps)
  ]

  -- Over any log of passes, whatever bundles, targets and networks: who follows the calls of
  -- `OnTransition` about a target, from "unknown" on, has the health that the machine has of it; and
  -- each such call brings a health other than the one before it.
  pub told_health :
      (ps : List Pass)
      → (last_told (told ps) unknown ≡ Machine.state (runner_after ps).machine key)
        × AreNews (told ps) unknown
  told_health ps = ((passes-IsTold ps).current, (passes-IsTold ps).news)
