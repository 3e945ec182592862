-- ===== src/Main/Feedback/News.antt =====
-- What a probe's result tells the reporter, and what a call of `NotifyTransition` adds to what it holds.
use mathlib.Core.List.{append-nil}
use mathlib.Core.Path.{subst}
use zeus_gslb.Prelude.{
  Text, text_eq, text_eq_iff, text_eq_refl, Time, ◌≡◌, ◌≢◌, refl, sym, ap, ◌∙◌, Bool, true, false,
  not, List, [], ◌∷◌, ◌++◌, if◌then◌else◌, Bool-cases, inl, inr,
}
use zeus_gslb.Prelude.Int.{ℤ}
use zeus_gslb.Checks.Machine
use zeus_gslb.Checks.Machine.{
  Machine, TargetState, Health, unknown, health_text, same_health, record_result, new_machine,
}
use zeus_gslb.Checks.Machine.Keys.{record_result_ne, record_result-reports}
use zeus_gslb.Checks.Runner.{Notice}
use zeus_gslb.Checks.Runner.Notices.{same_health-eq}
use zeus_gslb.Remote.Reporter.{Transition}
use zeus_gslb.Remote.Goroutines
use zeus_gslb.Remote.Goroutines.{
  Caller, outside, entered, Sender, sending, taken, Goroutines, update,
}
use zeus_gslb.Main.Reports.{on_transition, last_state}
use zeus_gslb.Main.Feedback.{announce}
use zeus_gslb.Main.Feedback.Kept.{in_call, announced, to_come, IsSingle, update-IsSingle}

pub last_state-append :
    (key : Text) (ts us : List Transition) (x : Text)
    → last_state key (ts ++ us) x ≡ last_state key us (last_state key ts x)
last_state-append key [] us x = refl
last_state-append key (t ∷ ts) us x =
    last_state-append key ts us (if text_eq t.target_key key then t.state else x)

-- A call that is entered where there was none.
joins : (l c ts : List Transition) → c ≡ [] → l ++ ts ≡ l ++ c ++ ts
joins l c ts h = ap (λ k. k ++ ts) (sym (append-nil l) ∙ ap (λ k. l ++ k) (sym h))

-- What `OnTransition` is called with behind a result.
abbrev pub news : (Time → Text) → Bool → Notice → List Transition
news format transitioned n = if transitioned then on_transition format n ∷ [] else []

heard_self :
    (moved : Bool) (h g : Health) (g' : Health) (key : Text) (format : Time → Text) (now : Time)
    → moved ≡ not (same_health g h)
    → g' ≡ g
    → last_state key
        (news format moved (record { target_key = key; health = g'; at = now }))
        (health_text h)
      ≡ health_text g
unfolding on_transition
heard_self true h g g' key format now m e = rw (text_eq_refl key) (ap health_text e)
heard_self false h g g' key format now m e = elim (Bool-cases (same_health g h)) [
  | inl same ↦ ap health_text (sym (same_health-eq g h same))
  | inr other ↦ absurd (cc (m, ap not other))
]

unheard :
    (moved : Bool) (g : Health) (key other : Text) (format : Time → Text) (now : Time) (x : Text)
    → text_eq key other ≡ false
    → last_state other (news format moved (record { target_key = key; health = g; at = now })) x ≡ x
unfolding on_transition
unheard true g key other format now x o = rw o refl
unheard false g key other format now x o = refl

module _ (format : Time → Text) (m : Machine) (key : Text) (up : Bool) (f r : ℤ) (now : Time) where
  abbrev pub notice : Notice
  notice = record { target_key = key; health = (record_result m key up f r).2; at = now }

  -- Who knows the health of a target and hears of the result knows the health behind it.
  pub record_result-news :
      (other : Text)
      → last_state other
          (news format (record_result m key up f r).1 notice)
          (health_text (Machine.state m other))
        ≡ health_text (Machine.state (record_result m key up f r).0 other)
  record_result-news other = elim (Bool-cases (text_eq key other)) [
    | inl y ↦
        let same : key ≡ other = (text_eq_iff key other).0 y in
        let (reads, moves) = record_result-reports m key up f r in
        subst
          (λ (k : Text).
            last_state k (news format (record_result m key up f r).1 notice)
              (health_text (Machine.state m k))
            ≡ health_text (Machine.state (record_result m key up f r).0 k))
          same (heard_self _ _ _ _ key format now moves reads)
    | inr o ↦
        let differs : key ≢ other = λ e. cc ((text_eq_iff key other).1 e, o) in
        unheard _ _ key other format now (health_text (Machine.state m other)) o
        ∙ sym (ap health_text (record_result_ne m key up f r other differs).0)
  ]

pub announce-announced :
    (format : Time → Text) (moved : Bool) (n : Notice) (g : Goroutines)
    → g.callers 0 ≡ outside
    → announced (announce format moved n g) ≡ announced g ++ news format moved n
unfolding announce
announce-announced format true n g free = joins g.notified _ _ (ap in_call free)
announce-announced format false n g free = sym (append-nil (announced g))

pub announce-to_come :
    (format : Time → Text) (moved : Bool) (n : Notice) (g : Goroutines)
    → g.callers 0 ≡ outside
    → to_come (announce format moved n g) ≡ to_come g ++ news format moved n
unfolding announce
announce-to_come format true n g free = joins g.pending _ _ (ap in_call free)
announce-to_come format false n g free = sym (append-nil (to_come g))

pub announce-IsSingle :
    (format : Time → Text) (moved : Bool) (n : Notice) (g : Goroutines)
    → IsSingle g
    → IsSingle (announce format moved n g)
unfolding announce
announce-IsSingle format true n g s =
    update-IsSingle g.callers 0 (entered (on_transition format n)) refl s
announce-IsSingle format false n g s = s

pub announce-Reachable :
    (cluster : Text) (format : Time → Text) (moved : Bool) (n : Notice) (g : Goroutines)
    → g.callers 0 ≡ outside
    → Goroutines.Reachable cluster g
    → Goroutines.Reachable cluster (announce format moved n g)
unfolding announce
announce-Reachable cluster format true n g free r =
    Goroutines.then_step _ _ r (Goroutines.calls 0 (on_transition format n) free)
announce-Reachable cluster format false n g free r = r

pub announce-sender :
    (format : Time → Text) (moved : Bool) (n : Notice) (g : Goroutines)
    → ((announce format moved n g).sender ≡ g.sender) × ((announce format moved n g).sent ≡ g.sent)
unfolding announce
announce-sender format true n g = (refl, refl)
announce-sender format false n g = (refl, refl)
