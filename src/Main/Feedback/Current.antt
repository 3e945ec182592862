-- ===== src/Main/Feedback/Current.antt =====
-- The states of a report are at least as new as its transitions.
use mathlib.Core.List.{append-nil, append_assoc}
use mathlib.Core.Option
use zeus_gslb.Prelude.{
  Text, text, Time, ◌≡◌, refl, sym, ap, ◌∙◌, arith, Bool, Option, none, some, List, [], ◌++◌, inl,
  inr,
}
use zeus_gslb.Prelude.Dict
use zeus_gslb.Prelude.Dict.{Dict, get-nil}
use zeus_gslb.Checks.Machine
use zeus_gslb.Checks.Machine.{
  Machine, TargetState, Health, unknown, health_text, same_health, record_result, new_machine,
}
use zeus_gslb.Checks.Machine.Keys.{get-states}
use zeus_gslb.Checks.Runner.{Notice}
use zeus_gslb.Remote.Reporter.{Transition, HealthReport}
use zeus_gslb.Remote.Reporter.Rounds.{reported}
use zeus_gslb.Remote.Goroutines
use zeus_gslb.Remote.Goroutines.Orderly.{reported-notified}
use zeus_gslb.Remote.Goroutines.Steps.{in_hand}
use zeus_gslb.Remote.Goroutines.{
  Caller, outside, entered, Sender, sending, taken, Goroutines, update,
}
use zeus_gslb.Main.Reports.{last_state}
use zeus_gslb.Main.Feedback.{Feedback, announce, Step, records, goes, Reachable, start, then_step}
use zeus_gslb.Main.Feedback.Kept.{in_call, announced, to_come, IsSingle, Step-Kept}
use zeus_gslb.Main.Feedback.News.{
  news, notice, last_state-append, record_result-news, announce-announced, announce-to_come,
  announce-IsSingle, announce-Reachable, announce-sender,
}

abbrev stated : Option Text → Text
stated none = text "unknown"
stated (some s) = s

-- The state of a target in a report's `States`.
abbrev pub reported_state : Text → HealthReport → Text
reported_state key h = stated (Dict.get key h.states)

stated-map :
    (o : Option TargetState)
    → stated (Option.map (λ (t : TargetState). health_text t.health) o)
      ≡ health_text (elim o [ none ↦ unknown | some t ↦ t.health ])
stated-map none = refl
stated-map (some t) = refl

state-reported :
    (key : Text) (m : Machine) (h : HealthReport)
    → h.states ≡ Machine.states m
    → reported_state key h ≡ health_text (Machine.state m key)
unfolding Machine.state
state-reported key m h e =
    ap (λ d. stated (Dict.get key d)) e ∙ ap stated (get-states m key) ∙ stated-map (Dict.get key m)

-- The states of the report are those behind the transitions that earlier reports carry, its own, and
-- some first ones of those that are still to come.
pub record IsCurrent (r : Goroutines) (h : HealthReport) : Type 0 where
  pub early : List Transition
  pub late : List Transition
  pub split : to_come r ≡ early ++ late
  pub states_agree :
      (key : Text)
      → reported_state key h
        ≡ last_state key (reported r.sent ++ h.transitions ++ early) (text "unknown")

pub record IsFed (cluster : Text) (s : Feedback) : Type 0 where
  pub reach : Goroutines.Reachable cluster s.reporter
  pub single : IsSingle s.reporter
  pub hears :
      (key : Text)
      → last_state key (announced s.reporter) (text "unknown")
        ≡ health_text (Machine.state s.machine key)
  pub going : (h : HealthReport) → s.reporter.sender ≡ sending h → IsCurrent s.reporter h

IsCurrent-announce :
    (format : Time → Text) (moved : Bool) (n : Notice) (g : Goroutines) (h : HealthReport)
    → g.callers 0 ≡ outside
    → IsCurrent g h
    → IsCurrent (announce format moved n g) h
IsCurrent-announce format moved n g h free c = record {
  early = c.early;
  late = c.late ++ news format moved n;
  split =
      announce-to_come format moved n g free
      ∙ ap (λ l. l ++ news format moved n) c.split
      ∙ append_assoc c.early c.late (news format moved n);
  states_agree = λ key.
      c.states_agree key
      ∙ ap (λ hs. last_state key (reported hs ++ h.transitions ++ c.early) (text "unknown"))
          (sym (announce-sender format moved n g).1);
}

-- A report that takes the states now has those behind all that has been announced.
IsCurrent-made :
    (cluster : Text) (s : Feedback) (h : HealthReport)
    → IsFed cluster s
    → s.reporter.sender ≡ taken h.transitions
    → h.states ≡ Machine.states s.machine
    → IsCurrent s.reporter h
IsCurrent-made cluster s h f at read =
    let r = s.reporter in
    record {
      early = to_come r;
      late = [];
      split = sym (append-nil (to_come r));
      states_agree = λ key.
          state-reported key s.machine h read
          ∙ sym (f.hears key)
          ∙ ap (λ l. last_state key (l ++ in_call (r.callers 0)) (text "unknown"))
              (sym (reported-notified cluster r f.reach)
                ∙ ap (λ (p : Sender). reported r.sent ++ in_hand p ++ r.pending) at)
          ∙ ap (λ l. last_state key l (text "unknown"))
              (append_assoc (reported r.sent ++ h.transitions) r.pending (in_call (r.callers 0)));
    }

IsCurrent-kept :
    (r r' : Goroutines) (h : HealthReport)
    → to_come r' ≡ to_come r
    → r'.sent ≡ r.sent
    → IsCurrent r h
    → IsCurrent r' h
IsCurrent-kept r r' h same sent c = record {
  early = c.early;
  late = c.late;
  split = same ∙ c.split;
  states_agree = λ key.
      c.states_agree key
      ∙ ap (λ hs. last_state key (reported hs ++ h.transitions ++ c.early) (text "unknown"))
          (sym sent);
}

Step-IsFed :
    (cluster : Text) (format : Time → Text) (s t : Feedback)
    → Step cluster format s t
    → IsFed cluster s
    → IsFed cluster t
Step-IsFed cluster format s t (records key up f r now free) i =
    let g = s.reporter in
    let n = notice format s.machine key up f r now in
    let moved = (record_result s.machine key up f r).1 in
    record {
      reach = announce-Reachable cluster format moved n g free i.reach;
      single = announce-IsSingle format moved n g i.single;
      hears = λ other.
          ap (λ l. last_state other l (text "unknown")) (announce-announced format moved n g free)
          ∙ last_state-append other (announced g) (news format moved n) (text "unknown")
          ∙ ap (last_state other (news format moved n)) (i.hears other)
          ∙ record_result-news format s.machine key up f r now other;
      going = λ h e.
          IsCurrent-announce format moved n g h free
            (i.going h (sym (announce-sender format moved n g).0 ∙ e));
    }
Step-IsFed cluster format s t (goes {r = r} step a) i =
    let k = Step-Kept s.machine cluster s.reporter r step a i.single in
    record {
      reach = Goroutines.then_step _ _ i.reach step;
      single = k.single;
      hears = λ key. ap (λ l. last_state key l (text "unknown")) k.same ∙ i.hears key;
      going = λ h e.
          let (from, same, sent) = k.going h e in
          IsCurrent-kept s.reporter r h same sent (elim from [
            | inl before ↦ i.going h before
            | inr (at, read) ↦ IsCurrent-made cluster s h i at read
          ]);
    }

pub Reachable-IsFed :
    (cluster : Text) (format : Time → Text) (s : Feedback)
    → Reachable cluster format s
    → IsFed cluster s
unfolding new_machine Machine.state
Reachable-IsFed cluster format s start = record {
  reach = Goroutines.start;
  single = λ j n. refl;
  hears = λ key. ground (arith, get-nil {V = TargetState} key);
  going = λ h e. absurd (cc e);
}
Reachable-IsFed cluster format t (then_step s u r st) =
    Step-IsFed cluster format s t st (Reachable-IsFed cluster format s r)

-- Whatever the order of the probes' results, the calls of `NotifyTransition` by the checks and the
-- steps of `Run`: while a report goes out, its states are, for every target, those behind the
-- transitions of the earlier reports, its own, and some first part of those that the queue and a
-- call under way hold. So no state in it is older than its transitions, and what it is ahead of them
-- is still to come, in the order of the transitions.
pub sending-IsCurrent :
    (cluster : Text) (format : Time → Text) (s : Feedback) (h : HealthReport)
    → Reachable cluster format s
    → s.reporter.sender ≡ sending h
    → IsCurrent s.reporter h
sending-IsCurrent cluster format s h r e = (Reachable-IsFed cluster format s r).going h e
