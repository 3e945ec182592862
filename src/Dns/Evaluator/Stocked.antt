-- ===== src/Dns/Evaluator/Stocked.antt =====
-- No record with candidates is ever answered with an empty answer set, damping included.
use mathlib.Core.List.{flatten}
use zeus_gslb.Prelude.{
  Time, Text, text_eq, ◌≡◌, ◌≢◌, refl, Bool, true, false, Option, none, some, List, [], ◌∷◌, map,
  filter, All, arith, Bool-cases, Option-cases, inl, inr,
}
use zeus_gslb.Prelude.Dict.{Dict}
use zeus_gslb.Bundle.{Answer, Candidate, Record, mode_all}
use zeus_gslb.Dns.Damper.{Damper}
use zeus_gslb.Dns.Damper.Held.{Held, new_damper-Held, evaluate-Held}
use zeus_gslb.Dns.Evaluator.{
  Evaluator, LocalHealth, local_targets, new_evaluator, walk_record, settle, resolve,
}
use zeus_gslb.Dns.Evaluator.Walk.{servable, chosen, first}
use zeus_gslb.Dns.Evaluator.Serving.{settle_cases, resolve-eq-settle, groups-chosen}

abbrev pub IsStocked : Text → List Answer → Type 0
IsStocked k s = s ≢ []

-- No name is held with an empty answer set.
abbrev pub Stocked : Damper → Type 0
Stocked = Held IsStocked

pub flatten-ne-nil : (gs : List (List Answer)) → gs ≢ [] → All (λ g. g ≢ []) gs → flatten gs ≢ []
unfolding flatten
flatten-ne-nil [] ne a = λ _. ne refl
flatten-ne-nil ([] ∷ gs) ne a = λ _. a.0 refl
flatten-ne-nil ((x ∷ g) ∷ gs) ne a = λ z. cc z

module _ (m : Option LocalHealth) (locals : Dict Bool) where
  servable_groups :
      (cs : List Candidate)
      → All (λ g. g ≢ []) (map (λ (c : Candidate). c.answers) (filter (servable m locals) cs))
  servable_groups [] = tt
  servable_groups (c ∷ cs) = elim (Bool-cases (servable m locals c)) [
    | inl y ↦ rw y ((λ z. ground arith), servable_groups cs)
    | inr n ↦ rw n (servable_groups cs)
  ]

  first_groups :
      (cs : List Candidate)
      → All (λ g. g ≢ []) (map (λ (c : Candidate). c.answers) cs)
      → All (λ g. g ≢ []) (map (λ (c : Candidate). c.answers) (first cs))
  first_groups [] a = tt
  first_groups (c ∷ cs) a = (a.0, tt)

  chosen_groups :
      (all : Bool) (cs : List Candidate)
      → All (λ g. g ≢ []) (map (λ (c : Candidate). c.answers) (chosen m locals all cs))
  chosen_groups true cs = servable_groups cs
  chosen_groups false cs = first_groups (filter (servable m locals) cs) (servable_groups cs)

walk_record-ne-nil :
    (e : Evaluator) (rec : Record) (cs : List Candidate)
    → (walk_record e rec cs).groups ≢ []
    → flatten (walk_record e rec cs).groups ≢ []
walk_record-ne-nil e rec cs ne = flatten-ne-nil (walk_record e rec cs).groups ne (
    rw groups-chosen
      (chosen_groups e.machine (local_targets rec.local_checks) (text_eq rec.mode mode_all) cs))

-- What holds after `Resolve` on a record.
record Safe (rec : Record) (out : Evaluator × Option (List Answer)) : Type 0 where
  stocked : Stocked out.0.damper
  answered :
      (cs : List Candidate) (out_answers : List Answer)
      → rec.candidates ≡ some cs
      → out.1 ≡ some out_answers
      → out_answers ≢ []

settle-Safe :
    (e : Evaluator) (rec : Record) (cs : List Candidate) (now : Time)
    → Stocked e.damper
    → Safe rec (settle e rec.fqdn (walk_record e rec cs) now)
settle-Safe e rec cs now st = elim (settle_cases e rec.fqdn (walk_record e rec cs) now) [
  | inl (z, s) ↦ rw s (record { stocked = st; answered = λ cs' l h n. cc })
  | inr (z, s, d) ↦
      let ne = walk_record-ne-nil e rec cs z in
      let w = walk_record e rec cs in
      record {
        stocked =
            rw d
              ((evaluate-Held IsStocked e.damper rec.fqdn (flatten w.groups) w.forced now st ne).1);
        answered = λ cs' l h n y.
            (evaluate-Held IsStocked e.damper rec.fqdn (flatten w.groups) w.forced now st ne).0
              (cc (s, n, y));
      }
]

legacy_unchanged :
    (e : Evaluator) (rec : Record) (now : Time) → rec.candidates ≡ none → (resolve e rec now).0 ≡ e
unfolding resolve
legacy_unchanged e rec now h = ground arith

resolve-Safe :
    (e : Evaluator) (rec : Record) (now : Time) → Stocked e.damper → Safe rec (resolve e rec now)
resolve-Safe e rec now st = elim (Option-cases rec.candidates) [
  | inl legacy ↦ record {
    stocked = rw (legacy_unchanged e rec now legacy) st;
    answered = λ cs l h n. absurd (cc (legacy, h));
  }
  | inr (cs, h) ↦ rw (resolve-eq-settle e rec now cs h) (settle-Safe e rec cs now st)
]

-- One call of `Resolve`, with what the health checks say at that time.
pub record Call : Type 0 where
  pub machine : Option LocalHealth
  pub rec : Record
  pub now : Time

-- The evaluator after a log of calls, newest first.
abbrev pub after : List Call → Evaluator
after [] = new_evaluator none
after (q ∷ log) = (resolve (record (after log) { machine = q.machine }) q.rec q.now).0

after-Stocked : (log : List Call) → Stocked (after log).damper
after-Stocked [] = unfold new_evaluator in new_damper-Held IsStocked
after-Stocked (q ∷ log) =
    (resolve-Safe (record (after log) { machine = q.machine }) q.rec q.now
      (after-Stocked log)).stocked

-- After any calls, whatever the health checks said at each and however the damper froze: when a
-- record with candidates is answered, there is at least one answer.
pub resolve_never_empty :
    (log : List Call) (q : Call) (cs : List Candidate) (answers : List Answer)
    → q.rec.candidates ≡ some cs
    → (resolve (record (after log) { machine = q.machine }) q.rec q.now).1 ≡ some answers
    → answers ≢ []
resolve_never_empty log q =
    (resolve-Safe (record (after log) { machine = q.machine }) q.rec q.now
      (after-Stocked log)).answered
