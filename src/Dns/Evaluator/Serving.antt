-- ===== src/Dns/Evaluator/Serving.antt =====
-- When `Resolve` serves and when it fails closed, and that it never serves an empty answer set.
use mathlib.Core.List.{flatten}
use zeus_gslb.Prelude.{
  Time, Text, text_eq, ◌≡◌, ◌≢◌, ◌↔◌, ◌⊎◌, refl, sym, ap, ◌∙◌, none, some, List, [], ◌∷◌, map,
  length, filter, ◌==◌, arith, Bool-cases, inl, inr,
}
use zeus_gslb.Bundle.{Candidate, Record, mode_all}
use zeus_gslb.Dns.Damper.{evaluate}
use zeus_gslb.Dns.Evaluator.{
  Evaluator, Walked, nothing_walked, local_targets, mark, active, walk_record, settle, resolve,
}
use zeus_gslb.Dns.Evaluator.Walk.{servable, chosen, visited, with_chosen, first, walk-chosen}

-- The candidates that could serve the record now.
abbrev pub servable_now : Evaluator → Record → List Candidate → List Candidate
servable_now e rec cs = filter (servable e.machine (local_targets rec.local_checks)) cs

-- The candidates that the record's mode selects.
abbrev pub chosen_now : Evaluator → Record → List Candidate → List Candidate
chosen_now e rec cs =
    chosen e.machine (local_targets rec.local_checks) (text_eq rec.mode mode_all) cs

pub walk_record-chosen :
    (e : Evaluator) (rec : Record) (cs : List Candidate)
    → walk_record e rec cs
      ≡ with_chosen e.machine
          (local_targets rec.local_checks)
          (mark (active e rec.fqdn) [])
          nothing_walked
          (chosen_now e rec cs)
          (visited e.machine (local_targets rec.local_checks) (text_eq rec.mode mode_all) cs)
unfolding walk_record
walk_record-chosen e rec cs =
    walk-chosen e.machine (local_targets rec.local_checks) (mark (active e rec.fqdn) [])
      (text_eq rec.mode mode_all) cs nothing_walked

first-eq-nil : (cs : List Candidate) → (first cs ≡ []) ↔ (cs ≡ [])
first-eq-nil [] = (λ h. h, λ h. h)
first-eq-nil (c ∷ cs) = (λ h. cc, λ h. cc)

pub chosen_now-eq-nil :
    (e : Evaluator) (rec : Record) (cs : List Candidate)
    → (chosen_now e rec cs ≡ []) ↔ (servable_now e rec cs ≡ [])
chosen_now-eq-nil e rec cs = elim (Bool-cases (text_eq rec.mode mode_all)) [
  | inl a ↦ rw a (λ h. h, λ h. h)
  | inr a ↦ rw a (first-eq-nil (servable_now e rec cs))
]

pub settle_cases :
    (e : Evaluator) (fqdn : Text) (w : Walked) (now : Time)
    → ((w.groups ≡ []) × (settle e fqdn w now ≡ (e, none)))
      ⊎ ((w.groups ≢ [])
          × ((settle e fqdn w now).1
              ≡ some (evaluate e.damper fqdn (flatten w.groups) w.forced now).1)
          × ((settle e fqdn w now).0.damper
              ≡ (evaluate e.damper fqdn (flatten w.groups) w.forced now).0))
unfolding settle
settle_cases e fqdn w now = elim (Bool-cases (length w.groups == 0)) [
  | inl z ↦ inl (ground arith, rw z)
  | inr z ↦ inr (ground arith, rw z, rw z)
]

map-eq-nil : (cs : List Candidate) → map (λ (c : Candidate). c.answers) cs ≡ [] → cs ≡ []
map-eq-nil [] h = refl
map-eq-nil (c ∷ cs) h = cc

pub resolve-eq-settle :
    (e : Evaluator) (rec : Record) (now : Time) (cs : List Candidate)
    → rec.candidates ≡ some cs
    → resolve e rec now ≡ settle e rec.fqdn (walk_record e rec cs) now
unfolding resolve
resolve-eq-settle e rec now cs h = ground arith

pub groups-chosen :
    (e : Evaluator) (rec : Record) (cs : List Candidate)
    → (walk_record e rec cs).groups ≡ map (λ (c : Candidate). c.answers) (chosen_now e rec cs)
groups-chosen e rec cs = ap (λ (w : Walked). w.groups) (walk_record-chosen e rec cs)

-- The walk gathers something where a candidate could serve.
pub groups-ne-nil :
    (e : Evaluator) (rec : Record) (cs : List Candidate)
    → servable_now e rec cs ≢ []
    → (walk_record e rec cs).groups ≢ []
groups-ne-nil e rec cs n z = n (
    (chosen_now-eq-nil e rec cs).0
      (map-eq-nil (chosen_now e rec cs) (sym (groups-chosen e rec cs) ∙ z)))

-- A record with candidates is answered with SERVFAIL exactly when no candidate is both viable and
-- has an address, and then the evaluator is left as it was.
pub resolve_fails :
    (e : Evaluator) (rec : Record) (now : Time) (cs : List Candidate)
    → rec.candidates ≡ some cs
    → (((resolve e rec now).1 ≡ none) ↔ (servable_now e rec cs ≡ []))
      × ((resolve e rec now).1 ≡ none → (resolve e rec now).0 ≡ e)
resolve_fails e rec now cs h =
    let w = walk_record e rec cs in
    let nil = chosen_now-eq-nil e rec cs in
    let groups = groups-chosen e rec cs in
    elim (settle_cases e rec.fqdn w now) [
      | inl (z, s) ↦
          rw (resolve-eq-settle e rec now cs h, s)
            ((λ _. nil.0 (map-eq-nil _ (sym groups ∙ z)), λ _. refl), λ _. refl)
      | inr (z, s, _) ↦
          let some_answers = resolve-eq-settle e rec now cs h in
          (
            (
              λ n. cc (s, n, some_answers),
              λ n. absurd (z (groups ∙ ap (map (λ (c : Candidate). c.answers)) (nil.1 n))),
            ),
            λ n. cc (s, n, some_answers),
          )
    ]
