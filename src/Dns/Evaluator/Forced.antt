-- ===== src/Dns/Evaluator/Forced.antt =====
-- Which moves away from an unhealthy candidate are exempt from damping, and which are not.
use mathlib.Core.List.{flatten, Perm, append-nil}
use zeus_gslb.Prelude.{
  Time, text_eq, ◌+◌, ◌<◌, ◌≡◌, ap, Bool, true, false, some, List, [], ◌∷◌, map, any, inl, inr,
}
use zeus_gslb.Bundle.{Answer, Candidate, Record, mode_all}
use zeus_gslb.Dns.Answers.{answer_set_equal}
use zeus_gslb.Dns.Damper.{unfreeze_quiet_period, evaluate}
use zeus_gslb.Dns.Damper.Moves.{evaluate_forced}
use zeus_gslb.Dns.Damper.Freeze.{IsFrozenAt, evaluate_held}
use zeus_gslb.Dns.Evaluator.{
  Evaluator, Walked, local_targets, active, mark, flag, walk_record, settle, resolve,
}
use zeus_gslb.Dns.Evaluator.Walk.{servable, lost, visited}
use zeus_gslb.Dns.Evaluator.Serving.{
  chosen_now, walk_record-chosen, settle_cases, resolve-eq-settle, groups-chosen,
}

-- Whether a candidate that the walk visits was active and is unhealthy now.
abbrev pub has_lost : Evaluator → Record → List Candidate → Bool
has_lost e rec cs =
    any (lost e.machine (local_targets rec.local_checks) (mark (active e rec.fqdn) []))
      (visited e.machine (local_targets rec.local_checks) (text_eq rec.mode mode_all) cs)

forced-has_lost :
    (e : Evaluator) (rec : Record) (cs : List Candidate)
    → (walk_record e rec cs).forced ≡ has_lost e rec cs
forced-has_lost e rec cs = ap (λ (w : Walked). w.forced) (walk_record-chosen e rec cs)

-- When a candidate that the walk visits was active and is unhealthy now, and the record is
-- answered, then with the addresses of the candidates that its mode selects, up to their order:
-- neither a freeze nor the count of earlier moves holds the move back.
pub resolve_forced :
    (e : Evaluator) (rec : Record) (now : Time) (cs : List Candidate) (answers : List Answer)
    → rec.candidates ≡ some cs
    → has_lost e rec cs ≡ true
    → (resolve e rec now).1 ≡ some answers
    → Perm answers (flatten (map (λ (c : Candidate). c.answers) (chosen_now e rec cs)))
resolve_forced e rec now cs answers h l y =
    let w = walk_record e rec cs in
    elim (settle_cases e rec.fqdn w now) [
      | inl (z, s) ↦ absurd (cc (s, resolve-eq-settle e rec now cs h, y))
      | inr (z, s, d) ↦
          let out : answers ≡ (evaluate e.damper rec.fqdn (flatten w.groups) true now).1 =
            cc (s, resolve-eq-settle e rec now cs h, y, forced-has_lost e rec cs, l) in
          rw (out, ← groups-chosen e rec cs)
            (evaluate_forced e.damper rec.fqdn (flatten w.groups) now)
    ]

-- In mode "single" the walk stops at the first servable candidate, so it does not see that a
-- candidate behind it was active and is unhealthy: while the name is frozen, the answers that it is
-- frozen at are served on, whatever the candidates behind the first one are.
pub resolve_unseen :
    (e : Evaluator) (rec : Record) (now t : Time) (c : Candidate) (rest : List Candidate)
    (s : List Answer)
    → rec.candidates ≡ some (c ∷ rest)
    → text_eq rec.mode mode_all ≡ false
    → servable e.machine (local_targets rec.local_checks) c ≡ true
    → flag c.target_key (mark (active e rec.fqdn) []) ≡ false
    → IsFrozenAt e.damper rec.fqdn s t
    → answer_set_equal s c.answers ≡ false
    → now < t + unfreeze_quiet_period
    → (resolve e rec now).1 ≡ some s
resolve_unseen e rec now t c rest s h single ok new z ne soon =
    let walked : walk_record e rec (c ∷ rest)
        ≡ record { viable_keys = c.target_key ∷ []; groups = c.answers ∷ []; forced = false } =
      rw (walk_record-chosen e rec (c ∷ rest), single, ok, new) in
    rw (resolve-eq-settle e rec now (c ∷ rest) h, walked)
      (unfold settle flatten in
        rw (append-nil, (evaluate_held e.damper rec.fqdn s c.answers t now z ne soon).0))
