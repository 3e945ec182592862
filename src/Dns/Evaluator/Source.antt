-- ===== src/Dns/Evaluator/Source.antt =====
-- Where the answers that are served come from.
use mathlib.Core.Path.{subst}
use mathlib.Core.List.{flatten}
use zeus_gslb.Prelude.{
  All-map, All-append, All-filter, Time, Text, text_eq, ◌≡◌, ◌⊎◌, refl, Bool, true, false, Option,
  none, some, List, [], ◌∷◌, map, filter, All, Any, arith, Option-cases, inl, inr,
}
use zeus_gslb.Prelude.Dict.{Dict}
use zeus_gslb.Bundle.{Answer, Candidate, Record, mode_all}
use zeus_gslb.Dns.Damper.{Damper}
use zeus_gslb.Dns.Damper.Held.{Held, new_damper-Held, evaluate-Held}
use zeus_gslb.Dns.Evaluator.{
  Evaluator, LocalHealth, local_targets, new_evaluator, walk_record, settle, resolve,
  legacy_answers,
}
use zeus_gslb.Dns.Evaluator.Walk.{servable, chosen, first}
use zeus_gslb.Dns.Evaluator.Serving.{settle_cases, resolve-eq-settle, groups-chosen}
use zeus_gslb.Dns.Evaluator.Stocked.{Call, after}

module _ {A : Type 0} where
  pub All-first : (P : A → Type 0) (xs : List A) → All P xs → All P (first xs)
  All-first P [] h = tt
  All-first P (x ∷ xs) h = (h.0, tt)

  -- Each element of a list is one of its elements.
  pub All-Any : (xs : List A) → All (λ (x : A). Any (λ (y : A). y ≡ x) xs) xs
  All-Any [] = tt
  All-Any (x ∷ xs) = (
    inl refl,
    All-map (λ (z : A). Any (λ (y : A). y ≡ z) xs) (λ (z : A). Any (λ (y : A). y ≡ z) (x ∷ xs))
        (λ z h. inr h) xs (All-Any xs),
  )

module _ (P : Answer → Type 0) where
  pub flatten-All : (gs : List (List Answer)) → All (All P) gs → All P (flatten gs)
  unfolding flatten
  flatten-All [] h = tt
  flatten-All (g ∷ gs) h = All-append P g (flatten gs) h.0 (flatten-All gs h.1)

  pub answers-All :
      (cs : List Candidate)
      → All (λ (c : Candidate). All P c.answers) cs
      → All (All P) (map (λ (c : Candidate). c.answers) cs)
  answers-All [] h = tt
  answers-All (c ∷ cs) h = (h.0, answers-All cs h.1)

  chosen-All :
      (m : Option LocalHealth) (locals : Dict Bool) (all : Bool) (cs : List Candidate)
      → All (λ (c : Candidate). All P c.answers) cs
      → All (λ (c : Candidate). All P c.answers) (chosen m locals all cs)
  chosen-All m locals true cs h = All-filter (λ c. All P c.answers) (servable m locals) cs h
  chosen-All m locals false cs h =
      All-first (λ c. All P c.answers) (filter (servable m locals) cs)
        (All-filter (λ c. All P c.answers) (servable m locals) cs h)

-- The answer stands in the list.
abbrev pub IsIn : Answer → List Answer → Type 0
IsIn a = Any (λ b. b ≡ a)

-- The answer is one of a candidate of the record, or of the record itself where it has no
-- candidates.
abbrev pub Lists : Record → Answer → Type 0
Lists rec a =
    ((cs : List Candidate) × (rec.candidates ≡ some cs)
      × Any (λ (c : Candidate). IsIn a c.answers) cs)
    ⊎ ((rec.candidates ≡ none) × IsIn a rec.answers)

-- The answer stood in a record of that name in one of the calls.
abbrev pub Offered : List Call → Text → Answer → Type 0
Offered log fqdn a = Any (λ (q : Call). (q.rec.fqdn ≡ fqdn) × Lists q.rec a) log

-- The answer is one of a candidate.
abbrev pub IsAmong : List Candidate → Answer → Type 0
IsAmong cs a = Any (λ (d : Candidate). IsIn a d.answers) cs

IsAmong-more :
    (c : Candidate) (cs : List Candidate) (s : List Answer)
    → All (IsAmong cs) s
    → All (IsAmong (c ∷ cs)) s
IsAmong-more c cs s h = All-map (IsAmong cs) (IsAmong (c ∷ cs)) (λ a k. inr k) s h

pub candidates-IsAmong :
    (cs : List Candidate) → All (λ (c : Candidate). All (IsAmong cs) c.answers) cs
candidates-IsAmong [] = tt
candidates-IsAmong (c ∷ cs) = (
  All-map (λ (a : Answer). IsIn a c.answers) (IsAmong (c ∷ cs)) (λ a k. inl k) c.answers
      (All-Any c.answers),
  All-map (λ (d : Candidate). All (IsAmong cs) d.answers)
      (λ (d : Candidate). All (IsAmong (c ∷ cs)) d.answers) (λ d h. IsAmong-more c cs d.answers h)
      cs (candidates-IsAmong cs),
)

union-IsAmong :
    (e : Evaluator) (rec : Record) (cs : List Candidate)
    → All (IsAmong cs) (flatten (walk_record e rec cs).groups)
union-IsAmong e rec cs = flatten-All (IsAmong cs) (walk_record e rec cs).groups (
    rw groups-chosen (
      answers-All (IsAmong cs)
        (chosen e.machine (local_targets rec.local_checks) (text_eq rec.mode mode_all) cs)
        (chosen-All (IsAmong cs) e.machine (local_targets rec.local_checks)
          (text_eq rec.mode mode_all) cs (candidates-IsAmong cs))))

-- Every answer of a set has a property of a name and an answer.
abbrev pub Each : (Text → Answer → Type 0) → Text → List Answer → Type 0
Each P fqdn s = All (P fqdn) s

pub resolve_legacy :
    (e : Evaluator) (rec : Record) (now : Time)
    → rec.candidates ≡ none
    → resolve e rec now ≡ (e, legacy_answers rec)
unfolding resolve
resolve_legacy e rec now h = ground arith

pub legacy_own : (rec : Record) (s : List Answer) → legacy_answers rec ≡ some s → rec.answers ≡ s
unfolding legacy_answers
legacy_own rec s h = ground arith

module _ (P : Text → Answer → Type 0) where
  -- What `Resolve` gives on a record has the property under its name, and so has what is held
  -- behind it.
  pub record Kept (rec : Record) (out : Evaluator × Option (List Answer)) : Type 0 where
    pub held : Held (Each P) out.0.damper
    pub given : (s : List Answer) → out.1 ≡ some s → Each P rec.fqdn s

  settle-Kept :
      (e : Evaluator) (rec : Record) (cs : List Candidate) (now : Time)
      → rec.candidates ≡ some cs
      → ((a : Answer) → Lists rec a → P rec.fqdn a)
      → Held (Each P) e.damper
      → Kept rec (settle e rec.fqdn (walk_record e rec cs) now)
  settle-Kept e rec cs now c f h =
      let w = walk_record e rec cs in
      let union : Each P rec.fqdn (flatten w.groups) =
        All-map (IsAmong cs) (P rec.fqdn) (λ a k. f a (inl (cs, c, k))) (flatten w.groups)
          (union-IsAmong e rec cs) in
      let (here, held_after) =
        evaluate-Held (Each P) e.damper rec.fqdn (flatten w.groups) w.forced now h union in
      elim (settle_cases e rec.fqdn w now) [
        | inl (z, s) ↦ rw s (record { held = h; given = λ l n. absurd (cc n) })
        | inr (z, s, d) ↦ record {
          held = rw d held_after;
          given = λ l n. subst (Each P rec.fqdn) (cc (s, n)) here;
        }
      ]

  pub resolve-Kept :
      (e : Evaluator) (rec : Record) (now : Time)
      → ((a : Answer) → Lists rec a → P rec.fqdn a)
      → Held (Each P) e.damper
      → Kept rec (resolve e rec now)
  resolve-Kept e rec now f h = elim (Option-cases rec.candidates) [
    | inl legacy ↦ rw (resolve_legacy e rec now legacy) (record {
      held = h;
      given = λ s n. subst (Each P rec.fqdn) (legacy_own rec s n) (
          All-map (λ (a : Answer). IsIn a rec.answers) (P rec.fqdn) (λ a k. f a (inr (legacy, k)))
            rec.answers (All-Any rec.answers));
    })
    | inr (cs, c) ↦ rw (resolve-eq-settle e rec now cs c) (settle-Kept e rec cs now c f h)
  ]

Offered-later :
    (q : Call) (log : List Call) (d : Damper)
    → Held (Each (Offered log)) d
    → Held (Each (Offered (q ∷ log))) d
Offered-later q log d h k s e =
    All-map (Offered log k) (Offered (q ∷ log) k) (λ a o. inr o) s (h k s e)

call-Kept :
    (log : List Call) (q : Call)
    → Held (Each (Offered log)) (after log).damper
    → Kept
        (Offered (q ∷ log))
        q.rec
        (resolve (record (after log) { machine = q.machine }) q.rec q.now)
call-Kept log q h =
    resolve-Kept (Offered (q ∷ log)) (record (after log) { machine = q.machine }) q.rec q.now
      (λ a k. inl (refl, k)) (Offered-later q log (after log).damper h)

after-Held : (log : List Call) → Held (Each (Offered log)) (after log).damper
after-Held [] = unfold new_evaluator in new_damper-Held (Each (Offered []))
after-Held (q ∷ log) = (call-Kept log q (after-Held log)).held

-- Every answer that `Resolve` serves, after any calls, stood in a candidate of a record of that
-- name in this call or an earlier one, or in such a record itself where it had no candidates: no
-- address is served under a name that no record gave it.
pub resolve-Offered :
    (log : List Call) (q : Call) (answers : List Answer)
    → (resolve (record (after log) { machine = q.machine }) q.rec q.now).1 ≡ some answers
    → All (Offered (q ∷ log) q.rec.fqdn) answers
resolve-Offered log q = (call-Kept log q (after-Held log)).given
