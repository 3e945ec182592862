-- ===== src/Dns/Queries/Stale.antt =====
-- Two queries about one name whose steps interleave: `e.mu` is free between `Evaluate` and the write
-- of the active keys.
use mathlib.Core.List.{flatten}
use zeus_gslb.Prelude.{
  Time, ℕ, Text, ◌==◌, ==_iff, ◌≡◌, ◌≢◌, refl, sym, ap, ◌∙◌, arith, Bool, false, Option, none, some,
  List, [], ◌∷◌, filter, Bool-cases, inl, inr, length, ◌≤◌,
}
use zeus_gslb.Prelude.Dict
use zeus_gslb.Prelude.Dict.{get-put_self}
use zeus_gslb.Bundle.{Answer}
use zeus_gslb.Dns.Answers.{answer_set_equal}
use zeus_gslb.Dns.Damper.{
  Damper, first_served, evaluate_entry, evaluate, decide_move, maybe_auto_unfreeze, prune_window,
  is_recent,
}
use zeus_gslb.Dns.Evaluator.{LocalHealth, Walked}
use zeus_gslb.Dns.Handler.{Library}
use zeus_gslb.Dns.Queries.{
  Job, Query, deciding, advance, Queries, Turn, steps, update, turn, take_turns,
}
use zeus_gslb.Dns.Damper.Moves.{served, evaluate-served}
use zeus_gslb.Dns.Answers.Multiset.{answer_set_equal_refl}

filter_one : (p : Time → Bool) (t : Time) → length (filter p (t ∷ [])) ≤ 1
filter_one p t = elim (Bool-cases (p t)) [ inl y ↦ rw y (omega arith) | inr n ↦ rw n (omega arith) ]

module _ (d : Damper) (fqdn : Text) (a b : List Answer) (fa fb : Bool) (s t : Time)
    (new : Dict.get fqdn d ≡ none) (other : answer_set_equal a b ≡ false) where
  -- Two sets for a name that the damper does not know: it serves each to the query that brings it,
  -- and holds the second.
  first_given : evaluate d fqdn a fa s ≡ (Dict.put fqdn (first_served a) d, a)
  unfolding evaluate
  first_given = rw new refl

  second_entry : (evaluate_entry (some (first_served a)) b fb t).1 ≡ b
  unfolding evaluate_entry decide_move maybe_auto_unfreeze prune_window
  second_entry = ground (arith, other, filter_one (is_recent t) t)

  second_given : (evaluate (Dict.put fqdn (first_served a) d) fqdn b fb t).1 ≡ b
  unfolding evaluate
  second_given = rw (get-put_self fqdn (first_served a) d) second_entry

  second_held : served (evaluate (Dict.put fqdn (first_served a) d) fqdn b fb t).0 fqdn ≡ some b
  second_held =
      (evaluate-served (Dict.put fqdn (first_served a) d) fqdn b fb t).0 ∙ ap some second_given

pub update_self : (f : ℕ → Query) (i : ℕ) (q : Query) → update f i q i ≡ q
update_self f i q = rw ((==_iff i i).1 refl) refl

pub update_other : (f : ℕ → Query) (i j : ℕ) (q : Query) → i ≢ j → update f i q j ≡ f j
update_other f i j q n = elim (Bool-cases (j == i)) [
  | inl y ↦ absurd (n (sym ((==_iff j i).0 y)))
  | inr o ↦ rw o refl
]

module _ (lib : Library) (health : Option LocalHealth) (now : Time) where
  -- What a step of a goroutine makes of the others.
  pub turn-steps :
      (s : Queries) (i : ℕ) (q : Query)
      → s.queries i ≡ q
      → (turn lib (steps i health now) s ≡ record {
        shared = (advance lib health now s.shared q).0;
        queries = update s.queries i (advance lib health now s.shared q).1;
      })
  unfolding turn
  turn-steps s i q h = rw h refl

-- Both stand at `Evaluate`; then each takes its two steps, the first one's write last.
abbrev pub crossed : ℕ → ℕ → Option LocalHealth → Time → List Turn
crossed i j health now =
    steps i health now ∷ steps j health now ∷ steps j health now ∷ steps i health now ∷ []

-- What the four steps do to what the queries share.
crossed-shared :
    (lib : Library) (s : Queries) (i j : ℕ) (v w : Job × Walked) (health : Option LocalHealth)
    (now : Time)
    → i ≢ j
    → s.queries i ≡ deciding v.0 v.1
    → s.queries j ≡ deciding w.0 w.1
    → let (m1, q1) = advance lib health now s.shared (deciding v.0 v.1) in
      let (m2, q2) = advance lib health now m1 (deciding w.0 w.1) in
      (take_turns lib (crossed i j health now) s).shared
      ≡ (advance lib health now (advance lib health now m2 q2).0 q1).0
unfolding take_turns
crossed-shared lib s i j v w health now n hi hj =
    let (m1, q1) = advance lib health now s.shared (deciding v.0 v.1) in
    let (m2, q2) = advance lib health now m1 (deciding w.0 w.1) in
    let f1 = update s.queries i q1 in
    let f2 = update f1 j q2 in
    let s1 : Queries = record { shared = m1; queries = f1 } in
    let s2 : Queries = record { shared = m2; queries = f2 } in
    let s3 : Queries = record {
      shared = (advance lib health now m2 q2).0;
      queries = update f2 j (advance lib health now m2 q2).1;
    } in
    rw (turn-steps lib health now s i (deciding v.0 v.1) hi) (
      rw (turn-steps lib health now s1 j (deciding w.0 w.1) (update_other s.queries i j q1 n ∙ hj))
        (rw (turn-steps lib health now s2 j q2 (update_self f1 j q2)) (
          rw
            (turn-steps lib health now s3 i q1 (
              update_other f2 j i (advance lib health now m2 q2).1 (λ e. n (sym e))
              ∙ update_other f1 j i q2 (λ e. n (sym e))
              ∙ update_self s.queries i q1))
            refl)))

-- Two queries about a name that the damper does not know stand at `Evaluate` with different answers.
-- When the second one evaluates and writes between the first one's `Evaluate` and its write, the
-- damper serves the second one's answers, while the active keys are the first one's.
pub crossed-active_keys :
    (lib : Library) (s : Queries) (i j : ℕ) (v w : Job × Walked) (health : Option LocalHealth)
    (now : Time)
    → i ≢ j
    → s.queries i ≡ deciding v.0 v.1
    → s.queries j ≡ deciding w.0 w.1
    → v.0.rec.fqdn ≡ w.0.rec.fqdn
    → Dict.get v.0.rec.fqdn s.shared.damper ≡ none
    → answer_set_equal (flatten v.1.groups) (flatten w.1.groups) ≡ false
    → let m = (take_turns lib (crossed i j health now) s).shared in
      (served m.damper v.0.rec.fqdn ≡ some (flatten w.1.groups))
      × (Dict.get v.0.rec.fqdn m.active_keys ≡ some v.1.viable_keys)
unfolding advance
crossed-active_keys lib s i j (v, x) (w, y) health now n hi hj same new other =
    rw (crossed-shared lib s i j (v, x) (w, y) health now n hi hj, ← same)
      (rw
        (
          first_given s.shared.damper v.rec.fqdn (flatten x.groups) (flatten y.groups) x.forced
              y.forced now now new other,
          answer_set_equal_refl,
        )
        (
          second_held s.shared.damper v.rec.fqdn (flatten x.groups) (flatten y.groups) x.forced
              y.forced now now new other,
          get-put_self v.rec.fqdn x.viable_keys _,
        ))
