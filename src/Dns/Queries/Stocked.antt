-- ===== src/Dns/Queries/Stocked.antt =====
-- No query is given an empty answer set for a record with candidates, however the queries interleave.
use mathlib.Core.Path.{subst}
use mathlib.Core.List.{flatten}
use zeus_gslb.Prelude.{
  Time, ℕ, Text, text_eq, All, All-append, ◌==◌, ◌≡◌, ◌≢◌, sym, ap, arith, Bool, false, Option,
  none, some, List, [], ◌∷◌, ◌++◌, length, Bool-cases, Option-cases, inl, inr,
}
use zeus_gslb.Prelude.Dict.{Dict}
use zeus_gslb.Bundle.{Answer, Bundle, Candidate, mode_all}
use zeus_gslb.Dns.Damper.{new_damper}
use zeus_gslb.Dns.Damper.Held.{new_damper-Held, evaluate-Held}
use zeus_gslb.Dns.Evaluator.{LocalHealth, Walked, viable, local_targets}
use zeus_gslb.Dns.Evaluator.Stocked.{IsStocked, Stocked, flatten-ne-nil}
use zeus_gslb.Dns.Handler.{Library, Question, Qtype, type_a, type_aaaa, other_type, Msg, lookup}
use zeus_gslb.Dns.Queries.{
  Shared, Job, Query, idle, asked, reading, walking, deciding, recording, written, begin_resolve,
  begin_query, begin_question, begin, gathered, look_at, advance, Queries, Turn, arrives, steps,
  swaps, update, receive, turn, take_turns,
}
use zeus_gslb.Dns.Queries.Branches.{begin_legacy, begin_reading, type_a_unknown, type_a_known}

abbrev IsFilled : Walked → Type 0
IsFilled w = All (λ (g : List Answer). g ≢ []) w.groups

-- What a goroutine has gathered, and what it was given, has an address in each part.
abbrev Fills : Query → Type 0
Fills (walking job prev rest w) = IsFilled w
Fills (deciding job w) = IsFilled w × (w.groups ≢ [])
Fills (recording job w served) = served ≢ []
Fills _ = Unit

ne_of_length : (gs : List (List Answer)) → length gs == 0 ≡ false → gs ≢ []
ne_of_length gs z e = absurd (ground (arith, z, ap (length {A = List Answer}) e))

answers-ne-nil : (g : List Answer) → length g == 0 ≡ false → g ≢ []
answers-ne-nil g z e = absurd (ground (arith, z, ap (length {A = Answer}) e))

module _ (lib : Library) where
  gathered-Fills : (job : Job) (w : Walked) → IsFilled w → Fills (gathered lib job w)
  unfolding gathered
  gathered-Fills job w f = elim (Bool-cases (length w.groups == 0)) [
    | inl z ↦ rw z tt
    | inr z ↦ rw z (f, ne_of_length w.groups z)
  ]

  look_at-Fills :
      (health : Option LocalHealth) (job : Job) (prev : Dict Bool) (cand : Candidate)
      (rest : List Candidate) (w : Walked)
      → IsFilled w
      → Fills (look_at lib health job prev cand rest w)
  unfolding look_at
  look_at-Fills health job prev cand rest w f =
      let (v, u) = viable health cand (local_targets job.rec.local_checks) in
      elim (Bool-cases v) [
        | inr n ↦ rw n f
        | inl y ↦ elim (Bool-cases (length cand.answers == 0)) [
          | inl z ↦ rw (y, z) f
          | inr z ↦
              let more : All (λ (g : List Answer). g ≢ []) (w.groups ++ cand.answers ∷ []) =
                All-append (λ (g : List Answer). g ≢ []) w.groups (cand.answers ∷ []) f
                  (answers-ne-nil cand.answers z, tt) in
              elim (Bool-cases (text_eq job.rec.mode mode_all)) [
                | inl a ↦ rw (y, z, a) more
                | inr a ↦ rw (y, z, a) (gathered-Fills job _ more)
              ]
        ]
      ]

  begin_resolve-Fills : (job : Job) → Fills (begin_resolve lib job)
  begin_resolve-Fills job = elim (Option-cases job.rec.candidates) [
    | inl n ↦ rw (begin_legacy lib job n) tt
    | inr (cs, h) ↦ rw (begin_reading lib job cs h) tt
  ]

  begin_query-Fills :
      (msg : Msg) (b : Bundle) (zone name : Text) (q : Qtype)
      → Fills (begin_query lib msg b zone name q)
  begin_query-Fills msg b zone name type_a = elim (Option-cases (lookup lib b name)) [
    | inl n ↦ rw (type_a_unknown lib b msg zone name n) tt
    | inr (rec, h) ↦
        rw (type_a_known lib b msg zone name rec h)
          (begin_resolve-Fills (record { msg = msg; name = name; rec = rec }))
  ]
  begin_query-Fills msg b zone name type_aaaa = unfold begin_query in tt
  begin_query-Fills msg b zone name (other_type k) = unfold begin_query in tt

  begin-Fills : (c : Option Bundle) (qs : List Question) → Fills (begin lib c qs)
  unfolding begin begin_question
  begin-Fills c [] = tt
  begin-Fills c (q ∷ q' ∷ rest) = tt
  begin-Fills none (q ∷ []) = tt
  begin-Fills (some b) (q ∷ []) =
      elim (Bool-cases (lib.is_sub_domain (lib.fqdn b.domain) (lib.fqdn q.name))) [
        | inl y ↦ rw y (begin_query-Fills _ b (lib.fqdn b.domain) (lib.fqdn q.name) q.qtype)
        | inr n ↦ rw n tt
      ]

  advance-Fills :
      (health : Option LocalHealth) (now : Time) (m : Shared) (q : Query)
      → Stocked m.damper
      → Fills q
      → Stocked (advance lib health now m q).0.damper × Fills (advance lib health now m q).1
  unfolding advance
  advance-Fills health now m idle s f = (s, tt)
  advance-Fills health now m (asked qs) s f = (s, begin-Fills m.current qs)
  advance-Fills health now m (reading job cs) s f = (s, tt)
  advance-Fills health now m (walking job prev [] w) s f = (s, gathered-Fills job w f)
  advance-Fills health now m (walking job prev (cand ∷ rest) w) s f =
      (s, look_at-Fills health job prev cand rest w f)
  advance-Fills health now m (deciding job w) s (f, some_group) =
      let (given, held) =
        evaluate-Held IsStocked m.damper job.rec.fqdn (flatten w.groups) w.forced now s
          (flatten-ne-nil w.groups some_group f) in
      (held, given)
  advance-Fills health now m (recording job w served) s f = (s, tt)
  advance-Fills health now m (written msg) s f = (s, tt)

  record AreStocked (s : Queries) : Type 0 where
    damper : Stocked s.shared.damper
    each : (i : ℕ) → Fills (s.queries i)

  update-Fills :
      (f : ℕ → Query) (i : ℕ) (q : Query)
      → ((j : ℕ) → Fills (f j))
      → Fills q
      → (j : ℕ) → Fills (update f i q j)
  update-Fills f i q h fills j = elim (Bool-cases (j == i)) [
    | inl same ↦ rw same fills
    | inr other ↦ rw other (h j)
  ]

  receive-Fills : (qs : List Question) (q : Query) → Fills q → Fills (receive qs q)
  receive-Fills qs idle f = tt
  receive-Fills qs (asked x) f = f
  receive-Fills qs (reading job cs) f = f
  receive-Fills qs (walking job prev rest w) f = f
  receive-Fills qs (deciding job w) f = f
  receive-Fills qs (recording job w served) f = f
  receive-Fills qs (written msg) f = tt

  turn-AreStocked : (t : Turn) (s : Queries) → AreStocked s → AreStocked (turn lib t s)
  unfolding turn
  turn-AreStocked (arrives i qs) s a = record {
    damper = a.damper;
    each =
        update-Fills s.queries i (receive qs (s.queries i)) a.each
          (receive-Fills qs (s.queries i) (a.each i));
  }
  turn-AreStocked (steps i health now) s a =
      let (stocked, fills) = advance-Fills health now s.shared (s.queries i) a.damper (a.each i) in
      record {
        damper = stocked;
        each =
            update-Fills s.queries i (advance lib health now s.shared (s.queries i)).1 a.each fills;
      }
  turn-AreStocked (swaps b) s a = record { damper = a.damper; each = a.each }

  take_turns-AreStocked :
      (ts : List Turn) (s : Queries) → AreStocked s → AreStocked (take_turns lib ts s)
  unfolding take_turns
  take_turns-AreStocked [] s a = a
  take_turns-AreStocked (t ∷ ts) s a =
      take_turns-AreStocked ts (turn lib t s) (turn-AreStocked t s a)

  -- From a new damper and no query on, whatever queries arrive, however their steps interleave, and
  -- whatever the bundles, the checks and the clock show at each step: the answer set that `Evaluate`
  -- gives to a query for its response, damped or not, has an answer.
  pub recording-ne-nil :
      (ts : List Turn) (s : Queries) (i : ℕ) (job : Job) (w : Walked) (served : List Answer)
      → s.shared.damper ≡ new_damper
      → ((j : ℕ) → s.queries j ≡ idle)
      → (take_turns lib ts s).queries i ≡ recording job w served
      → served ≢ []
  recording-ne-nil ts s i job w served new quiet at =
      let begun : AreStocked s = record {
        damper = subst Stocked (sym new) (new_damper-Held IsStocked);
        each = λ j. subst Fills (sym (quiet j)) tt;
      } in
      subst Fills at ((take_turns-AreStocked ts s begun).each i)
