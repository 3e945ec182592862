-- ===== src/Dns/Queries/Sourced.antt =====
-- Every address that a response has comes from a bundle that the store has taken, however the
-- queries interleave.
use mathlib.Core.Path.{subst}
use mathlib.Core.List.{flatten}
use zeus_gslb.Prelude.{
  Time, ℕ, Text, All, ◌==◌, ◌≡◌, refl, ap, arith, Option, none, some, List, [], ◌∷◌, Bool-cases,
  Option-cases, inl, inr,
}
use zeus_gslb.Bundle.{Bundle, Record}
use zeus_gslb.Dns.Damper.{new_damper}
use zeus_gslb.Dns.Damper.Held.{Held, new_damper-Held, evaluate-Held}
use zeus_gslb.Dns.Evaluator.{LocalHealth}
use zeus_gslb.Dns.Evaluator.Source.{Each, flatten-All}
use zeus_gslb.Dns.Handler.{
  Library, Question, Qtype, type_a, type_aaaa, other_type, Msg, lookup, set_nxdomain, answer_aaaa,
  answer_other,
}
use zeus_gslb.Dns.Handler.Records.{started}
use zeus_gslb.Dns.Handler.Addresses.{lookup-Found}
use zeus_gslb.Dns.Queries.{
  Shared, Query, idle, asked, reading, walking, deciding, recording, written, begin_query,
  begin_question, begin, advance, Queries, Turn, arrives, steps, swaps, update, receive, turn,
  take_turns,
}
use zeus_gslb.Dns.Queries.Fits.{
  IsTaken, IsListed, IsSourced, IsJob, Fits, look_at-Fits, begin_resolve-Fits, gathered-Fits,
  filled-Fits,
}
use zeus_gslb.Dns.Queries.Branches.{type_a_unknown, type_a_known}

taken_of : (b x : Bundle) → some b ≡ some x → b ≡ x
taken_of b x h = cc h

module _ (lib : Library) (bundles : List Bundle) where
  -- What holds of what the queries share: the store serves one of the bundles, and the damper holds
  -- answers that are listed.
  record IsSound (m : Shared) : Type 0 where
    current : (b : Bundle) → m.current ≡ some b → IsTaken lib bundles b
    held : Held (Each (IsListed lib bundles)) m.damper

  found-IsJob :
      (b : Bundle) (msg : Msg) (name : Text) (rec : Record)
      → IsTaken lib bundles b
      → msg.answer ≡ []
      → lookup lib b name ≡ some rec
      → IsJob lib bundles (record { msg = msg; name = name; rec = rec })
  found-IsJob b msg name rec t f h =
      let (among, same) = lookup-Found lib b name rec h in
      record {
        own = λ a l. record {
          bundle = b;
          taken = t;
          rec = rec;
          among = among;
          named = refl;
          listed = l;
        };
        named = same;
        fresh = f;
      }

  module _ (b : Bundle) (msg : Msg) (zone name : Text) (t : IsTaken lib bundles b)
      (f : msg.answer ≡ []) where
    other_answers :
        ((answer_aaaa lib msg b zone name).answer ≡ msg.answer)
        × ((answer_other lib msg b zone name).answer ≡ msg.answer)
    unfolding answer_aaaa answer_other set_nxdomain
    other_answers = (ground arith, ground arith)

    begin_query-Fits : (q : Qtype) → Fits lib bundles (begin_query lib msg b zone name q)
    begin_query-Fits type_a = elim (Option-cases (lookup lib b name)) [
      | inl n ↦ rw (type_a_unknown lib b msg zone name n) (unfold set_nxdomain in rw f tt)
      | inr (rec, h) ↦ rw (type_a_known lib b msg zone name rec h) (
          begin_resolve-Fits lib bundles (record { msg = msg; name = name; rec = rec })
            (found-IsJob b msg name rec t f h))
    ]
    begin_query-Fits type_aaaa = unfold begin_query in rw (other_answers.0, f) tt
    begin_query-Fits (other_type k) = unfold begin_query in rw (other_answers.1, f) tt

  begin-Fits :
      (c : Option Bundle) (qs : List Question)
      → ((b : Bundle) → c ≡ some b → IsTaken lib bundles b)
      → Fits lib bundles (begin lib c qs)
  unfolding begin begin_question
  begin-Fits c [] t = rw (lib.reply_answer []) tt
  begin-Fits c (q ∷ q' ∷ rest) t = rw (lib.reply_answer (q ∷ q' ∷ rest)) tt
  begin-Fits none (q ∷ []) t = rw (lib.reply_answer (q ∷ [])) tt
  begin-Fits (some b) (q ∷ []) t =
      elim (Bool-cases (lib.is_sub_domain (lib.fqdn b.domain) (lib.fqdn q.name))) [
        | inl y ↦ rw y (
            begin_query-Fits b (started lib (q ∷ [])) (lib.fqdn b.domain) (lib.fqdn q.name)
              (t b refl) (lib.reply_answer (q ∷ [])) q.qtype)
        | inr n ↦ rw (n, lib.reply_answer (q ∷ [])) tt
      ]

  -- A step of a goroutine keeps what is shared sound, and what the goroutine has listed.
  advance-Fits :
      (health : Option LocalHealth) (now : Time) (m : Shared) (q : Query)
      → IsSound m
      → Fits lib bundles q
      → IsSound (advance lib health now m q).0 × Fits lib bundles (advance lib health now m q).1
  unfolding advance
  advance-Fits health now m idle i f = (i, f)
  advance-Fits health now m (asked qs) i f = (i, begin-Fits m.current qs i.current)
  advance-Fits health now m (reading job cs) i (j, f) = (i, (j, f, tt))
  advance-Fits health now m (walking job prev [] w) i (j, f, g) =
      (i, gathered-Fits lib bundles job w j g)
  advance-Fits health now m (walking job prev (cand ∷ rest) w) i f =
      (i, look_at-Fits lib bundles health job prev cand rest w f)
  advance-Fits health now m (deciding job w) i (j, g) =
      let (given, held) =
        evaluate-Held (Each (IsListed lib bundles)) m.damper job.rec.fqdn (flatten w.groups)
          w.forced now i.held (flatten-All (IsListed lib bundles job.rec.fqdn) w.groups g) in
      (record { current = i.current; held = held }, (j, given))
  advance-Fits health now m (recording job w served) i (j, l) =
      (record { current = i.current; held = i.held }, filled-Fits lib bundles job served j l)
  advance-Fits health now m (written msg) i f = (i, f)

  record AreSound (s : Queries) : Type 0 where
    shared : IsSound s.shared
    each : (i : ℕ) → Fits lib bundles (s.queries i)

  update-Fits :
      (f : ℕ → Query) (i : ℕ) (q : Query)
      → ((j : ℕ) → Fits lib bundles (f j))
      → Fits lib bundles q
      → (j : ℕ) → Fits lib bundles (update f i q j)
  update-Fits f i q h fits j = elim (Bool-cases (j == i)) [
    | inl same ↦ rw same fits
    | inr other ↦ rw other (h j)
  ]

  receive-Fits :
      (qs : List Question) (q : Query) → Fits lib bundles q → Fits lib bundles (receive qs q)
  receive-Fits qs idle f = tt
  receive-Fits qs (asked x) f = f
  receive-Fits qs (reading job cs) f = f
  receive-Fits qs (walking job prev rest w) f = f
  receive-Fits qs (deciding job w) f = f
  receive-Fits qs (recording job w served) f = f
  receive-Fits qs (written msg) f = tt

  -- The store takes only the bundles.
  abbrev pub Takes : Turn → Type 0
  Takes (swaps b) = IsTaken lib bundles b
  Takes _ = Unit

  turn-AreSound : (t : Turn) (s : Queries) → Takes t → AreSound s → AreSound (turn lib t s)
  unfolding turn
  turn-AreSound (arrives i qs) s t a = record {
    shared = a.shared;
    each =
        update-Fits s.queries i (receive qs (s.queries i)) a.each
          (receive-Fits qs (s.queries i) (a.each i));
  }
  turn-AreSound (steps i health now) s t a =
      let (sound, fits) = advance-Fits health now s.shared (s.queries i) a.shared (a.each i) in
      record {
        shared = sound;
        each =
            update-Fits s.queries i (advance lib health now s.shared (s.queries i)).1 a.each fits;
      }
  turn-AreSound (swaps b) s t a = record {
    shared = record {
      current = λ x h.
          subst (IsTaken lib bundles)
            (ap (λ (o : Option Bundle). elim o [ none ↦ b | some y ↦ y ]) h) t;
      held = a.shared.held;
    };
    each = a.each;
  }

  take_turns-AreSound :
      (ts : List Turn) (s : Queries) → All Takes ts → AreSound s → AreSound (take_turns lib ts s)
  unfolding take_turns
  take_turns-AreSound [] s h a = a
  take_turns-AreSound (t ∷ ts) s h a =
      take_turns-AreSound ts (turn lib t s) h.1 (turn-AreSound t s h.0 a)

  -- `New` over a store, with no request yet.
  abbrev pub no_queries : Bundle → Queries
  no_queries b = record {
    shared = record { current = some b; damper = new_damper; active_keys = [] };
    queries = λ i. idle;
  }

  no_queries-AreSound : (b : Bundle) → IsTaken lib bundles b → AreSound (no_queries b)
  no_queries-AreSound b t = record {
    shared = record {
      current = λ x h. subst (IsTaken lib bundles) (taken_of b x h) t;
      held = new_damper-Held (Each (IsListed lib bundles));
    };
    each = λ i. tt;
  }

  -- Whatever queries arrive and however their steps interleave, with each other, with the bundles
  -- that the store takes and with what the checks and the clock show at each step: every address of
  -- a response is that of an answer that one of the store's bundles lists, under the name of the
  -- response up to the case of letters.
  pub written-IsSourced :
      (b : Bundle) (ts : List Turn) (i : ℕ) (msg : Msg)
      → IsTaken lib bundles b
      → All Takes ts
      → (take_turns lib ts (no_queries b)).queries i ≡ written msg
      → All (IsSourced lib bundles) msg.answer
  written-IsSourced b ts i msg t h e =
      subst (Fits lib bundles) e
        ((take_turns-AreSound ts (no_queries b) h (no_queries-AreSound b t)).each i)
