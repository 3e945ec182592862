-- ===== src/Dns/Queries/Race.antt =====
-- No lock keeps two queries apart at the damper.
use zeus_gslb.Prelude.{
  Time, ℕ, zero, suc, length, ◌==◌, ◌≡◌, ◌≢◌, refl, sym, ap, ◌∙◌, arith, true, Option, some, List,
  [], ◌∷◌, ◌++◌, Bool-cases, inl, inr,
}
use zeus_gslb.Bundle.{Bundle, Candidate, Record}
use zeus_gslb.Dns.Evaluator.{LocalHealth, Walked, nothing_walked, mark, active, walk_record}
use zeus_gslb.Dns.Evaluator.Serving.{servable_now, groups-ne-nil}
use zeus_gslb.Dns.Handler.{Library, Question, type_a, lookup}
use zeus_gslb.Dns.Handler.Records.{started}
use zeus_gslb.Dns.Handler.Rcodes.{in_zone}
use zeus_gslb.Dns.Queries.{
  Shared, Job, Query, asked, reading, walking, deciding, evaluator_of, begin, begin_question,
  begin_query, gathered, advance, Queries, Turn, steps, update, turn, take_turns,
}
use zeus_gslb.Dns.Queries.Branches.{type_a_known, begin_reading}
use zeus_gslb.Dns.Queries.Alone.{go, Leads, chain, one, walking-Leads}
use zeus_gslb.Dns.Queries.Stale.{turn-steps, update_self, update_other}
use mathlib.Core.Path.{subst}

module _ (lib : Library) (health : Option LocalHealth) (now : Time) where
  abbrev again : ℕ → ℕ → List Turn
  again i zero = []
  again i (suc n) = steps i health now ∷ again i n

  -- What a goroutine does when it alone takes steps, and what that leaves of the others.
  record Alone (s t : Queries) (i : ℕ) (y : Shared × Query) : Type 0 where
    shared : t.shared ≡ y.0
    own : t.queries i ≡ y.1
    others : (j : ℕ) → i ≢ j → t.queries j ≡ s.queries j

  again-Alone :
      (n i : ℕ) (s : Queries) (q : Query)
      → s.queries i ≡ q
      → Alone s (take_turns lib (again i n) s) i (go lib health now n (s.shared, q))
  unfolding take_turns go
  again-Alone zero i s q h = record { shared = refl; own = h; others = λ j n. refl }
  again-Alone (suc n) i s q h =
      let (m, p) = advance lib health now s.shared q in
      let s' : Queries = record { shared = m; queries = update s.queries i p } in
      let rest = again-Alone n i s' p (update_self s.queries i p) in
      subst
        (λ (z : Queries).
          Alone s (take_turns lib (again i n) z) i
            (go lib health now n (advance lib health now s.shared q)))
        (sym (turn-steps lib health now s i q h))
        (record {
          shared = rest.shared;
          own = rest.own;
          others = λ j ne. rest.others j ne ∙ update_other s.queries i j p ne;
        })

  take_turns-append :
      (ts us : List Turn) (s : Queries)
      → take_turns lib (ts ++ us) s ≡ take_turns lib us (take_turns lib ts s)
  unfolding take_turns
  take_turns-append [] us s = refl
  take_turns-append (t ∷ ts) us s = take_turns-append ts us (turn lib t s)

  gathered_some : (job : Job) (w : Walked) → w.groups ≢ [] → gathered lib job w ≡ deciding job w
  unfolding gathered
  gathered_some job w n = elim (Bool-cases (length w.groups == 0)) [
    | inl z ↦ absurd (n (ground arith))
    | inr z ↦ rw z refl
  ]

  abbrev job_of : Question → Record → Job
  job_of q rec = record { msg = started lib (q ∷ []); name = lib.fqdn q.name; rec = rec }

  abbrev walked_of : Shared → Record → List Candidate → Walked
  walked_of m rec cs = walk_record (evaluator_of health m) rec cs

  module _ (m : Shared) (b : Bundle) (q : Question) (rec : Record) (cs : List Candidate)
      (current : m.current ≡ some b) (inside : in_zone lib b (q ∷ []) ≡ true)
      (found : lookup lib b (lib.fqdn q.name) ≡ some rec) (type : q.qtype ≡ type_a)
      (candidates : rec.candidates ≡ some cs)
      (servable : servable_now (evaluator_of health m) rec cs ≢ []) where
    begins : begin lib m.current (q ∷ []) ≡ reading (job_of q rec) cs
    unfolding begin begin_question
    begins =
        let msg = started lib (q ∷ []) in
        let zone = lib.fqdn b.domain in
        let name = lib.fqdn q.name in
        rw (current, inside)
          (ap (begin_query lib msg b zone name) type
            ∙ type_a_known lib b msg zone name rec found
            ∙ begin_reading lib (job_of q rec) cs candidates)

    asked-Leads :
        Leads lib health now (m, asked (q ∷ [])) (m, deciding (job_of q rec) (walked_of m rec cs))
    asked-Leads =
        let prev = mark (active (evaluator_of health m) rec.fqdn) [] in
        chain lib health now (m, asked (q ∷ [])) (m, reading (job_of q rec) cs)
          (m, deciding (job_of q rec) (walked_of m rec cs))
          (one lib health now m (asked (q ∷ [])) (m, reading (job_of q rec) cs)
            (unfold advance in ap (λ p. (m, p)) begins))
          (chain lib health now (m, reading (job_of q rec) cs)
            (m, walking (job_of q rec) prev cs nothing_walked)
            (m, deciding (job_of q rec) (walked_of m rec cs))
            (one lib health now m (reading (job_of q rec) cs)
              (m, walking (job_of q rec) prev cs nothing_walked) (unfold advance in refl))
            (subst
              (λ x. Leads lib health now (m, walking (job_of q rec) prev cs nothing_walked) (m, x))
              (gathered_some (job_of q rec) (walked_of m rec cs)
                (groups-ne-nil (evaluator_of health m) rec cs servable))
              (unfold walk_record in
                walking-Leads lib health now m (job_of q rec) prev cs nothing_walked)))

  -- Two goroutines with the same question about a record that has a candidate to serve, at the start
  -- of `ServeDNS`: some steps of the two bring both of them to the call of `Evaluate` at once, for
  -- the same name. No lock keeps the second one away while the first one is there.
  pub both-deciding :
      (s : Queries) (i j : ℕ) (b : Bundle) (q : Question) (rec : Record) (cs : List Candidate)
      → i ≢ j
      → s.queries i ≡ asked (q ∷ [])
      → s.queries j ≡ asked (q ∷ [])
      → s.shared.current ≡ some b
      → in_zone lib b (q ∷ []) ≡ true
      → lookup lib b (lib.fqdn q.name) ≡ some rec
      → q.qtype ≡ type_a
      → rec.candidates ≡ some cs
      → servable_now (evaluator_of health s.shared) rec cs ≢ []
      → (ts : List Turn) × (job : Job) × (w : Walked) × ((take_turns lib ts s).queries i
          ≡ deciding job w)
        × ((take_turns lib ts s).queries j ≡ deciding job w)
        × (job.rec ≡ rec)
  both-deciding s i j b q rec cs n hi hj current inside found type candidates servable =
      let m = s.shared in
      let (k, h) = asked-Leads m b q rec cs current inside found type candidates servable in
      let s' = take_turns lib (again i k) s in
      let first = again-Alone k i s (asked (q ∷ [])) hi in
      let second = again-Alone k j s' (asked (q ∷ [])) (first.others j n ∙ hj) in
      let m_kept : s'.shared ≡ m = first.shared ∙ ap (λ (x : Shared × Query). x.0) h in
      let t = take_turns lib (again j k) s' in
      let whole : take_turns lib (again i k ++ again j k) s ≡ t =
        take_turns-append (again i k) (again j k) s in
      (
        again i k ++ again j k,
        job_of q rec,
        walked_of m rec cs,
        ap (λ (x : Queries). x.queries i) whole
            ∙ second.others i (λ e. n (sym e))
            ∙ first.own
            ∙ ap (λ (x : Shared × Query). x.1) h,
        ap (λ (x : Queries). x.queries j) whole
            ∙ second.own
            ∙ ap (λ (x : Shared). (go lib health now k (x, asked (q ∷ []))).1) m_kept
            ∙ ap (λ (x : Shared × Query). x.1) h,
        refl,
      )
