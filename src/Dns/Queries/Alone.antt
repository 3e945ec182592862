-- ===== src/Dns/Queries/Alone.antt =====
-- A query whose steps nothing comes between does what `ServeDNS` does as one operation.
use native.Mathlib.Nat.{zero-add, suc-add}
use zeus_gslb.Prelude.{
  Time, ℕ, zero, suc, Text, text_eq, ◌+◌, ◌==◌, ◌≡◌, refl, ap, ◌∙◌, Bool, true, false, Option, none,
  some, List, [], ◌∷◌, length, Bool-cases, Option-cases, inl, inr,
}
use zeus_gslb.Prelude.Dict.{Dict}
use zeus_gslb.Bundle.{Bundle, Candidate, mode_all}
use zeus_gslb.Dns.Evaluator.{
  LocalHealth, Evaluator, Walked, nothing_walked, viable, mark, local_targets, active, walk,
  walk_record, settle, resolve,
}
use zeus_gslb.Dns.Evaluator.Serving.{resolve-eq-settle}
use zeus_gslb.Dns.Evaluator.Source.{resolve_legacy}
use zeus_gslb.Dns.Handler.{
  Library, Question, Qtype, type_a, type_aaaa, other_type, Msg, serve_dns, answer_question,
  answer_query, answer_a, lookup, fill_answer,
}
use zeus_gslb.Dns.Queries.Branches.{
  skipped, taken, walk_unviable, walk_unaddressed, walk_more, walk_last, begin_legacy,
  begin_reading,
}
use zeus_gslb.Dns.Queries.{
  Shared, Job, Query, asked, reading, walking, written, evaluator_of, begin_resolve, begin_query,
  begin_question, begin, gathered, look_at, advance,
}

module _ (lib : Library) (health : Option LocalHealth) (now : Time) where
  -- That many steps of one goroutine, with nothing in between.
  unfoldable pub go : ℕ → Shared × Query → Shared × Query
  go zero x = x
  go (suc n) x = go n (advance lib health now x.0 x.1)

  abbrev pub Leads : Shared × Query → Shared × Query → Type 0
  Leads x y = (n : ℕ) × (go n x ≡ y)

  go-add : (n k : ℕ) (x : Shared × Query) → go (n + k) x ≡ go k (go n x)
  unfolding go
  go-add zero k x = ap (λ n. go n x) (zero-add k)
  go-add (suc n) k x = ap (λ j. go j x) (suc-add n k) ∙ go-add n k (advance lib health now x.0 x.1)

  written_stays : (k : ℕ) (m : Shared) (msg : Msg) → go k (m, written msg) ≡ (m, written msg)
  unfolding go advance
  written_stays zero m msg = refl
  written_stays (suc k) m msg = written_stays k m msg

  pub chain : (x y z : Shared × Query) → Leads x y → Leads y z → Leads x z
  chain x y z (n, g) (k, h) = (n + k, go-add n k x ∙ ap (go k) g ∙ h)

  pub one :
      (m : Shared) (q : Query) (y : Shared × Query)
      → advance lib health now m q ≡ y
      → Leads (m, q) y
  unfolding go
  one m q y h = (1, h)

  on :
      (m : Shared) (job : Job) (prev : Dict Bool) (cand : Candidate) (rest : List Candidate)
      (w : Walked) (q : Query) {y : Shared × Query}
      → look_at lib health job prev cand rest w ≡ q
      → Leads (m, q) y
      → Leads (m, walking job prev (cand ∷ rest) w) y
  unfolding advance
  on m job prev cand rest w q {y} h l =
      chain (m, walking job prev (cand ∷ rest) w) (m, q) y
        (one m (walking job prev (cand ∷ rest) w) (m, q) (ap (λ r. (m, r)) h)) l

  -- The rounds of the loop come to what the loop gathers.
  pub walking-Leads :
      (m : Shared) (job : Job) (prev : Dict Bool) (rest : List Candidate) (w : Walked)
      → Leads
          (m, walking job prev rest w)
          (
            m,
            gathered lib job (
                walk health
                  (local_targets job.rec.local_checks)
                  prev
                  (text_eq job.rec.mode mode_all)
                  rest
                  w),
          )
  unfolding advance
  walking-Leads m job prev [] w =
      unfold walk in one m (walking job prev [] w) (m, gathered lib job w) refl
  walking-Leads m job prev (cand ∷ rest) w =
      let locals = local_targets job.rec.local_checks in
      let all = text_eq job.rec.mode mode_all in
      let skip = skipped health locals prev all cand rest w in
      let take = taken health locals prev all cand rest w in
      elim (Bool-cases (viable health cand locals).0) [
        | inr n ↦ rw (walk_unviable health locals prev all cand rest w n) (
            on m job prev cand rest w (walking job prev rest skip) (unfold look_at in rw n)
              (walking-Leads m job prev rest skip))
        | inl y ↦ elim (Bool-cases (length cand.answers == 0)) [
          | inl z ↦ rw (walk_unaddressed health locals prev all cand rest w z) (
              on m job prev cand rest w (walking job prev rest skip) (unfold look_at in rw (y, z))
                (walking-Leads m job prev rest skip))
          | inr z ↦ elim (Bool-cases all) [
            | inl a ↦ rw (walk_more health locals prev all cand rest w y z a) (
                on m job prev cand rest w (walking job prev rest take)
                  (unfold look_at in rw (y, z, a)) (walking-Leads m job prev rest take))
            | inr a ↦ rw (walk_last health locals prev all cand rest w y z a) (
                on m job prev cand rest w (gathered lib job take) (unfold look_at in rw (y, z, a))
                  (0, unfold go in refl))
          ]
        ]
      ]

  -- What is shared once the evaluator has changed.
  abbrev with_evaluator : Shared → Evaluator → Shared
  with_evaluator m e = record {
    current = m.current;
    damper = e.damper;
    active_keys = e.active_keys;
  }

  gathered-Leads :
      (m : Shared) (job : Job) (w : Walked)
      → let out = settle (evaluator_of health m) job.rec.fqdn w now in
        Leads
          (m, gathered lib job w)
          (with_evaluator m out.0, written (fill_answer lib job.msg job.name job.rec out.1))
  unfolding gathered settle go advance
  gathered-Leads m job w = elim (Bool-cases (length w.groups == 0)) [
    | inl z ↦ rw z (0, refl)
    | inr z ↦ rw z (2, refl)
  ]

  reading-Leads :
      (m : Shared) (job : Job) (cs : List Candidate)
      → job.rec.candidates ≡ some cs
      → let out = resolve (evaluator_of health m) job.rec now in
        Leads
          (m, reading job cs)
          (with_evaluator m out.0, written (fill_answer lib job.msg job.name job.rec out.1))
  unfolding advance walk_record
  reading-Leads m job cs h =
      let e = evaluator_of health m in
      let prev = mark (active e job.rec.fqdn) [] in
      let w = walk_record e job.rec cs in
      let out = settle e job.rec.fqdn w now in
      rw (resolve-eq-settle e job.rec now cs h) (
        chain (m, reading job cs) (m, walking job prev cs nothing_walked)
          (with_evaluator m out.0, written (fill_answer lib job.msg job.name job.rec out.1))
          (one m (reading job cs) (m, walking job prev cs nothing_walked) refl)
          (chain (m, walking job prev cs nothing_walked) (m, gathered lib job w)
            (with_evaluator m out.0, written (fill_answer lib job.msg job.name job.rec out.1))
            (walking-Leads m job prev cs nothing_walked) (gathered-Leads m job w)))

  begin_resolve-Leads :
      (m : Shared) (job : Job)
      → let out = resolve (evaluator_of health m) job.rec now in
        Leads
          (m, begin_resolve lib job)
          (with_evaluator m out.0, written (fill_answer lib job.msg job.name job.rec out.1))
  begin_resolve-Leads m job = elim (Option-cases job.rec.candidates) [
    | inl n ↦
        rw (resolve_legacy (evaluator_of health m) job.rec now n, begin_legacy lib job n)
          (0, unfold go in refl)
    | inr (cs, h) ↦ rw (begin_reading lib job cs h) (reading-Leads m job cs h)
  ]

  begin_query-Leads :
      (m : Shared) (msg : Msg) (b : Bundle) (zone name : Text) (t : Qtype)
      → let out = answer_query lib (evaluator_of health m) msg b zone name t now in
        Leads (m, begin_query lib msg b zone name t) (with_evaluator m out.0, written out.1)
  unfolding answer_query begin_query go answer_a
  begin_query-Leads m msg b zone name type_a = elim (Option-cases (lookup lib b name)) [
    | inl n ↦ rw (n, begin_query, answer_a) (0, refl)
    | inr (rec, h) ↦
        rw (h, begin_query, answer_a)
          (begin_resolve-Leads m (record { msg = msg; name = name; rec = rec }))
  ]
  begin_query-Leads m msg b zone name type_aaaa = (0, refl)
  begin_query-Leads m msg b zone name (other_type t) = (0, refl)

  begin_question-Leads :
      (m : Shared) (msg : Msg) (c : Option Bundle) (q : Question)
      → let out = answer_question lib (evaluator_of health m) msg c q now in
        Leads (m, begin_question lib msg c q) (with_evaluator m out.0, written out.1)
  unfolding begin_question answer_question
  begin_question-Leads m msg none q = (0, unfold go in refl)
  begin_question-Leads m msg (some b) q =
      elim (Bool-cases (lib.is_sub_domain (lib.fqdn b.domain) (lib.fqdn q.name))) [
        | inl y ↦ rw y (begin_query-Leads m msg b (lib.fqdn b.domain) (lib.fqdn q.name) q.qtype)
        | inr n ↦ rw n (0, unfold go in refl)
      ]

  begin-Leads :
      (m : Shared) (qs : List Question)
      → let out = serve_dns lib (evaluator_of health m) m.current qs now in
        Leads (m, begin lib m.current qs) (with_evaluator m out.0, written out.1)
  unfolding begin serve_dns
  begin-Leads m [] = (0, unfold go in refl)
  begin-Leads m (q ∷ []) =
      begin_question-Leads m
        (record (lib.set_reply (q ∷ [])) { authoritative = true; recursion_available = false })
        m.current q
  begin-Leads m (q ∷ q' ∷ rest) = (0, unfold go in refl)

  -- A goroutine that nothing comes between, while the checks say the same: after finitely many steps
  -- its response is written, and from then on the response, the damper and the active keys are those
  -- that `ServeDNS` gives as one operation.
  alone-eq-serve_dns :
      (m : Shared) (qs : List Question)
      → let out = serve_dns lib (evaluator_of health m) m.current qs now in
        (n : ℕ) × ((k : ℕ) → go (n + k) (m, asked qs) ≡ (with_evaluator m out.0, written out.1))
  unfolding advance
  alone-eq-serve_dns m qs =
      let out = serve_dns lib (evaluator_of health m) m.current qs now in
      let (n, h) =
        chain (m, asked qs) (m, begin lib m.current qs) (with_evaluator m out.0, written out.1)
          (one m (asked qs) (m, begin lib m.current qs) refl) (begin-Leads m qs) in
      (
        n,
        λ k.
            go-add n k (m, asked qs) ∙ ap (go k) h ∙ written_stays k (with_evaluator m out.0) out.1,
      )
