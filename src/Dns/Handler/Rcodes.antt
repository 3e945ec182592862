-- ===== src/Dns/Handler/Rcodes.antt =====
-- The response codes of `ServeDNS`.
use zeus_gslb.Prelude.{
  Time, ℕ, Text, ◌≡◌, ◌≢◌, ◌↔◌, refl, sym, ap, ◌∙◌, Bool, true, false, Option, none, some, List, [],
  ◌∷◌, length, ◌==◌, arith, Bool-cases, Option-cases, inl, inr, if◌then◌else◌,
}
use zeus_gslb.Bundle.{Answer, Bundle, Record}
use zeus_gslb.Dns.Evaluator.{Evaluator, resolve}
use zeus_gslb.Dns.Handler.{
  Library, Question, Qtype, type_a, type_aaaa, other_type, success, server_failure, name_error,
  refused, ARecord, Msg, lookup, placeholder_soa, set_nxdomain, fill_answer, answer_aaaa,
  answer_other, answer_query, answer_question, serve_dns,
}
use zeus_gslb.Dns.Handler.Records.{
  started, address_records, answer_a_unknown, answer_a_known, fill_answer_lem, serve_dns_in_zone,
}

module _ (lib : Library) where
  -- The message is a reply that has no answer, no authority and no error yet.
  record Fresh (m : Msg) : Type 0 where
    rcode : m.rcode ≡ success
    answer : m.answer ≡ []
    ns : m.ns ≡ []

  started-Fresh : (qs : List Question) → Fresh (started lib qs)
  started-Fresh qs = record {
    rcode = lib.reply_rcode qs;
    answer = lib.reply_answer qs;
    ns = lib.reply_ns qs;
  }

  -- The name does not exist: NXDOMAIN without an answer, under the SOA of the zone.
  pub record DeniesName (zone : Text) (m : Msg) : Type 0 where
    pub rcode : m.rcode ≡ name_error
    pub answer : m.answer ≡ []
    pub ns : m.ns ≡ placeholder_soa zone ∷ []

  -- The name exists and has no data: NOERROR without an answer or an authority.
  pub record HasNoData (m : Msg) : Type 0 where
    pub rcode : m.rcode ≡ success
    pub answer : m.answer ≡ []
    pub ns : m.ns ≡ []

  set_nxdomain-DeniesName :
      (m : Msg) (zone : Text) → Fresh m → DeniesName zone (set_nxdomain lib m zone)
  unfolding set_nxdomain
  set_nxdomain-DeniesName m zone f = record { rcode = refl; answer = f.answer; ns = rw f.ns }

  -- What a message says about the answers that `Resolve` gave.
  abbrev pub Reports : Text → Record → Option (List Answer) → Msg → Type 0
  Reports name rec none m = (m.rcode ≡ server_failure) × (m.answer ≡ [])
  Reports name rec (some answers) m =
      (m.answer ≡ address_records lib name rec.ttl answers)
      × (m.rcode ≡ (if length m.answer == 0 then server_failure else success))

  fill_answer-Reports :
      (m : Msg) (name : Text) (rec : Record) (o : Option (List Answer))
      → Fresh m
      → Reports name rec o (fill_answer lib m name rec o)
  fill_answer-Reports m name rec none f = unfold fill_answer in (refl, f.answer)
  fill_answer-Reports m name rec (some l) f =
      rw (fill_answer_lem lib m name rec l f.answer)
        (elim (Bool-cases (length (address_records lib name rec.ttl l) == 0)) [
          | inl z ↦ rw z (refl, rw z)
          | inr z ↦ rw z (refl, rw z f.rcode)
        ])

  module _ (e : Evaluator) (m : Msg) (b : Bundle) (zone name : Text) (now : Time)
      (f : Fresh m) where
    query_unknown :
        (t : Qtype)
        → lookup lib b name ≡ none
        → DeniesName zone (answer_query lib e m b zone name t now).1
          × ((answer_query lib e m b zone name t now).0 ≡ e)
    unfolding answer_query answer_aaaa answer_other
    query_unknown type_a n =
        rw (answer_a_unknown lib e m b zone name now n) (set_nxdomain-DeniesName m zone f, refl)
    query_unknown type_aaaa n = (rw (n, answer_aaaa) (set_nxdomain-DeniesName m zone f), refl)
    query_unknown (other_type t) n = (rw (n, answer_other) (set_nxdomain-DeniesName m zone f), refl)

    query_address :
        (t : Qtype) (rec : Record)
        → t ≡ type_a
        → lookup lib b name ≡ some rec
        → Reports name rec (resolve e rec now).1 (answer_query lib e m b zone name t now).1
          × ((answer_query lib e m b zone name t now).0 ≡ (resolve e rec now).0)
    unfolding answer_query
    query_address type_a rec _ y =
        rw (answer_a_known lib e m b zone name now rec y)
          (fill_answer-Reports m name rec (resolve e rec now).1 f, refl)
    query_address type_aaaa rec eq y = cc
    query_address (other_type t) rec eq y = cc

    query_known :
        (t : Qtype) (rec : Record)
        → lookup lib b name ≡ some rec
        → t ≢ type_a
        → HasNoData (answer_query lib e m b zone name t now).1
          × ((answer_query lib e m b zone name t now).0 ≡ e)
    unfolding answer_query answer_aaaa answer_other
    query_known type_a rec y ne = absurd (ne refl)
    query_known type_aaaa rec y ne =
        (rw (y, answer_aaaa) (record { rcode = f.rcode; answer = f.answer; ns = f.ns }), refl)
    query_known (other_type t) rec y ne =
        (rw (y, answer_other) (record { rcode = f.rcode; answer = f.answer; ns = f.ns }), refl)

  module _ (e : Evaluator) (b : Bundle) (q : Question) (now : Time)
      (inside : lib.is_sub_domain (lib.fqdn b.domain) (lib.fqdn q.name) ≡ true) where
    -- A question of any type about a name of the zone that no record bears is answered with
    -- NXDOMAIN under the SOA, and leaves the evaluator as it was.
    pub unknown_name :
        lookup lib b (lib.fqdn q.name) ≡ none
        → DeniesName (lib.fqdn b.domain) (serve_dns lib e (some b) (q ∷ []) now).1
          × ((serve_dns lib e (some b) (q ∷ []) now).0 ≡ e)
    unknown_name n = rw (serve_dns_in_zone lib e b q now inside) (
        query_unknown e (started lib (q ∷ [])) b (lib.fqdn b.domain) (lib.fqdn q.name) now
          (started-Fresh (q ∷ [])) q.qtype n)

    -- A question that is not of type A about a name that a record bears is answered with NOERROR
    -- and no record, whatever the state of the record is, and leaves the evaluator as it was.
    pub known_name :
        (rec : Record)
        → lookup lib b (lib.fqdn q.name) ≡ some rec
        → q.qtype ≢ type_a
        → HasNoData (serve_dns lib e (some b) (q ∷ []) now).1
          × ((serve_dns lib e (some b) (q ∷ []) now).0 ≡ e)
    known_name rec y ne = rw (serve_dns_in_zone lib e b q now inside) (
        query_known e (started lib (q ∷ [])) b (lib.fqdn b.domain) (lib.fqdn q.name) now
          (started-Fresh (q ∷ [])) q.qtype rec y ne)

    -- A question of type A about a name that a record bears: what `Resolve` refuses is SERVFAIL;
    -- else the answers are the address records of what it serves, in order, with the TTL of the
    -- record, and the code is SERVFAIL if there is none and NOERROR otherwise.
    pub known_address :
        (rec : Record)
        → lookup lib b (lib.fqdn q.name) ≡ some rec
        → q.qtype ≡ type_a
        → Reports
            (lib.fqdn q.name)
            rec
            (resolve e rec now).1
            (serve_dns lib e (some b) (q ∷ []) now).1
          × ((serve_dns lib e (some b) (q ∷ []) now).0 ≡ (resolve e rec now).0)
    known_address rec y t = rw (serve_dns_in_zone lib e b q now inside) (
        query_address e (started lib (q ∷ [])) b (lib.fqdn b.domain) (lib.fqdn q.name) now
          (started-Fresh (q ∷ [])) q.qtype rec t y)

  -- Whether the request is one question about a name of the zone.
  abbrev pub in_zone : Bundle → List Question → Bool
  in_zone b [] = false
  in_zone b (q ∷ []) = lib.is_sub_domain (lib.fqdn b.domain) (lib.fqdn q.name)
  in_zone b (q ∷ q' ∷ rest) = false

  code-ne-refused : (n : ℕ) → (if n == 0 then server_failure else success) ≢ refused
  code-ne-refused n = λ h. ground arith

  Reports-ne-refused :
      (name : Text) (rec : Record) (o : Option (List Answer)) (m : Msg)
      → Reports name rec o m
      → m.rcode ≢ refused
  Reports-ne-refused name rec none m r = λ h. cc (r.0, h)
  Reports-ne-refused name rec (some l) m r = λ h. code-ne-refused (length m.answer) (sym r.1 ∙ h)

  module _ (e : Evaluator) (m : Msg) (b : Bundle) (zone name : Text) (now : Time)
      (f : Fresh m) where
    known-ne-refused :
        (t : Qtype) (rec : Record)
        → lookup lib b name ≡ some rec
        → (answer_query lib e m b zone name t now).1.rcode ≢ refused
    known-ne-refused type_a rec y =
        Reports-ne-refused name rec (resolve e rec now).1
          (answer_query lib e m b zone name type_a now).1
          (query_address e m b zone name now f type_a rec refl y).0
    known-ne-refused type_aaaa rec y =
        λ h. cc ((query_known e m b zone name now f type_aaaa rec y (λ x. cc)).0.rcode, h)
    known-ne-refused (other_type k) rec y =
        λ h. cc ((query_known e m b zone name now f (other_type k) rec y (λ x. cc)).0.rcode, h)

    query-ne-refused : (t : Qtype) → (answer_query lib e m b zone name t now).1.rcode ≢ refused
    query-ne-refused t = elim (Option-cases (lookup lib b name)) [
      | inl n ↦ λ h. cc ((query_unknown e m b zone name now f t n).0.rcode, h)
      | inr (rec, y) ↦ known-ne-refused t rec y
    ]

  -- A request is refused exactly when it is not one question about a name of the zone.
  refused_iff :
      (e : Evaluator) (b : Bundle) (qs : List Question) (now : Time)
      → ((serve_dns lib e (some b) qs now).1.rcode ≡ refused) ↔ (in_zone b qs ≡ false)
  refused_iff e b [] now = unfold serve_dns in (λ h. refl, λ h. refl)
  refused_iff e b (q ∷ q' ∷ rest) now = unfold serve_dns in (λ h. refl, λ h. refl)
  refused_iff e b (q ∷ []) now = elim (Bool-cases (in_zone b (q ∷ []))) [
    | inl y ↦ (
      λ h. absurd (
          query-ne-refused e (started lib (q ∷ [])) b (lib.fqdn b.domain) (lib.fqdn q.name) now
            (started-Fresh (q ∷ [])) q.qtype
            (ap (λ (r : Evaluator × Msg). r.1.rcode) (sym (serve_dns_in_zone lib e b q now y))
              ∙ h)),
      λ n. cc,
    )
    | inr n ↦ (λ h. n, λ _. unfold serve_dns answer_question in rw n)
  ]

  known_code :
      (name : Text) (rec : Record) (o : Option (List Answer)) (m : Msg)
      → Reports name rec o m
      → m.rcode ≡ success
      → m.answer ≢ []
  known_code name rec none m r s = cc
  known_code name rec (some l) m r s = λ z.
      cc (r.1, s, ap (λ (rs : List ARecord). if length rs == 0 then server_failure else success) z)

  -- A question of type A is never answered with NOERROR and no address, whatever the bundle, the
  -- evaluator and the addresses are.
  pub noerror_has_address :
      (e : Evaluator) (current : Option Bundle) (q : Question) (now : Time)
      → q.qtype ≡ type_a
      → (serve_dns lib e current (q ∷ []) now).1.rcode ≡ success
      → (serve_dns lib e current (q ∷ []) now).1.answer ≢ []
  noerror_has_address e none q now t s = absurd (unfold serve_dns answer_question in cc s)
  noerror_has_address e (some b) q now t s = elim (Bool-cases (in_zone b (q ∷ []))) [
    | inr n ↦ absurd (cc ((refused_iff e b (q ∷ []) now).1 n, s))
    | inl y ↦ elim (Option-cases (lookup lib b (lib.fqdn q.name))) [
      | inl u ↦ absurd (cc ((unknown_name e b q now y u).0.rcode, s))
      | inr (rec, k) ↦
          known_code (lib.fqdn q.name) rec (resolve e rec now).1
            (serve_dns lib e (some b) (q ∷ []) now).1 (known_address e b q now y rec k t).0 s
    ]
  ]
