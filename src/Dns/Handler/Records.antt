-- ===== src/Dns/Handler/Records.antt =====
-- The steps of `ServeDNS` by case, and the address records that it appends.
use mathlib.Core.List.{append-nil, append_assoc}
use zeus_gslb.Prelude.{
  Time, ℕ, Text, ◌≡◌, ◌∙◌, true, false, Option, none, some, List, [], ◌∷◌, ◌++◌, length, ◌==◌,
  arith, Option-cases, inl, inr, if◌then◌else◌,
}
use zeus_gslb.Prelude.Int.{ℤ, to_uint32}
use zeus_gslb.Bundle.{Answer, Bundle, Record}
use zeus_gslb.Dns.Evaluator.{Evaluator, resolve}
use zeus_gslb.Dns.Handler.{
  Library, Question, server_failure, ARecord, Msg, lookup, set_nxdomain, add_answers, fill_answer,
  answer_a, answer_query, answer_question, serve_dns,
}

module _ (lib : Library) where
  -- The reply that every answer starts from.
  abbrev pub started : List Question → Msg
  started qs = record (lib.set_reply qs) { authoritative = true; recursion_available = false }

  abbrev pub address_record : Text → ℤ → Option (List ℕ) → List ARecord
  address_record name ttl none = []
  address_record name ttl (some ip) = record { name = name; ttl = to_uint32 ttl; ip = ip } ∷ []

  -- The address records of the answers whose address is an IPv4 address.
  abbrev pub address_records : Text → ℤ → List Answer → List ARecord
  address_records name ttl [] = []
  address_records name ttl (ans ∷ rest) =
      address_record name ttl (lib.parse_ip4 ans.ip) ++ address_records name ttl rest

  add_answers-eq :
      (name : Text) (ttl : ℤ) (answers : List Answer) (out : List ARecord)
      → add_answers lib name ttl answers out ≡ out ++ address_records name ttl answers
  unfolding add_answers
  add_answers-eq name ttl [] out = rw append-nil
  add_answers-eq name ttl (ans ∷ rest) out = elim (Option-cases (lib.parse_ip4 ans.ip)) [
    | inl n ↦ rw n (add_answers-eq name ttl rest out)
    | inr (ip, y) ↦
        let r : ARecord = record { name = name; ttl = to_uint32 ttl; ip = ip } in
        rw y (
          add_answers-eq name ttl rest (out ++ r ∷ [])
          ∙ append_assoc out (r ∷ []) (address_records name ttl rest))
  ]

  module _ (e : Evaluator) (m : Msg) (b : Bundle) (zone name : Text) (now : Time) where
    pub answer_a_unknown :
        lookup lib b name ≡ none → answer_a lib e m b zone name now ≡ (e, set_nxdomain lib m zone)
    unfolding answer_a
    answer_a_unknown n = ground arith

    pub answer_a_known :
        (rec : Record)
        → lookup lib b name ≡ some rec
        → answer_a lib e m b zone name now
          ≡ ((resolve e rec now).0, fill_answer lib m name rec (resolve e rec now).1)
    unfolding answer_a
    answer_a_known rec y = ground arith

  -- What the message says once `Resolve` has decided: the address records of the answers, or
  -- SERVFAIL where there is none.
  pub fill_answer_lem :
      (m : Msg) (name : Text) (rec : Record) (answers : List Answer)
      → m.answer ≡ []
      → fill_answer lib m name rec (some answers) ≡ (
          let out = address_records name rec.ttl answers in
          if length out == 0
          then record m { answer = out; rcode = server_failure }
          else record m { answer = out })
  unfolding fill_answer
  fill_answer_lem m name rec answers h = rw (h, add_answers-eq)

  -- One question about a name of the zone goes to the handler of its type.
  pub serve_dns_in_zone :
      (e : Evaluator) (b : Bundle) (q : Question) (now : Time)
      → lib.is_sub_domain (lib.fqdn b.domain) (lib.fqdn q.name) ≡ true
      → serve_dns lib e (some b) (q ∷ []) now
        ≡ answer_query lib e (started (q ∷ [])) b (lib.fqdn b.domain) (lib.fqdn q.name) q.qtype now
  unfolding serve_dns answer_question
  serve_dns_in_zone e b q now h = rw h
