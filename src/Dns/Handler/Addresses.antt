-- ===== src/Dns/Handler/Addresses.antt =====
-- What `ServeDNS` does to the evaluator, and the addresses that it writes.
use zeus_gslb.Prelude.{
  Time, Text, text_eq, text_eq_iff, to_lower, All, Any, All-append, ◌≡◌, ◌⊎◌, refl, sym, ap, ◌∙◌,
  true, Option, none, some, List, [], ◌∷◌, Bool-cases, Option-cases, arith, inl, inr,
}
use zeus_gslb.Prelude.Int.{ℤ}
use zeus_gslb.Bundle.{Answer, Bundle, Record}
use zeus_gslb.Dns.Evaluator.{Evaluator, resolve}
use zeus_gslb.Dns.Handler.{
  Library, Question, Qtype, type_a, type_aaaa, other_type, ARecord, Msg, lookup_in, lookup,
  serve_dns, answer_question,
}
use zeus_gslb.Dns.Handler.Records.{address_record, address_records}
use zeus_gslb.Dns.Handler.Rcodes.{in_zone, unknown_name, known_name, known_address, Reports}

module _ (lib : Library) where
  -- The address of an answer that has a property, for a name.
  abbrev pub IsAddressOf : Text → (Answer → Type 0) → ARecord → Type 0
  IsAddressOf name P r = (r.name ≡ name) × ((a : Answer) × P a × (lib.parse_ip4 a.ip ≡ some r.ip))

  address_record-IsAddressOf :
      (name : Text) (ttl : ℤ) (P : Answer → Type 0) (a : Answer)
      → P a
      → All (IsAddressOf name P) (address_record lib name ttl (lib.parse_ip4 a.ip))
  address_record-IsAddressOf name ttl P a p = elim (Option-cases (lib.parse_ip4 a.ip)) [
    | inl n ↦ rw n tt
    | inr (ip, y) ↦ rw y ((refl, (a, p, y)), tt)
  ]

  pub address_records-IsAddressOf :
      (name : Text) (ttl : ℤ) (P : Answer → Type 0) (answers : List Answer)
      → All P answers
      → All (IsAddressOf name P) (address_records lib name ttl answers)
  address_records-IsAddressOf name ttl P [] h = tt
  address_records-IsAddressOf name ttl P (a ∷ rest) h =
      All-append (IsAddressOf name P) (address_record lib name ttl (lib.parse_ip4 a.ip))
        (address_records lib name ttl rest) (address_record-IsAddressOf name ttl P a h.0)
        (address_records-IsAddressOf name ttl P rest h.1)

  lookup_in-Found :
      (rs : List Record) (name : Text) (rec : Record)
      → lookup_in lib rs name ≡ some rec
      → Any (λ (r : Record). r ≡ rec) rs × (to_lower (lib.fqdn rec.fqdn) ≡ name)
  unfolding lookup_in
  lookup_in-Found [] name rec h = absurd (cc h)
  lookup_in-Found (r ∷ rs) name rec h =
      elim (Bool-cases (text_eq (to_lower (lib.fqdn r.fqdn)) name)) [
        | inl y ↦
            let e : r ≡ rec = ground (arith, h, y) in
            (
              inl e,
              ap (λ (x : Record). to_lower (lib.fqdn x.fqdn)) (sym e)
                  ∙ (text_eq_iff (to_lower (lib.fqdn r.fqdn)) name).0 y,
            )
        | inr n ↦
            let (among, same) = lookup_in-Found rs name rec (ground (arith, h, n)) in
            (inr among, same)
      ]

  -- The record is one of the bundle's and bears the name, up to the case of letters.
  pub lookup-Found :
      (b : Bundle) (name : Text) (rec : Record)
      → lookup lib b name ≡ some rec
      → Any (λ (r : Record). r ≡ rec) b.records × (to_lower (lib.fqdn rec.fqdn) ≡ to_lower name)
  unfolding lookup
  lookup-Found b name rec h = lookup_in-Found b.records (to_lower name) rec h

  -- The record that `ServeDNS` resolves for a request.
  pub record Asked (e : Evaluator) (b : Bundle) (q : Question) (now : Time) (out : Evaluator × Msg)
      : Type 0 where
    pub rec : Record
    pub found : lookup lib b (lib.fqdn q.name) ≡ some rec
    pub resolved : out.0 ≡ (resolve e rec now).0
    pub reported : Reports lib (lib.fqdn q.name) rec (resolve e rec now).1 out.1

  -- The evaluator is as it was, and no address is written.
  abbrev pub IsQuiet : Evaluator → Evaluator × Msg → Type 0
  IsQuiet e out = (out.0 ≡ e) × (out.1.answer ≡ [])

  known_cases :
      (e : Evaluator) (b : Bundle) (q : Question) (now : Time) (rec : Record) (t : Qtype)
      → in_zone lib b (q ∷ []) ≡ true
      → lookup lib b (lib.fqdn q.name) ≡ some rec
      → q.qtype ≡ t
      → IsQuiet e (serve_dns lib e (some b) (q ∷ []) now)
        ⊎ Asked e b q now (serve_dns lib e (some b) (q ∷ []) now)
  known_cases e b q now rec type_a y k t =
      let (reports, state) = known_address lib e b q now y rec k t in
      inr (record { rec = rec; found = k; resolved = state; reported = reports })
  known_cases e b q now rec type_aaaa y k t =
      let (data', state) = known_name lib e b q now y rec k (λ a. cc (a, t)) in
      inl (state, data'.answer)
  known_cases e b q now rec (other_type n) y k t =
      let (data', state) = known_name lib e b q now y rec k (λ a. cc (a, t)) in
      inl (state, data'.answer)

  one_question :
      (e : Evaluator) (b : Bundle) (q : Question) (now : Time)
      → IsQuiet e (serve_dns lib e (some b) (q ∷ []) now)
        ⊎ Asked e b q now (serve_dns lib e (some b) (q ∷ []) now)
  one_question e b q now = elim (Bool-cases (in_zone lib b (q ∷ []))) [
    | inr n ↦ inl (unfold serve_dns answer_question in rw n (refl, lib.reply_answer (q ∷ [])))
    | inl y ↦ elim (Option-cases (lookup lib b (lib.fqdn q.name))) [
      | inl u ↦ let (denies, state) = unknown_name lib e b q now y u in inl (state, denies.answer)
      | inr (rec, k) ↦ known_cases e b q now rec q.qtype y k refl
    ]
  ]

  -- `ServeDNS` resolves a record of the bundle, or leaves the evaluator as it was and writes no
  -- address.
  pub serve_dns_cases :
      (e : Evaluator) (current : Option Bundle) (qs : List Question) (now : Time)
      → IsQuiet e (serve_dns lib e current qs now)
        ⊎ ((b : Bundle) × (q : Question) × (current ≡ some b)
            × (qs ≡ q ∷ [])
            × Asked e b q now (serve_dns lib e current qs now))
  serve_dns_cases e current [] now = unfold serve_dns in inl (refl, lib.reply_answer [])
  serve_dns_cases e current (q ∷ q' ∷ rest) now =
      unfold serve_dns in inl (refl, lib.reply_answer (q ∷ q' ∷ rest))
  serve_dns_cases e none (q ∷ []) now =
      unfold serve_dns answer_question in inl (refl, lib.reply_answer (q ∷ []))
  serve_dns_cases e (some b) (q ∷ []) now = elim (one_question e b q now) [
    | inl quiet ↦ inl quiet
    | inr asked ↦ inr (b, q, refl, refl, asked)
  ]
