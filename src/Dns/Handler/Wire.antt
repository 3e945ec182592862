-- ===== src/Dns/Handler/Wire.antt =====
-- The form of every response.
use zeus_gslb.Prelude.{
  Time, ℕ, Text, All, All-append, ◌<◌, ◌^◌, ◌≡◌, ◌⊎◌, refl, ◌∙◌, true, false, Option, none, some,
  List, [], ◌∷◌, length, ◌==◌, Bool-cases, Option-cases, arith, inl, inr,
}
use zeus_gslb.Prelude.Int.{ℤ, to_uint32-lt}
use zeus_gslb.Bundle.{Answer, Bundle, Record}
use zeus_gslb.Dns.Evaluator.{Evaluator, resolve}
use zeus_gslb.Dns.Handler.{
  Library, Question, Qtype, type_a, type_aaaa, other_type, success, ARecord, Msg, lookup,
  set_nxdomain, add_answers, fill_answer, answer_aaaa, answer_other, answer_query, answer_question,
  serve_dns,
}
use zeus_gslb.Dns.Handler.Records.{
  started, address_record, address_records, answer_a_unknown, answer_a_known,
}
use zeus_gslb.Dns.Handler.Rcodes.{Reports}
use zeus_gslb.Dns.Handler.Addresses.{serve_dns_cases}

module _ (lib : Library) where
  -- The flags that `ServeDNS` sets at first.
  abbrev pub HasFlags : Msg → Type 0
  HasFlags m = (m.authoritative ≡ true) × (m.recursion_available ≡ false)

  fill_answer-HasFlags :
      (m : Msg) (name : Text) (rec : Record) (o : Option (List Answer))
      → HasFlags m
      → HasFlags (fill_answer lib m name rec o)
  unfolding fill_answer
  fill_answer-HasFlags m name rec none f = f
  fill_answer-HasFlags m name rec (some l) f =
      elim (Bool-cases (length (add_answers lib name rec.ttl l m.answer) == 0)) [
        | inl z ↦ rw z f
        | inr z ↦ rw z f
      ]

  set_nxdomain-HasFlags : (m : Msg) (zone : Text) → HasFlags m → HasFlags (set_nxdomain lib m zone)
  unfolding set_nxdomain
  set_nxdomain-HasFlags m zone f = f

  query-HasFlags :
      (e : Evaluator) (m : Msg) (b : Bundle) (zone name : Text) (t : Qtype) (now : Time)
      → HasFlags m
      → HasFlags (answer_query lib e m b zone name t now).1
  unfolding answer_query answer_aaaa answer_other
  query-HasFlags e m b zone name type_a now f = elim (Option-cases (lookup lib b name)) [
    | inl n ↦ rw (answer_a_unknown lib e m b zone name now n) (set_nxdomain-HasFlags m zone f)
    | inr (rec, k) ↦
        rw (answer_a_known lib e m b zone name now rec k)
          (fill_answer-HasFlags m name rec (resolve e rec now).1 f)
  ]
  query-HasFlags e m b zone name type_aaaa now f = elim (Option-cases (lookup lib b name)) [
    | inl n ↦ rw (n, answer_aaaa) (set_nxdomain-HasFlags m zone f)
    | inr (rec, k) ↦ rw (k, answer_aaaa) f
  ]
  query-HasFlags e m b zone name (other_type t) now f = elim (Option-cases (lookup lib b name)) [
    | inl n ↦ rw (n, answer_other) (set_nxdomain-HasFlags m zone f)
    | inr (rec, k) ↦ rw (k, answer_other) f
  ]

  serve_dns-HasFlags :
      (e : Evaluator) (current : Option Bundle) (qs : List Question) (now : Time)
      → HasFlags (serve_dns lib e current qs now).1
  unfolding serve_dns answer_question
  serve_dns-HasFlags e current [] now = (refl, refl)
  serve_dns-HasFlags e current (q ∷ q' ∷ rest) now = (refl, refl)
  serve_dns-HasFlags e none (q ∷ []) now = (refl, refl)
  serve_dns-HasFlags e (some b) (q ∷ []) now =
      elim (Bool-cases (lib.is_sub_domain (lib.fqdn b.domain) (lib.fqdn q.name))) [
        | inr n ↦ rw n (refl, refl)
        | inl y ↦ rw y (
            query-HasFlags e (started lib (q ∷ [])) b (lib.fqdn b.domain) (lib.fqdn q.name) q.qtype
              now (refl, refl))
      ]

  -- A TTL that fits the field of its record.
  abbrev pub IsShort : ARecord → Type 0
  IsShort r = r.ttl < 2 ^ 32

  address_record-IsShort :
      (name : Text) (ttl : ℤ) (o : Option (List ℕ)) → All IsShort (address_record lib name ttl o)
  address_record-IsShort name ttl none = tt
  address_record-IsShort name ttl (some ip) = (to_uint32-lt ttl, tt)

  address_records-IsShort :
      (name : Text) (ttl : ℤ) (answers : List Answer)
      → All IsShort (address_records lib name ttl answers)
  address_records-IsShort name ttl [] = tt
  address_records-IsShort name ttl (a ∷ rest) =
      All-append IsShort (address_record lib name ttl (lib.parse_ip4 a.ip))
        (address_records lib name ttl rest) (address_record-IsShort name ttl (lib.parse_ip4 a.ip))
        (address_records-IsShort name ttl rest)

  -- The form of a response: authoritative, without recursion, with TTLs that fit 32 bits, and
  -- without an address where it is an error.
  pub record IsWellFormed (m : Msg) : Type 0 where
    pub flags : HasFlags m
    pub ttls : All IsShort m.answer
    pub code : (m.rcode ≡ success) ⊎ (m.answer ≡ [])

  nothing_if_empty : (l : List ARecord) → (length l == 0) ≡ true → l ≡ []
  nothing_if_empty [] h = refl
  nothing_if_empty (r ∷ rs) h = absurd (ground arith)

  reported_form :
      (name : Text) (rec : Record) (o : Option (List Answer)) (m : Msg)
      → Reports lib name rec o m
      → All IsShort m.answer × ((m.rcode ≡ success) ⊎ (m.answer ≡ []))
  reported_form name rec none m (c, n) = (rw n tt, inr n)
  reported_form name rec (some l) m (a, c) = (
    rw a (address_records-IsShort name rec.ttl l),
    elim (Bool-cases (length m.answer == 0)) [
      | inl z ↦ inr (nothing_if_empty m.answer z)
      | inr z ↦ inl (c ∙ rw z refl)
    ],
  )

  -- Every response of `ServeDNS`, to any request and from any state of the evaluator, is
  -- authoritative and offers no recursion; its TTLs fit 32 bits, whatever the bundle says; and it
  -- has no address where its code is an error.
  pub serve_dns-IsWellFormed :
      (e : Evaluator) (current : Option Bundle) (qs : List Question) (now : Time)
      → IsWellFormed (serve_dns lib e current qs now).1
  serve_dns-IsWellFormed e current qs now =
      let flags = serve_dns-HasFlags e current qs now in
      elim (serve_dns_cases lib e current qs now) [
        | inl (same, nothing) ↦ record { flags = flags; ttls = rw nothing tt; code = inr nothing }
        | inr (b, q, c, single, asked) ↦
            let form =
              reported_form (lib.fqdn q.name) asked.rec (resolve e asked.rec now).1
                (serve_dns lib e current qs now).1 asked.reported in
            record { flags = flags; ttls = form.0; code = form.1 }
      ]
