-- ===== src/Dns/Handler.antt =====
-- internal/dnsserver/handler.go: the answer to one DNS query.
pub mod Rcodes
pub mod Records
pub mod Addresses
pub mod Wire
pub mod Selected
pub mod Failover
pub mod Samples
mod Examples
use zeus_gslb.Prelude.{
  Time, ℕ, Text, text, text_eq, to_lower, ◌≡◌, Bool, true, false, Option, none, some, List, [], ◌∷◌,
  ◌++◌, length, ◌==◌, not, if◌then◌else◌,
}
use zeus_gslb.Prelude.Int.{ℤ, to_uint32}
use zeus_gslb.Bundle.{Answer, Bundle, Record}
use zeus_gslb.Dns.Evaluator.{Evaluator, resolve}

-- The types of question that the handler tells apart.
pub data Qtype : Type 0 where
  type_a type_aaaa : Qtype
  other_type : ℕ → Qtype

pub record Question : Type 0 where
  pub name : Text
  pub qtype : Qtype

-- The response codes that the handler sets.
pub data Rcode : Type 0 where
  success server_failure name_error refused : Rcode

pub record ARecord : Type 0 where
  pub name : Text
  pub ttl : ℕ
  pub ip : List ℕ

pub record Soa : Type 0 where
  pub name : Text
  pub ttl : ℕ
  pub ns : Text
  pub mbox : Text
  pub serial : ℕ
  pub refresh : ℕ
  pub retry : ℕ
  pub expire : ℕ
  pub minttl : ℕ

-- The fields of a response that the handler writes; its class is always IN.
pub record Msg : Type 0 where
  pub rcode : Rcode
  pub authoritative : Bool
  pub recursion_available : Bool
  pub answer : List ARecord
  pub ns : List Soa

abbrev pub negative_ttl : ℕ
negative_ttl = 5

-- The SOA record that `setNXDOMAIN` makes for a zone.
abbrev pub placeholder_soa : Text → Soa
placeholder_soa zone = record {
  name = zone;
  ttl = negative_ttl;
  ns = text "ns." ++ zone;
  mbox = text "hostmaster." ++ zone;
  serial = 1;
  refresh = negative_ttl;
  retry = negative_ttl;
  expire = negative_ttl;
  minttl = negative_ttl;
}

-- What the handler calls of the package github.com/miekg/dns, on names in presentation form, and
-- `net.ParseIP(s).To4()`. A request is its questions; `set_reply` is the reply that `SetReply`
-- makes of a request, without an error, an answer or an authority.
pub record Library : Type 0 where
  pub fqdn : Text → Text
  pub is_sub_domain : Text → Text → Bool
  pub parse_ip4 : Text → Option (List ℕ)
  pub set_reply : List Question → Msg
  pub reply_rcode : (qs : List Question) → (set_reply qs).rcode ≡ success
  pub reply_answer : (qs : List Question) → (set_reply qs).answer ≡ []
  pub reply_ns : (qs : List Question) → (set_reply qs).ns ≡ []

module _ (lib : Library) where
  unfoldable pub lookup_in : List Record → Text → Option Record
  lookup_in [] name = none
  lookup_in (r ∷ rs) name =
      if text_eq (to_lower (lib.fqdn r.fqdn)) name then some r else lookup_in rs name

  unfoldable pub lookup : Bundle → Text → Option Record
  unfolding lookup_in
  lookup b name = lookup_in b.records (to_lower name)

  unfoldable pub set_nxdomain : Msg → Text → Msg
  set_nxdomain msg zone = record msg {
    rcode = name_error;
    ns = msg.ns ++ placeholder_soa zone ∷ [];
  }

  -- The loop over the answers, which appends to `msg.Answer`.
  unfoldable pub add_answers : Text → ℤ → List Answer → List ARecord → List ARecord
  add_answers name ttl [] out = out
  add_answers name ttl (ans ∷ rest) out = add_answers name ttl rest (elim (lib.parse_ip4 ans.ip) [
    | none ↦ out
    | some ip ↦ out ++ record { name = name; ttl = to_uint32 ttl; ip = ip } ∷ []
  ])

  -- The message behind `Resolve`.
  unfoldable pub fill_answer : Msg → Text → Record → Option (List Answer) → Msg
  fill_answer msg name rec none = record msg { rcode = server_failure }
  fill_answer msg name rec (some answers) =
      let out = add_answers name rec.ttl answers msg.answer in
      if length out == 0
      then record msg { answer = out; rcode = server_failure }
      else record msg { answer = out }

  unfoldable pub answer_a : Evaluator → Msg → Bundle → Text → Text → Time → Evaluator × Msg
  answer_a e msg b zone name now = elim (lookup b name) [
    | none ↦ (e, set_nxdomain msg zone)
    | some rec ↦ let (e', answers) = resolve e rec now in (e', fill_answer msg name rec answers)
  ]

  unfoldable pub answer_aaaa : Msg → Bundle → Text → Text → Msg
  answer_aaaa msg b zone name = elim (lookup b name) [
    | none ↦ set_nxdomain msg zone
    | some rec ↦ msg
  ]

  unfoldable pub answer_other : Msg → Bundle → Text → Text → Msg
  answer_other msg b zone name = elim (lookup b name) [
    | none ↦ set_nxdomain msg zone
    | some rec ↦ msg
  ]

  -- The `switch` on the type of the question.
  unfoldable pub answer_query :
      Evaluator → Msg → Bundle → Text → Text → Qtype → Time → Evaluator × Msg
  answer_query e msg b zone name type_a now = answer_a e msg b zone name now
  answer_query e msg b zone name type_aaaa now = (e, answer_aaaa msg b zone name)
  answer_query e msg b zone name (other_type t) now = (e, answer_other msg b zone name)

  unfoldable pub answer_question :
      Evaluator → Msg → Option Bundle → Question → Time → Evaluator × Msg
  answer_question e msg none q now = (e, record msg { rcode = server_failure })
  answer_question e msg (some b) q now =
      let zone = lib.fqdn b.domain in
      let name = lib.fqdn q.name in
      if not (lib.is_sub_domain zone name)
      then (e, record msg { rcode = refused })
      else answer_query e msg b zone name q.qtype now

  -- The new state of the evaluator, and the response that is written. `current` is the bundle that
  -- the store serves.
  unfoldable pub serve_dns : Evaluator → Option Bundle → List Question → Time → Evaluator × Msg
  serve_dns e current questions now =
      let msg = record (lib.set_reply questions) {
        authoritative = true;
        recursion_available = false;
      } in
      elim questions [
        | [] ↦ (e, record msg { rcode = refused })
        | q ∷ [] ↦ answer_question e msg current q now
        | q ∷ q' ∷ rest ↦ (e, record msg { rcode = refused })
      ]
