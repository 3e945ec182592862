-- ===== src/Main/System/Answers.antt =====
-- Every address that the responder sends comes from a valid bundle that it has served.
use zeus_gslb.Prelude.{
  Time, Text, to_lower, All, Any, All-map, ◌≡◌, refl, ap, ◌∙◌, Option, none, some, List, [], ◌∷◌,
  inl, inr,
}
use mathlib.Core.Path.{subst}
use zeus_gslb.Bundle.{Answer, Bundle, Record}
use zeus_gslb.Bundle.Cache.{Dir}
use zeus_gslb.Bundle.Validate.Valid.{IsValid}
use zeus_gslb.Bundle.Store.{Store}
use zeus_gslb.Bundle.Store.Loaded.{IsLoaded}
use zeus_gslb.Bundle.Store.Reloads.{handle-IsLoaded}
use zeus_gslb.Dns.Damper.Held.{Held, new_damper-Held}
use zeus_gslb.Dns.Evaluator.{Evaluator, new_evaluator, resolve}
use zeus_gslb.Dns.Evaluator.Source.{Lists, Each, Kept, resolve-Kept}
use zeus_gslb.Dns.Handler.{Library, Question, ARecord, Msg, lookup, serve_dns}
use zeus_gslb.Dns.Handler.Records.{address_records}
use zeus_gslb.Dns.Handler.Rcodes.{Reports}
use zeus_gslb.Dns.Handler.Addresses.{
  IsAddressOf, address_records-IsAddressOf, lookup-Found, serve_dns_cases,
}
use zeus_gslb.Main.System.{
  System, Happening, stores, query, pass, evaluator_now, happen, system_after, response,
}

module _ (lib : Library) (unmarshal : Text → Option Bundle) (store : Store) (dir : Dir) where
  -- The bundles that have been served, newest first.
  abbrev pub bundles : List Happening → List (Option Bundle)
  bundles [] = store.current ∷ []
  bundles (h ∷ hs) = (system_after lib unmarshal store dir (h ∷ hs)).store.current ∷ bundles hs

  -- A record of a valid bundle that has been served.
  pub record IsServed (hs : List Happening) (rec : Record) : Type 0 where
    pub bundle : Bundle
    pub valid : IsValid bundle
    pub served : Any (λ (c : Option Bundle). c ≡ some bundle) (bundles hs)
    pub among : Any (λ (r : Record). r ≡ rec) bundle.records

  -- The answer stands in such a record of that name.
  abbrev pub WasListed : List Happening → Text → Answer → Type 0
  WasListed hs fqdn a = (rec : Record) × IsServed hs rec × (rec.fqdn ≡ fqdn) × Lists rec a

  later :
      (h : Happening) (hs : List Happening) (k : Text) (a : Answer)
      → WasListed hs k a
      → WasListed (h ∷ hs) k a
  later h hs k a (rec, s, n, l) = (
    rec,
    record { bundle = s.bundle; valid = s.valid; served = inr s.served; among = s.among },
    n,
    l,
  )

  -- What holds at each time.
  record IsSound (hs : List Happening) (s : System) : Type 0 where
    loaded : IsLoaded s.store
    held : Held (Each (WasListed hs)) s.evaluator.damper

  now_served :
      (hs : List Happening)
      → Any
          (λ (c : Option Bundle). c ≡ (system_after lib unmarshal store dir hs).store.current)
          (bundles hs)
  now_served [] = inl refl
  now_served (h ∷ hs) = inl refl

  -- The record that is resolved is one that is served now.
  found-IsServed :
      (hs : List Happening) (b : Bundle) (name : Text) (rec : Record)
      → IsLoaded (system_after lib unmarshal store dir hs).store
      → (system_after lib unmarshal store dir hs).store.current ≡ some b
      → lookup lib b name ≡ some rec
      → IsServed hs rec
  found-IsServed hs b name rec (b', c, v) e f = record {
    bundle = b;
    valid = (let same : b' ≡ b = cc (c, e) in subst IsValid same v);
    served = subst (λ x. Any (λ (c : Option Bundle). c ≡ x) (bundles hs)) e (now_served hs);
    among = (lookup-Found lib b name rec f).0;
  }

  -- Resolving a record that is served keeps what is held.
  asked-Kept :
      (hs : List Happening) (s : System) (rec : Record) (now : Time)
      → IsServed hs rec
      → Held (Each (WasListed hs)) s.evaluator.damper
      → Kept (WasListed hs) rec (resolve (evaluator_now s) rec now)
  asked-Kept hs s rec now served held =
      resolve-Kept (WasListed hs) (evaluator_now s) rec now (λ a l. (rec, served, refl, l)) held

  Held-later :
      (h : Happening) (hs : List Happening) (e : Evaluator)
      → Held (Each (WasListed hs)) e.damper
      → Held (Each (WasListed (h ∷ hs))) e.damper
  Held-later h hs e held k s q =
      All-map (WasListed hs k) (WasListed (h ∷ hs) k) (later h hs k) s (held k s q)

  abbrev pub at : List Happening → System
  at = system_after lib unmarshal store dir

  -- What a query keeps, and the addresses that its response has.
  query-Kept :
      (hs : List Happening) (qs : List Question) (now : Time)
      → IsSound hs (at hs)
      → Held
          (Each (WasListed hs))
          (serve_dns lib (evaluator_now (at hs)) (at hs).store.current qs now).0.damper
  query-Kept hs qs now i =
      elim (serve_dns_cases lib (evaluator_now (at hs)) (at hs).store.current qs now) [
        | inl (same, nothing) ↦ rw same i.held
        | inr (b, q, current, single, asked) ↦
            rw asked.resolved
              (asked-Kept hs (at hs) asked.rec now
                (found-IsServed hs b (lib.fqdn q.name) asked.rec i.loaded current asked.found)
                i.held).held
      ]

  happen-IsSound :
      (h : Happening) (hs : List Happening) → IsSound hs (at hs) → IsSound (h ∷ hs) (at (h ∷ hs))
  unfolding happen
  happen-IsSound (stores e) hs i = record {
    loaded = handle-IsLoaded unmarshal e ((at hs).store, (at hs).dir) i.loaded;
    held = Held-later (stores e) hs (at hs).evaluator i.held;
  }
  happen-IsSound (query qs now) hs i = record {
    loaded = i.loaded;
    held =
        Held-later (query qs now) hs
          (serve_dns lib (evaluator_now (at hs)) (at hs).store.current qs now).0
          (query-Kept hs qs now i);
  }
  happen-IsSound (pass l now net) hs i = record {
    loaded = i.loaded;
    held = Held-later (pass l now net) hs (at hs).evaluator i.held;
  }

  after-IsSound : (hs : List Happening) → IsLoaded store → IsSound hs (at hs)
  after-IsSound [] l = record {
    loaded = l;
    held = unfold new_evaluator in new_damper-Held (Each (WasListed []));
  }
  after-IsSound (h ∷ hs) l = happen-IsSound h hs (after-IsSound hs l)

  -- The request is one question, the record bears its name, and the address is one that a record
  -- of that name, up to the case of letters, was served with.
  pub record IsSourced (hs : List Happening) (qs : List Question) (r : ARecord) : Type 0 where
    pub question : Question
    pub single : qs ≡ question ∷ []
    pub owner : r.name ≡ lib.fqdn question.name
    pub rec : Record
    pub served : IsServed hs rec
    pub named : to_lower (lib.fqdn rec.fqdn) ≡ to_lower (lib.fqdn question.name)
    pub answer : Answer
    pub listed : Lists rec answer
    pub address : lib.parse_ip4 answer.ip ≡ some r.ip

  module _ (hs : List Happening) (qs : List Question) (q : Question) (single : qs ≡ q ∷ [])
      (rec : Record) (same : to_lower (lib.fqdn rec.fqdn) ≡ to_lower (lib.fqdn q.name)) where
    IsSourced-IsAddressOf :
        (r : ARecord)
        → IsAddressOf lib (lib.fqdn q.name) (WasListed hs rec.fqdn) r
        → IsSourced hs qs r
    IsSourced-IsAddressOf r (n, (a, (rec', s, m, l), y)) = record {
      question = q;
      single = single;
      owner = n;
      rec = rec';
      served = s;
      named = ap (λ (x : Text). to_lower (lib.fqdn x)) m ∙ same;
      answer = a;
      listed = l;
      address = y;
    }

    reported-IsSourced :
        (o : Option (List Answer)) (m : Msg)
        → ((l : List Answer) → o ≡ some l → Each (WasListed hs) rec.fqdn l)
        → Reports lib (lib.fqdn q.name) rec o m
        → All (IsSourced hs qs) m.answer
    reported-IsSourced none m g (c, nothing) = rw nothing tt
    reported-IsSourced (some l) m g (answers, c) = rw answers (
        All-map (IsAddressOf lib (lib.fqdn q.name) (WasListed hs rec.fqdn)) (IsSourced hs qs)
          IsSourced-IsAddressOf (address_records lib (lib.fqdn q.name) rec.ttl l)
          (address_records-IsAddressOf lib (lib.fqdn q.name) rec.ttl (WasListed hs rec.fqdn) l
            (g l refl)))

  -- From a store that serves a valid bundle, after any reloads, refetches, queries and passes of the
  -- checks, in any order: a response has an address record only where the request is one question;
  -- the record then has the name of that question, and its address is that of an answer that a valid
  -- bundle, served now or at an earlier time, lists under that name, up to the case of letters. No
  -- damping, failover or change of bundles makes the responder send an address under a name that no
  -- bundle gave it.
  pub response-IsSourced :
      (hs : List Happening) (qs : List Question) (now : Time)
      → IsLoaded store
      → All (IsSourced hs qs) (response lib unmarshal (at hs) qs now).answer
  response-IsSourced hs qs now l =
      let i = after-IsSound hs l in
      elim (serve_dns_cases lib (evaluator_now (at hs)) (at hs).store.current qs now) [
        | inl (same, nothing) ↦ rw nothing tt
        | inr (b, q, current, single, asked) ↦
            reported-IsSourced hs qs q single asked.rec
              (lookup-Found lib b (lib.fqdn q.name) asked.rec asked.found).1
              (resolve (evaluator_now (at hs)) asked.rec now).1
              (serve_dns lib (evaluator_now (at hs)) (at hs).store.current qs now).1
              (asked-Kept hs (at hs) asked.rec now
                (found-IsServed hs b (lib.fqdn q.name) asked.rec i.loaded current asked.found)
                i.held).given
              asked.reported
      ]
