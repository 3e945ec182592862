-- ===== src/Dns/Handler/Selected.antt =====
-- The address records of a response that is forced away from an unhealthy candidate.
use mathlib.Core.Logic.{∥∥₁_map}
use mathlib.Core.Path.{subst}
use mathlib.Core.List.{flatten, Perm, Permᴰ}
use mathlib.Core.List.Perm
use mathlib.Core.List.Permᴰ
use zeus_gslb.Prelude.{
  map, Time, Text, ◌≡◌, refl, sym, ap, ◌∙◌, true, Option, none, some, List, [], ◌∷◌, ◌++◌,
  Option-cases, inl, inr,
}
use zeus_gslb.Prelude.Int.{ℤ}
use zeus_gslb.Bundle.{Answer, Bundle, Candidate, Record}
use zeus_gslb.Dns.Evaluator.{Evaluator, resolve}
use zeus_gslb.Dns.Evaluator.Serving.{chosen_now, chosen_now-eq-nil, resolve_fails}
use zeus_gslb.Dns.Evaluator.Forced.{has_lost, resolve_forced}
use zeus_gslb.Dns.Handler.{Library, Question, ARecord, type_a, lookup, serve_dns}
use zeus_gslb.Dns.Handler.Records.{address_record, address_records}
use zeus_gslb.Dns.Handler.Rcodes.{in_zone, known_address, Reports}

module _ (lib : Library) (name : Text) (ttl : ℤ) where
  record-perm :
      (o : Option Text) (l k : List ARecord)
      → Permᴰ l k
      → Permᴰ (address_record lib name ttl o ++ l) (address_record lib name ttl o ++ k)
  record-perm none l k p = p
  record-perm (some ip) l k p = Permᴰ.cons refl p

  record-swap :
      (o o' : Option Text) (l : List ARecord)
      → Permᴰ
          (address_record lib name ttl o ++ (address_record lib name ttl o' ++ l))
          (address_record lib name ttl o' ++ (address_record lib name ttl o ++ l))
  record-swap none o' l = Permᴰ.refl _
  record-swap (some ip) none l = Permᴰ.refl _
  record-swap (some ip) (some jp) l = Permᴰ.swap refl refl

  records-perm :
      (xs ys : List Answer)
      → Permᴰ xs ys
      → Permᴰ (address_records lib name ttl xs) (address_records lib name ttl ys)
  records-perm xs ys Permᴰ.nil = Permᴰ.nil
  records-perm xs ys (Permᴰ.cons {a = a} {b = b} {l₁ = l} {l₂ = k} e p) =
      subst
        (λ (x : Answer).
          Permᴰ (address_records lib name ttl (a ∷ l)) (address_records lib name ttl (x ∷ k)))
        e (record-perm (lib.parse_ip4 a.ip) _ _ (records-perm l k p))
  records-perm xs ys (Permᴰ.swap {a = a} {b = b} {a' = a'} {b' = b'} {l = l} e f) =
      let there : (b ∷ a ∷ l) ≡ (a' ∷ b' ∷ l) =
        ap (λ (x : Answer). x ∷ a ∷ l) f ∙ ap (λ (x : Answer). a' ∷ x ∷ l) e in
      subst
        (λ (zs : List Answer).
          Permᴰ (address_records lib name ttl (a ∷ b ∷ l)) (address_records lib name ttl zs))
        there
        (record-swap (lib.parse_ip4 a.ip) (lib.parse_ip4 b.ip) (address_records lib name ttl l))
  records-perm xs ys (Permᴰ.trans p q) = Permᴰ.trans (records-perm _ _ p) (records-perm _ _ q)

  records_selected :
      (xs ys : List Answer)
      → Perm xs ys
      → Perm (address_records lib name ttl xs) (address_records lib name ttl ys)
  records_selected xs ys p = ∥∥₁_map p (records-perm xs ys)

module _ (lib : Library) (e : Evaluator) (q : Question) (rec : Record) (cs : List Candidate) where
  -- The records of what the mode selects.
  abbrev pub selected_records : List ARecord
  selected_records =
      address_records lib (lib.fqdn q.name) rec.ttl
        (flatten (map (λ (c : Candidate). c.answers) (chosen_now e rec cs)))

module _ (lib : Library) (e : Evaluator) (b : Bundle) (q : Question) (rec : Record)
    (cs : List Candidate) (now : Time) where
  failed_none :
      rec.candidates ≡ some cs → (resolve e rec now).1 ≡ none → selected_records lib e q rec cs ≡ []
  unfolding flatten
  failed_none given n =
      let empty : chosen_now e rec cs ≡ [] =
        (chosen_now-eq-nil e rec cs).1 ((resolve_fails e rec now cs given).0.0 n) in
      ap
        (λ (ds : List Candidate).
          address_records lib (lib.fqdn q.name) rec.ttl
            (flatten (map (λ (c : Candidate). c.answers) ds)))
        empty

  -- A question of type A about a record with candidates, when a candidate that the loop looks at was
  -- active and is unhealthy: the response has the address records of the candidates that the mode
  -- selects now, up to their order.
  pub lost-selected :
      in_zone lib b (q ∷ []) ≡ true
      → lookup lib b (lib.fqdn q.name) ≡ some rec
      → q.qtype ≡ type_a
      → rec.candidates ≡ some cs
      → has_lost e rec cs ≡ true
      → Perm (serve_dns lib e (some b) (q ∷ []) now).1.answer (selected_records lib e q rec cs)
  lost-selected inside found type given lost_one =
      let (reports, same) = known_address lib e b q now inside rec found type in
      let out = (serve_dns lib e (some b) (q ∷ []) now).1 in
      elim (Option-cases (resolve e rec now).1) [
        | inl n ↦
            let quiet = (subst (λ o. Reports lib (lib.fqdn q.name) rec o out) n reports).1 in
            subst (Perm out.answer) (quiet ∙ sym (failed_none given n)) (Perm.refl out.answer)
        | inr (answers, y) ↦
            let written = (subst (λ o. Reports lib (lib.fqdn q.name) rec o out) y reports).0 in
            subst (λ (l : List ARecord). Perm l (selected_records lib e q rec cs)) (sym written)
              (records_selected lib (lib.fqdn q.name) rec.ttl answers _
                (resolve_forced e rec now cs answers given lost_one y))
      ]
