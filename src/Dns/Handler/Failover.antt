-- ===== src/Dns/Handler/Failover.antt =====
-- What `ServeDNS` answers when a candidate that it served has become unhealthy.
use mathlib.Core.Bool.{Bool-set}
use mathlib.Core.Logic.{∥∥₁_elim}
use mathlib.Core.Path.{subst}
use mathlib.Core.List.{flatten, Permᴰ}
use zeus_gslb.Prelude.{
  All, All-map, Any, any, filter, map, Time, Text, text_eq, text_eq_refl, ◌≡◌, refl, sym, ap, ◌∙◌,
  Bool, true, false, not, ◌&&◌, Option, none, some, List, [], ◌∷◌, arith, Bool-cases, Option-cases,
  inl, inr,
}
use zeus_gslb.Bundle.{Answer, Bundle, Candidate, Record, mode_all}
use zeus_gslb.Dns.Evaluator.{Evaluator, local_targets, resolve}
use zeus_gslb.Dns.Evaluator.Walk.{servable}
use zeus_gslb.Dns.Evaluator.Serving.{chosen_now}
use zeus_gslb.Dns.Evaluator.Source.{All-Any, All-first, flatten-All, answers-All}
use zeus_gslb.Dns.Evaluator.Forced.{has_lost, resolve_forced}
use zeus_gslb.Dns.Handler.{Library, Question, type_a, ARecord, Msg, lookup, serve_dns}
use zeus_gslb.Dns.Handler.Records.{address_records}
use zeus_gslb.Dns.Handler.Rcodes.{in_zone, known_address, Reports}
use zeus_gslb.Dns.Handler.Addresses.{IsAddressOf, address_records-IsAddressOf}

module _ {A : Type 0} (p : A → Bool) where
  pub any_in : (x : A) (xs : List A) → Any (λ (y : A). y ≡ x) xs → p x ≡ true → any p xs ≡ true
  any_in x [] i h = elim i [ ]
  any_in x (y ∷ xs) (inl e) h = rw (e, h) refl
  any_in x (y ∷ xs) (inr i) h = ground (arith, any_in x xs i h)

  any-perm : {xs ys : List A} → Permᴰ xs ys → any p xs ≡ any p ys
  any-perm Permᴰ.nil = refl
  any-perm (Permᴰ.cons e q) = ground (arith, ap p e, any-perm q)
  any-perm (Permᴰ.swap e f) = ground (arith, ap p e, ap p f)
  any-perm (Permᴰ.trans q r) = any-perm q ∙ any-perm r

  none-any : (xs : List A) → All (λ (x : A). p x ≡ false) xs → any p xs ≡ false
  none-any [] h = refl
  none-any (x ∷ xs) h = rw h.0 (none-any xs h.1)

  any-none : (xs : List A) → any p xs ≡ false → All (λ (x : A). p x ≡ false) xs
  any-none [] h = tt
  any-none (x ∷ xs) h = (ground (arith, h), any-none xs (ground (arith, h)))

  All-passing :
      (Q : A → Type 0) (xs : List A) → All (λ (x : A). p x ≡ true → Q x) xs → All Q (filter p xs)
  All-passing Q [] h = tt
  All-passing Q (x ∷ xs) h = elim (Bool-cases (p x)) [
    | inl y ↦ rw y (h.0 y, All-passing Q xs h.1)
    | inr o ↦ rw o (All-passing Q xs h.1)
  ]

unstray : (b : Bool) → not b ≡ false → b ≡ true
unstray true h = refl
unstray false h = absurd (cc h)

abbrev same_address : Text → Option Text → Bool
same_address ip none = false
same_address ip (some j) = text_eq j ip

module _ (lib : Library) (e : Evaluator) (rec : Record) (cs : List Candidate) where
  -- The answer has the address.
  abbrev has_address : Text → Answer → Bool
  has_address ip a = same_address ip (lib.parse_ip4 a.ip)

  -- Now, a candidate that has an answer with the address is not unhealthy.
  abbrev pub is_backed : Text → Bool
  is_backed ip =
      any
        (λ (c : Candidate).
          servable e.machine (local_targets rec.local_checks) c && any (has_address ip) c.answers)
        cs

  abbrev unbacked : Option Text → Bool
  unbacked none = false
  unbacked (some ip) = not (is_backed ip)

  abbrev is_stray : Answer → Bool
  is_stray a = unbacked (lib.parse_ip4 a.ip)

  own_address : (a : Answer) (ip : Text) → lib.parse_ip4 a.ip ≡ some ip → has_address ip a ≡ true
  own_address a ip h = ap (same_address ip) h ∙ text_eq_refl ip

  backed :
      (c : Candidate) (a : Answer)
      → Any (λ (d : Candidate). d ≡ c) cs
      → servable e.machine (local_targets rec.local_checks) c ≡ true
      → Any (λ (b : Answer). b ≡ a) c.answers
      → is_stray a ≡ false
  backed c a among ok own = elim (Option-cases (lib.parse_ip4 a.ip)) [
    | inl n ↦ ap unbacked n
    | inr (ip, y) ↦
        let mine : any (has_address ip) c.answers ≡ true =
          any_in (has_address ip) a c.answers own (own_address a ip y) in
        let b : is_backed ip ≡ true = any_in _ c cs among (rw (ok, mine) refl) in rw (y, b) refl
  ]

  chosen-backed :
      All
        (λ (c : Candidate). All (λ (a : Answer). is_stray a ≡ false) c.answers)
        (chosen_now e rec cs)
  chosen-backed =
      let good = λ (c : Candidate). All (λ (a : Answer). is_stray a ≡ false) c.answers in
      let passing : All good (filter (servable e.machine (local_targets rec.local_checks)) cs) =
        All-passing (servable e.machine (local_targets rec.local_checks)) good cs (
          All-map (λ (c : Candidate). Any (λ (d : Candidate). d ≡ c) cs)
            (λ (c : Candidate).
              servable e.machine (local_targets rec.local_checks) c ≡ true → good c)
            (λ c among ok.
              All-map (λ (a : Answer). Any (λ (b : Answer). b ≡ a) c.answers)
                (λ (a : Answer). is_stray a ≡ false) (λ a own. backed c a among ok own) c.answers
                (All-Any c.answers))
            cs (All-Any cs)) in
      elim (Bool-cases (text_eq rec.mode mode_all)) [
        | inl y ↦ rw y passing
        | inr o ↦ rw o (All-first good _ passing)
      ]

  selected-backed :
      any is_stray (flatten (map (λ (c : Candidate). c.answers) (chosen_now e rec cs))) ≡ false
  selected-backed = none-any is_stray _ (
      flatten-All (λ (a : Answer). is_stray a ≡ false) _
        (answers-All (λ (a : Answer). is_stray a ≡ false) (chosen_now e rec cs) chosen-backed))

module _ (lib : Library) (e : Evaluator) (b : Bundle) (q : Question) (rec : Record)
    (cs : List Candidate) (now : Time) where
  -- The records of a response that has no stray answer.
  backed_records :
      (answers : List Answer) (m : Msg)
      → any (is_stray lib e rec cs) answers ≡ false
      → Reports lib (lib.fqdn q.name) rec (some answers) m
      → All (λ (r : ARecord). is_backed lib e rec cs r.ip ≡ true) m.answer
  backed_records answers m h reports =
      let P = λ (a : Answer). is_stray lib e rec cs a ≡ false in
      subst (All (λ (r : ARecord). is_backed lib e rec cs r.ip ≡ true)) (sym reports.0) (
        All-map (IsAddressOf lib (lib.fqdn q.name) P)
          (λ (r : ARecord). is_backed lib e rec cs r.ip ≡ true)
          (λ r own.
            let (named, (a, fine, y)) = own in
            unstray (is_backed lib e rec cs r.ip) (sym (ap (unbacked lib e rec cs) y) ∙ fine))
          (address_records lib (lib.fqdn q.name) rec.ttl answers)
          (address_records-IsAddressOf lib (lib.fqdn q.name) rec.ttl P answers
            (any-none (is_stray lib e rec cs) answers h)))

  -- A question of type A about a record with candidates, when a candidate that the loop looks at was
  -- active and is unhealthy: every address of the response is that of a candidate that is viable now.
  pub lost-backed :
      in_zone lib b (q ∷ []) ≡ true
      → lookup lib b (lib.fqdn q.name) ≡ some rec
      → q.qtype ≡ type_a
      → rec.candidates ≡ some cs
      → has_lost e rec cs ≡ true
      → All
          (λ (r : ARecord). is_backed lib e rec cs r.ip ≡ true)
          (serve_dns lib e (some b) (q ∷ []) now).1.answer
  lost-backed inside found type given lost_one =
      let (reports, same) = known_address lib e b q now inside rec found type in
      let out = (serve_dns lib e (some b) (q ∷ []) now).1 in
      elim (Option-cases (resolve e rec now).1) [
        | inl n ↦
            let quiet = (subst (λ o. Reports lib (lib.fqdn q.name) rec o out) n reports).1 in
            subst (All (λ (r : ARecord). is_backed lib e rec cs r.ip ≡ true)) (sym quiet) tt
        | inr (answers, y) ↦
            let perm = resolve_forced e rec now cs answers given lost_one y in
            let fine : any (is_stray lib e rec cs) answers ≡ false =
              ∥∥₁_elim perm (Bool-set _ _) (any-perm (is_stray lib e rec cs))
              ∙ selected-backed lib e rec cs in
            backed_records answers out fine
              (subst (λ o. Reports lib (lib.fqdn q.name) rec o out) y reports)
      ]
