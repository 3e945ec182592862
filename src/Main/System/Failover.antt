-- ===== src/Main/System/Failover.antt =====
-- What the responder answers once the probes of a candidate have failed.
mod Examples
use mathlib.Core.List.{Perm}
use mathlib.Core.Path.{subst}
use zeus_gslb.Prelude.{
  All, Any, any, Text, text_eq, text_eq_refl, Time, ◌^◌, ◌<◌, ◌≡◌, refl, sym, ap, ◌∙◌, Bool, true,
  false, ◌&&◌, Option, some, List, [], ◌∷◌, length, arith, inl, inr,
}
use zeus_gslb.Bundle.{Bundle, Candidate, Record, mode_all}
use zeus_gslb.Bundle.Cache.{Dir}
use zeus_gslb.Bundle.Store.{Store}
use zeus_gslb.Checks.Machine.{unhealthy, health_text}
use zeus_gslb.Checks.Machine.Verdict.{Call, verdict}
use zeus_gslb.Checks.Runner.History.{results}
use zeus_gslb.Dns.Evaluator.{health_unhealthy, local_targets, active, mark, flag, viable}
use zeus_gslb.Dns.Evaluator.Walk.{visited, lost}
use zeus_gslb.Dns.Evaluator.Forced.{has_lost}
use zeus_gslb.Dns.Handler.{Library, Question, type_a, ARecord, lookup, serve_dns}
use zeus_gslb.Dns.Handler.Rcodes.{in_zone}
use zeus_gslb.Dns.Handler.Selected.{selected_records, lost-selected}
use zeus_gslb.Dns.Evaluator.Forced.{has_lost}
use zeus_gslb.Dns.Handler.Failover.{any_in, is_backed, lost-backed}
use zeus_gslb.Main.LocalView.{local_verdict}
use zeus_gslb.Main.System.{System, Happening, evaluator_now, system_after, response}
use zeus_gslb.Main.System.Checks.{passes_of, viable-passes}

local_verdict_unhealthy :
    (calls : List Call) (pushed : Text)
    → verdict calls ≡ unhealthy
    → local_verdict calls pushed ≡ health_unhealthy
local_verdict_unhealthy [] pushed h = absurd (cc h)
local_verdict_unhealthy (c ∷ calls) pushed h = ap health_text h

module _ (lib : Library) (unmarshal : Text → Option Bundle) (store : Store) (dir : Dir)
    (hs : List Happening) where
  abbrev here : System
  here = system_after lib unmarshal store dir hs

  probed_unhealthy :
      (rec : Record) (c : Candidate)
      → length (passes_of lib unmarshal store dir hs) < 2 ^ 63
      → flag c.target_key (local_targets rec.local_checks) ≡ true
      → verdict (results c.target_key (passes_of lib unmarshal store dir hs)) ≡ unhealthy
      → (viable (evaluator_now here).machine c (local_targets rec.local_checks)).1 ≡ true
  probed_unhealthy rec c fits local failed =
      ap (λ (v : Bool × Bool). v.1)
        (viable-passes lib unmarshal store dir hs c (local_targets rec.local_checks) fits local)
      ∙ ap (λ h. text_eq h health_unhealthy)
          (local_verdict_unhealthy (results c.target_key (passes_of lib unmarshal store dir hs))
            c.health failed)
      ∙ text_eq_refl health_unhealthy

  -- Failover. After any reloads, refetches, queries and fewer than 2^63 passes of the checks: when
  -- a candidate of a record of the bundle has a local check, the probes that the passes made of it
  -- say that it is unhealthy, its target is among the active keys of the name, and the loop over
  -- the candidates looks at it, which in mode "all" it always does and else where no servable
  -- candidate comes before it, then a question of type A about that name is answered with the
  -- addresses of the candidates that the mode selects by their health now, up to their order, and
  -- each of them is one of a candidate that is viable now, also where the name is frozen or has
  -- moved too often.
  pub failover :
      (b : Bundle) (q : Question) (now : Time) (rec : Record) (cs : List Candidate) (c : Candidate)
      → here.store.current ≡ some b
      → in_zone lib b (q ∷ []) ≡ true
      → lookup lib b (lib.fqdn q.name) ≡ some rec
      → q.qtype ≡ type_a
      → rec.candidates ≡ some cs
      → Any
          (λ (d : Candidate). d ≡ c)
          (visited
            (evaluator_now here).machine
            (local_targets rec.local_checks)
            (text_eq rec.mode mode_all)
            cs)
      → flag c.target_key (mark (active (evaluator_now here) rec.fqdn) []) ≡ true
      → flag c.target_key (local_targets rec.local_checks) ≡ true
      → length (passes_of lib unmarshal store dir hs) < 2 ^ 63
      → verdict (results c.target_key (passes_of lib unmarshal store dir hs)) ≡ unhealthy
      → Perm
          (response lib unmarshal here (q ∷ []) now).answer
          (selected_records lib (evaluator_now here) q rec cs)
        × All
            (λ (r : ARecord). is_backed lib (evaluator_now here) rec cs r.ip ≡ true)
            (response lib unmarshal here (q ∷ []) now).answer
  failover b q now rec cs c current inside found type given among was local fits failed =
      let e = evaluator_now here in
      let gone : lost e.machine (local_targets rec.local_checks)
            (mark (active (evaluator_now here) rec.fqdn) []) c
          ≡ true =
        rw (was, probed_unhealthy rec c fits local failed) refl in
      let here_lost : has_lost e rec cs ≡ true = any_in _ c _ among gone in
      subst
        (λ (o : Option Bundle).
          let answer = (serve_dns lib e o (q ∷ []) now).1.answer in
          Perm answer (selected_records lib e q rec cs)
          × All (λ (r : ARecord). is_backed lib e rec cs r.ip ≡ true) answer)
        (sym current)
        (
          lost-selected lib e b q rec cs now inside found type given here_lost,
          lost-backed lib e b q rec cs now inside found type given here_lost,
        )
