-- ===== src/Main/System/Checks.antt =====
-- The health checks of the system, and what the answers to queries make of them.
use zeus_gslb.Prelude.{
  Text, text_eq, ◌^◌, ◌<◌, ◌≡◌, refl, ap, ◌∙◌, Bool, true, not, Option, some, List, [], ◌∷◌, length,
}
use zeus_gslb.Prelude.Dict.{Dict}
use zeus_gslb.Bundle.{Bundle, Candidate}
use zeus_gslb.Bundle.Cache.{Dir}
use zeus_gslb.Bundle.Store.{Store}
use zeus_gslb.Checks.Runner.{Runner}
use zeus_gslb.Checks.Runner.History.{Pass, runner_after, results}
use zeus_gslb.Dns.Evaluator.{health_unhealthy, flag, viable}
use zeus_gslb.Dns.Handler.{Library}
use zeus_gslb.Main.{machine_adapter}
use zeus_gslb.Main.LocalView.{local_verdict, viable-results}
use zeus_gslb.Main.System.{
  Happening, stores, query, pass, records_of, evaluator_now, happen, system_after,
}

module _ (lib : Library) (unmarshal : Text → Option Bundle) (store : Store) (dir : Dir) where
  -- The passes of the runner, each over the bundle that was served then, newest first.
  abbrev pub passes_of : List Happening → List Pass
  passes_of [] = []
  passes_of (stores e ∷ hs) = passes_of hs
  passes_of (query qs now ∷ hs) = passes_of hs
  passes_of (pass l now net ∷ hs) =
      (record {
        records = records_of (system_after lib unmarshal store dir hs).store.current;
        has_lister = l;
        now = now;
        net = net;
      })
      ∷ passes_of hs

  checks-eq :
      (hs : List Happening)
      → (system_after lib unmarshal store dir hs).checks ≡ runner_after (passes_of hs)
  unfolding happen runner_after
  checks-eq [] = refl
  checks-eq (stores e ∷ hs) = checks-eq hs
  checks-eq (query qs now ∷ hs) = checks-eq hs
  checks-eq (pass l now net ∷ hs) = rw (checks-eq hs) refl

  -- For a candidate with a local check, after any reloads, refetches, queries and fewer than 2^63
  -- passes of the checks, in any order: a query goes by the verdict of the probes that the passes
  -- made of the candidate's own target, each over the bundle that was served then, and before the
  -- first probe by the health that was pushed; the candidate is viable exactly when that is not
  -- "unhealthy".
  pub viable-passes :
      (hs : List Happening) (cand : Candidate) (locals : Dict Bool)
      → length (passes_of hs) < 2 ^ 63
      → flag cand.target_key locals ≡ true
      → (let health = local_verdict (results cand.target_key (passes_of hs)) cand.health in
          viable (evaluator_now (system_after lib unmarshal store dir hs)).machine cand locals
          ≡ (not (text_eq health health_unhealthy), text_eq health health_unhealthy))
  viable-passes hs cand locals fits local =
      ap (λ (r : Runner). viable (some (machine_adapter r.machine)) cand locals) (checks-eq hs)
      ∙ viable-results (passes_of hs) cand locals fits local
