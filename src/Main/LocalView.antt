-- ===== src/Main/LocalView.antt =====
-- What the health machine of the local checks makes of a candidate.
use zeus_gslb.Prelude.{
  ℕ, suc, Text, text_eq, leb, ◌^◌, ◌<◌, ◌≡◌, refl, Bool, true, not, ◌&&◌, List, [], ◌∷◌, length,
  some, if◌then◌else◌, arith,
}
use zeus_gslb.Prelude.Dict.{Dict}
use zeus_gslb.Bundle.{Candidate}
use zeus_gslb.Checks.Machine.{health_text}
use zeus_gslb.Checks.Machine.Verdict.{Call, after, about, verdict, state-after, ready-after}
use zeus_gslb.Checks.Runner.History.{Pass, runner_after, results}
use zeus_gslb.Checks.Runner.Outcome.{state-results, ready-results}
use zeus_gslb.Dns.Evaluator.{health_unhealthy, health_unknown, flag, effective_health, viable}
use zeus_gslb.Main.{machine_adapter}

-- The health of a target by the results of its own probes, `pushed` before the first one.
abbrev pub local_verdict : List Call → Text → Text
local_verdict [] pushed = pushed
local_verdict (c ∷ calls) pushed = health_text (verdict (c ∷ calls))

one_at_least : (n : ℕ) → leb 1 (suc n) ≡ true
one_at_least n = ground arith

if_known : (h pushed : Text) → (if text_eq h health_unknown && not true then pushed else h) ≡ h
if_known h pushed = ground arith

own_verdict :
    (calls : List Call) (pushed : Text)
    → (if text_eq (health_text (verdict calls)) health_unknown && not (leb 1 (length calls))
        then pushed
        else health_text (verdict calls))
      ≡ local_verdict calls pushed
unfolding text_eq
own_verdict [] pushed = refl
own_verdict (c ∷ calls) pushed =
    rw (one_at_least (length calls)) (if_known (health_text (verdict (c ∷ calls))) pushed)

effective_health-verdict :
    (log : List Call) (cand : Candidate) (locals : Dict Bool)
    → length log < 2 ^ 63
    → flag cand.target_key locals ≡ true
    → effective_health (some (machine_adapter (after log))) cand locals
      ≡ local_verdict (about cand.target_key log) cand.health
unfolding effective_health machine_adapter
effective_health-verdict log cand locals fits local =
    rw (local, state-after log cand.target_key fits, ready-after log cand.target_key fits)
      (own_verdict (about cand.target_key log) cand.health)

-- For a candidate with a local check, after any log of fewer than 2^63 probe results, the evaluator
-- goes by the verdict of the results about the candidate's own target, and before the first of them
-- by the health that was pushed; it is viable exactly when that is not "unhealthy".
pub viable-verdict :
    (log : List Call) (cand : Candidate) (locals : Dict Bool)
    → length log < 2 ^ 63
    → flag cand.target_key locals ≡ true
    → viable (some (machine_adapter (after log))) cand locals ≡ (
      not (text_eq (local_verdict (about cand.target_key log) cand.health) health_unhealthy),
      text_eq (local_verdict (about cand.target_key log) cand.health) health_unhealthy,
    )
unfolding viable
viable-verdict log cand locals fits local =
    rw (effective_health-verdict log cand locals fits local) refl

effective_health-results :
    (ps : List Pass) (cand : Candidate) (locals : Dict Bool)
    → length ps < 2 ^ 63
    → flag cand.target_key locals ≡ true
    → effective_health (some (machine_adapter (runner_after ps).machine)) cand locals
      ≡ local_verdict (results cand.target_key ps) cand.health
unfolding effective_health machine_adapter
effective_health-results ps cand locals fits local =
    rw (local, state-results cand.target_key ps fits, ready-results cand.target_key ps fits)
      (own_verdict (results cand.target_key ps) cand.health)

-- For a candidate with a local check, after any log of passes of the runner, fewer than 2^63, the
-- evaluator goes by the verdict of the probes of the candidate's own target, and before the first
-- of them by the health that was pushed; it is viable exactly when that is not "unhealthy".
pub viable-results :
    (ps : List Pass) (cand : Candidate) (locals : Dict Bool)
    → length ps < 2 ^ 63
    → flag cand.target_key locals ≡ true
    → (let health = local_verdict (results cand.target_key ps) cand.health in
        viable (some (machine_adapter (runner_after ps).machine)) cand locals
        ≡ (not (text_eq health health_unhealthy), text_eq health health_unhealthy))
unfolding viable
viable-results ps cand locals fits local =
    rw (effective_health-results ps cand locals fits local) refl
