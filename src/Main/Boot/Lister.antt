-- ===== src/Main/Boot/Lister.antt =====
-- The lazy start of the Kubernetes lister over the passes of the runner.
use zeus_gslb.Prelude.{
  text, text_eq, any, ◌≡◌, refl, ap, ◌∙◌, arith, Bool, false, ◌&&◌, ◌||◌, List, [], ◌∷◌,
}
use zeus_gslb.Bundle.{Record, LocalCheck}
use zeus_gslb.Checks.Endpoints.{Cluster, is_started, new_k8s_lister}
use zeus_gslb.Main.{ListerState, has_k8s_check, needs_k8s_probe, ensure_k8s_lister}

-- A pass: the records of the bundle, and what the start of a lister would meet then.
pub record ListerPass : Type 0 where
  pub records : List Record
  pub cluster : Cluster

abbrev pub no_lister : ListerState
no_lister = record { has_lister = false; skip_logged = false }

-- Whether `NewK8sLister` succeeds in a pass.
abbrev pub starts : ListerPass → Bool
starts p = is_started (new_k8s_lister p.cluster)

-- What is kept after a log of passes, newest first.
unfoldable pub lister_after : List ListerPass → ListerState
lister_after [] = no_lister
lister_after (p ∷ ps) = (ensure_k8s_lister (starts p) p.records (lister_after ps)).0

-- Whether a record has a local check with the probe "k8s".
abbrev pub asks_k8s : Record → Bool
asks_k8s r = any (λ (lc : LocalCheck). text_eq lc.probe (text "k8s")) r.local_checks

has_k8s_check-any :
    (lcs : List LocalCheck)
    → has_k8s_check lcs ≡ any (λ (lc : LocalCheck). text_eq lc.probe (text "k8s")) lcs
unfolding has_k8s_check
has_k8s_check-any [] = refl
has_k8s_check-any (lc ∷ lcs) = ground (arith, has_k8s_check-any lcs)

needs_k8s_probe-any : (rs : List Record) → needs_k8s_probe rs ≡ any asks_k8s rs
unfolding needs_k8s_probe
needs_k8s_probe-any [] = refl
needs_k8s_probe-any (r ∷ rs) =
    ground (arith, needs_k8s_probe-any rs, has_k8s_check-any r.local_checks)

-- The pass that starts a lister.
abbrev pub is_start : ListerPass → Bool
is_start p = starts p && any asks_k8s p.records

ensured :
    (p : ListerPass) (s : ListerState)
    → ((ensure_k8s_lister (starts p) p.records s).0.has_lister ≡ (is_start p || s.has_lister))
      × ((ensure_k8s_lister (starts p) p.records s).1 ≡ (is_start p || s.has_lister))
unfolding ensure_k8s_lister
ensured p s =
    (ground (arith, needs_k8s_probe-any p.records), ground (arith, needs_k8s_probe-any p.records))

has_lister-any : (ps : List ListerPass) → (lister_after ps).has_lister ≡ any is_start ps
unfolding lister_after
has_lister-any [] = refl
has_lister-any (p ∷ ps) =
    (ensured p (lister_after ps)).0 ∙ ap (◌||◌ (is_start p)) (has_lister-any ps)

-- The lister is given to a pass exactly where this pass or an earlier one has come with a record
-- that has a local check by "k8s" while the start of a lister succeeds: it is not started before it
-- is needed, a start that fails is tried again, and a lister that is started is kept.
pub ensure_k8s_lister-any :
    (p : ListerPass) (ps : List ListerPass)
    → (ensure_k8s_lister (starts p) p.records (lister_after ps)).1 ≡ any is_start (p ∷ ps)
ensure_k8s_lister-any p ps =
    (ensured p (lister_after ps)).1 ∙ ap (◌||◌ (is_start p)) (has_lister-any ps)
