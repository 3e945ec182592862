-- ===== src/Main.antt =====
-- cmd/zeus-gslb/main.go: the checks on the flags, the lazy start of the Kubernetes lister, the health
-- machine as the DNS server sees it, the boot, and the system of all parts.
pub mod LocalView
pub mod Boot
pub mod System
pub mod Reports
pub mod Publish
pub mod Feedback
mod Examples
use zeus_gslb.Prelude.{
  ℕ, Text, text, text_eq, Bool, true, false, not, Option, none, some, List, [], ◌∷◌, length, ◌==◌,
  ◌||◌, if◌then◌else◌,
}
use zeus_gslb.Bundle.{Record, LocalCheck}
use zeus_gslb.Checks.Machine
use zeus_gslb.Checks.Machine.{Machine, health_text, ready}
use zeus_gslb.Dns.Evaluator.{LocalHealth}

unfoldable pub has_k8s_check : List LocalCheck → Bool
has_k8s_check [] = false
has_k8s_check (lc ∷ lcs) = if text_eq lc.probe (text "k8s") then true else has_k8s_check lcs

unfoldable pub needs_k8s_probe : List Record → Bool
needs_k8s_probe [] = false
needs_k8s_probe (rec ∷ records) =
    if has_k8s_check rec.local_checks then true else needs_k8s_probe records

-- `machineAdapter`
unfoldable pub machine_adapter : Machine → LocalHealth
machine_adapter m = record {
  state = λ key. health_text (Machine.state m key);
  ready = λ key. ready m key;
}

-- The flags, and the token of the environment, which is "" where it is not set.
pub record Flags : Type 0 where
  pub mode : Text
  pub bundle_path : Text
  pub cache_dir : Text
  pub zeus_url : Text
  pub cluster : Text
  pub token : Text
  pub env_token : Text

-- How `main` goes on behind its checks: it ends with an error, or boots from a fetch with the bearer
-- token, or boots from the file.
pub data Start : Type 0 where
  unsupported_mode no_cache_dir no_cluster no_token from_file : Start
  from_fetch : Text → Start

unfoldable pub bearer_token : Flags → Text
bearer_token f = if length f.env_token == 0 then f.token else f.env_token

unfoldable pub check_flags : Flags → Start
check_flags f =
    if not (text_eq f.mode (text "responder"))
    then unsupported_mode
    else if length f.cache_dir == 0
    then no_cache_dir
    else if length f.zeus_url == 0
    then from_file
    else if length f.cluster == 0
    then no_cluster
    else if length (bearer_token f) == 0
    then no_token
    else from_fetch (bearer_token f)

-- The lister that `ensureK8sLister` keeps, and whether it has logged that it starts none.
pub record ListerState : Type 0 where
  pub has_lister : Bool
  pub skip_logged : Bool

-- The new state, and whether a lister is returned. `starts` is whether `NewK8sLister` succeeds.
unfoldable pub ensure_k8s_lister : Bool → List Record → ListerState → ListerState × Bool
ensure_k8s_lister starts records s =
    if s.has_lister
    then (s, true)
    else if not (needs_k8s_probe records)
    then (record s { skip_logged = true }, false)
    else if starts
    then (record s { has_lister = true }, true)
    else (s, false)
