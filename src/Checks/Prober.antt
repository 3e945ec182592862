-- ===== src/Checks/Prober.antt =====
-- internal/checks/prober.go: the probes and their construction. What a connection attempt, an HTTP
-- request and the informer's count return within the timeout is an argument.
use zeus_gslb.Prelude.{
  Text, text, text_eq, Bool, true, false, ◌&&◌, Option, none, some, ◌++◌, if◌then◌else◌,
}
use zeus_gslb.Prelude.Int.{ℤ, pos, ltb_ℤ, leb_ℤ}
use zeus_gslb.Prelude.Decimal.{itoa}

-- `LocalCheckConfig`, which internal/checks/runner.go declares.
pub record LocalCheckConfig : Type 0 where
  pub target_key : Text
  pub probe : Text
  pub host : Text
  pub port : ℤ
  pub path : Text
  pub namespace : Text
  pub service : Text
  pub interval_ms : ℤ
  pub failure_threshold : ℤ
  pub recovery_threshold : ℤ

-- Whether the dial of an address connects, the status that a GET of a URL gets (`none` for an
-- error), and `ReadyCount` of a namespace and a service.
pub record Network : Type 0 where
  pub dial : Text → Bool
  pub get_status : Text → Option ℤ
  pub ready_count : Text → Text → ℤ

-- The third has a lister or has nil.
pub data Prober : Type 0 where
  tcp_prober : Text → Prober
  http_prober : Text → Prober
  k8s_prober : Bool → Text → Text → Prober

unfoldable pub probe_once : Network → Prober → Bool
probe_once net (tcp_prober addr) = net.dial addr
probe_once net (http_prober url) = elim (net.get_status url) [
  | none ↦ false
  | some code ↦ leb_ℤ (pos 200) code && ltb_ℤ code (pos 400)
]
probe_once net (k8s_prober false namespace service) = false
probe_once net (k8s_prober true namespace service) =
    ltb_ℤ (pos 0) (net.ready_count namespace service)

-- `has_lister` tells a lister from nil. `none` is the error on an unknown probe type.
unfoldable pub new_prober : LocalCheckConfig → Bool → Option Prober
new_prober cfg has_lister =
    if text_eq cfg.probe (text "tcp")
    then some (tcp_prober (cfg.host ++ text ":" ++ itoa cfg.port))
    else if text_eq cfg.probe (text "http")
    then some (http_prober (text "http://" ++ cfg.host ++ text ":" ++ itoa cfg.port ++ cfg.path))
    else if text_eq cfg.probe (text "k8s")
    then some (k8s_prober has_lister cfg.namespace cfg.service)
    else none
