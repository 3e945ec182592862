-- ===== src/Main/Boot.antt =====
-- cmd/zeus-gslb/main.go: the boot of the store, from the flags on, and the lister over the passes.
pub mod Fetched
pub mod Lister
mod Examples
use zeus_gslb.Prelude.{ℕ, Text, Time, Bool, true, false, Option, none, some, List, [], ◌∷◌}
use zeus_gslb.Prelude.Result.{Result, ok, err}
use zeus_gslb.Prelude.Int.{ℤ, pos}
use zeus_gslb.Bundle.{Bundle, Record}
use zeus_gslb.Bundle.Validate.{LoadError}
use zeus_gslb.Bundle.Cache.{Dir, Plan}
use zeus_gslb.Bundle.Store.{Store, BundleFile, new_store}
use zeus_gslb.Bundle.Boot.{Attempt, boot_from_fetch}
use zeus_gslb.Remote.Client.{Client, ClientError, Net, new_client, fetch_bundle}
use zeus_gslb.Main.{
  Flags, Start, unsupported_mode, no_cache_dir, no_cluster, no_token, from_file, from_fetch,
  check_flags, ListerState, ensure_k8s_lister,
}

abbrev pub boot_fetch_retries : ℕ
boot_fetch_retries = 3

-- What one attempt of the boot meets: the end of the context before it, the network, the time, and
-- how a save of the cache ends.
pub record Meeting : Type 0 where
  pub cancelled : Bool
  pub net : Net
  pub now : Time
  pub plan : Plan

abbrev pub bytes_of : Result ClientError Text → Option Text
bytes_of (ok raw) = some raw
bytes_of (err e) = none

-- The attempt with `client.FetchBundle` as the fetch function.
unfoldable pub attempt_with : Client → Meeting → Attempt
attempt_with client m = record {
  cancelled = m.cancelled;
  fetched = bytes_of (fetch_bundle m.net client);
  now = m.now;
  plan = m.plan;
}

-- The end of the process for flags that are refused, or what the boot returns.
pub data BootResult : Type 0 where
  fatal : Start → BootResult
  booted : Dir × Result LoadError Store → BootResult

unfoldable pub client_of : Flags → Text → Client
client_of f token = new_client f.zeus_url f.cluster token

module _ (unmarshal : Text → Option Bundle) where
  -- From the checks on the flags to the store; the backoff is never nil.
  abbrev pub boot_by : Start → Flags → (ℕ → Meeting) → Plan → BundleFile → Dir → BootResult
  boot_by (from_fetch token) f world plan file d = booted (
      boot_from_fetch unmarshal false (λ i. attempt_with (client_of f token) (world i))
        (pos boot_fetch_retries) d)
  boot_by from_file f world plan file d = booted (new_store unmarshal plan file d)
  boot_by unsupported_mode f world plan file d = fatal unsupported_mode
  boot_by no_cache_dir f world plan file d = fatal no_cache_dir
  boot_by no_cluster f world plan file d = fatal no_cluster
  boot_by no_token f world plan file d = fatal no_token

  unfoldable pub boot : Flags → (ℕ → Meeting) → Plan → BundleFile → Dir → BootResult
  boot f = boot_by (check_flags f) f
