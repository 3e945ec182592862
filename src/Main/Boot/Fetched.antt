-- ===== src/Main/Boot/Fetched.antt =====
-- The boot in zeus-fetch mode, from the flags to the bundle that is served.
use zeus_gslb.Prelude.{
  ℕ, zero, suc, Text, ◌≤◌, ◌<◌, ◌≡◌, ◌⊎◌, refl, ap, inl, inr, Bool, true, false, Option, some,
}
use zeus_gslb.Prelude.Result.{ok, err}
use zeus_gslb.Prelude.Int.{pos}
use zeus_gslb.Bundle.{Bundle}
use zeus_gslb.Bundle.Validate.{LoadError, parse_and_validate}
use zeus_gslb.Bundle.Cache.{Dir, Plan, save_cache}
use zeus_gslb.Bundle.Store.{Store, BundleFile}
use zeus_gslb.Bundle.Store.Loaded.{IsLoaded}
use zeus_gslb.Bundle.Store.Reloads.{IsUsable}
use zeus_gslb.Bundle.Store.Restart.{new_store-Started}
use zeus_gslb.Bundle.Boot.{gives_up}
use zeus_gslb.Bundle.Boot.Outcomes.{Fails, Reached, boot_first_valid, boot_from_fetch-Booted}
use zeus_gslb.Remote.Client.{Client, ClientError, Response, fetch_bundle}
use zeus_gslb.Remote.Client.Fetching.{Fetched, fetch_bundle-ok}
use zeus_gslb.Main.{
  Flags, Start, unsupported_mode, no_cache_dir, no_cluster, no_token, from_file, from_fetch,
  check_flags,
}
use zeus_gslb.Main.Boot.{
  Meeting, boot_fetch_retries, attempt_with, bytes_of, client_of, BootResult, fatal, booted,
  boot_by, boot,
}

-- Whether the checks on the flags end the process.
abbrev pub is_refused : Start → Bool
is_refused unsupported_mode = true
is_refused no_cache_dir = true
is_refused no_cluster = true
is_refused no_token = true
is_refused from_file = false
is_refused (from_fetch token) = false

abbrev pub is_fatal : BootResult → Bool
is_fatal (fatal s) = true
is_fatal (booted x) = false

module _ (unmarshal : Text → Option Bundle) where
  -- The client gets no bytes, or bytes that `ParseAndValidate` refuses.
  abbrev pub Misses : Client → Meeting → Type 0
  Misses c m =
      ((e : ClientError) × (fetch_bundle m.net c ≡ err e))
      ⊎ ((raw : Text) × (e : LoadError) × (fetch_bundle m.net c ≡ ok raw)
          × (parse_and_validate unmarshal raw ≡ err e))

  Misses-Fails : (c : Client) (m : Meeting) → Misses c m → Fails unmarshal (attempt_with c m)
  unfolding attempt_with
  Misses-Fails c m (inl (e, h)) = inl (rw h refl)
  Misses-Fails c m (inr (raw, e, h, p)) = inr (raw, e, rw h refl, p)

  -- Attempt number `n` is the first one that is answered with a valid bundle, and the context lives
  -- until then.
  pub record FirstAnswer (c : Client) (world : ℕ → Meeting) (n : ℕ) (raw : Text) (b : Bundle)
      : Type 0 where
    pub missed : (j : ℕ) → j < n → Misses c (world j)
    pub alive : (j : ℕ) → j ≤ n → (world j).cancelled ≡ false
    pub answer : Response
    pub fetched : Fetched (world n).net c raw answer
    pub parsed : parse_and_validate unmarshal raw ≡ ok b

  module _ (c : Client) (world : ℕ → Meeting) where
    waits :
        (j : ℕ)
        → (world j).cancelled ≡ false
        → gives_up unmarshal false (λ i. attempt_with c (world i)) j ≡ false
    unfolding gives_up attempt_with
    waits zero h = refl
    waits (suc j) h = h

    Reached-FirstAnswer :
        (n : ℕ) (raw : Text) (b : Bundle)
        → FirstAnswer c world n raw b
        → Reached unmarshal false (λ i. attempt_with c (world i)) 0 n raw b
    Reached-FirstAnswer n raw b a = record {
      failed_before = λ j lo hi. Misses-Fails c (world j) (a.missed j hi);
      waited = λ j lo hi. waits j (a.alive j hi);
      fetches = (
        unfold attempt_with in
            ap bytes_of ((fetch_bundle-ok (world n).net c raw).1 (a.answer, a.fetched)),
        a.parsed,
      );
    }

  -- In zeus-fetch mode `main` serves the first valid bundle that the server answers with in one of
  -- four attempts: the body of a 200, cut off at 16 MiB, is what is parsed, served and saved.
  pub boot_serves :
      (f : Flags) (token : Text) (world : ℕ → Meeting) (plan : Plan) (file : BundleFile) (d : Dir)
      (n : ℕ) (raw : Text) (b : Bundle)
      → check_flags f ≡ from_fetch token
      → n ≤ boot_fetch_retries
      → FirstAnswer (client_of f token) world n raw b
      → boot unmarshal f world plan file d
        ≡ booted (
          (save_cache (world n).plan raw d).0,
          ok (record { current = some b; mod_time = (world n).now }),
        )
  unfolding boot
  boot_serves f token world plan file d n raw b h le a = rw h (
      ap booted (
        unfold attempt_with in
        boot_first_valid unmarshal false (λ i. attempt_with (client_of f token) (world i)) 3 n raw b
          d le (Reached-FirstAnswer (client_of f token) world n raw b a)))

  -- What `main` promises of its boot: a store that it returns serves a valid bundle, and it returns
  -- one where the cache loads.
  abbrev pub IsBooted : Dir → BootResult → Type 0
  IsBooted d (fatal s) = Unit
  IsBooted d (booted (d', r)) =
      ((s : Store) → r ≡ ok s → IsLoaded s) × (IsUsable unmarshal d → (s : Store) × (r ≡ ok s))

  boot_by-IsBooted :
      (start : Start) (f : Flags) (world : ℕ → Meeting) (plan : Plan) (file : BundleFile) (d : Dir)
      → IsBooted d (boot_by unmarshal start f world plan file d)
        × (is_fatal (boot_by unmarshal start f world plan file d) ≡ is_refused start)
  boot_by-IsBooted (from_fetch token) f world plan file d =
      let b =
        boot_from_fetch-Booted unmarshal false (λ i. attempt_with (client_of f token) (world i))
          (pos boot_fetch_retries) d in
      ((b.serves, b.survives), refl)
  boot_by-IsBooted from_file f world plan file d =
      let b = new_store-Started unmarshal plan file d in ((b.serves, b.survives), refl)
  boot_by-IsBooted unsupported_mode f world plan file d = (tt, refl)
  boot_by-IsBooted no_cache_dir f world plan file d = (tt, refl)
  boot_by-IsBooted no_cluster f world plan file d = (tt, refl)
  boot_by-IsBooted no_token f world plan file d = (tt, refl)

  -- In both modes, whatever the network and the bundle file give: `main` refuses to boot on its flags
  -- exactly where they are refused; else a store that it boots with serves a valid bundle, and it
  -- boots with one where the cache loads.
  pub boot-IsBooted :
      (f : Flags) (world : ℕ → Meeting) (plan : Plan) (file : BundleFile) (d : Dir)
      → IsBooted d (boot unmarshal f world plan file d)
        × (is_fatal (boot unmarshal f world plan file d) ≡ is_refused (check_flags f))
  unfolding boot
  boot-IsBooted f = boot_by-IsBooted (check_flags f) f
