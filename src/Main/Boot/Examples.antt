-- ===== src/Main/Boot/Examples.antt =====
-- A boot whose first fetch meets no server, and a lister that is needed from the second pass on.
use zeus_gslb.Prelude.{
  ℕ, zero, suc, text, text_eq, ◌<◌, ◌≤◌, ◌≡◌, refl, arith, inl, true, false, none, some, List, [],
  ◌∷◌,
}
use zeus_gslb.Prelude.Result.{ok, err}
use zeus_gslb.Prelude.Int.{pos}
use zeus_gslb.Bundle.{LocalCheck}
use zeus_gslb.Bundle.Cache.{save_cache}
use zeus_gslb.Bundle.Store.{BundleFile}
use zeus_gslb.Bundle.Samples.{
  decode, first_raw, first_bundle, fine_plan, empty_dir, first_dir, first_parses, tcp_check, named,
}
use zeus_gslb.Checks.Endpoints.{Cluster}
use zeus_gslb.Remote.Client.{Client, Net, Response, transport, max_bundle_bytes, send, fetch_bundle}
use zeus_gslb.Main.{Flags, from_fetch, bearer_token, check_flags}
use zeus_gslb.Main.Boot.{Meeting, client_of, booted, boot}
use zeus_gslb.Main.Boot.Fetched.{
  Misses, FirstAnswer, IsBooted, is_fatal, is_refused, boot_serves, boot-IsBooted,
}
use zeus_gslb.Main.Boot.Lister.{ListerPass}

abbrev flags : Flags
flags = record {
  mode = text "responder";
  bundle_path = [];
  cache_dir = text "/c";
  zeus_url = text "https://z";
  cluster = text "z-01";
  token = text "secret";
  env_token = [];
}

flags_pass : check_flags flags ≡ from_fetch (text "secret")
unfolding check_flags bearer_token text_eq
flags_pass = refl

abbrev meeting : Net → Meeting
meeting net = record { cancelled = false; net = net; now = 7; plan = fine_plan }

abbrev unreachable : Net
unreachable = record { builds = λ m u. true; exchange = λ h r. none }

abbrev response : Response
response = record { status = 200; body = first_raw; broken = false }

abbrev answering : Net
answering = record { builds = λ m u. true; exchange = λ h r. some response }

abbrev world : ℕ → Meeting
world zero = meeting unreachable
world (suc n) = meeting answering

no_answer : (c : Client) → fetch_bundle unreachable c ≡ err transport
unfolding fetch_bundle send
no_answer c = refl

first-Misses : (j : ℕ) → j < 1 → Misses decode (client_of flags (text "secret")) (world j)
first-Misses zero h = inl (transport, no_answer (client_of flags (text "secret")))
first-Misses (suc j) h = absurd (omega arith)

alive : (j : ℕ) → j ≤ 1 → (world j).cancelled ≡ false
alive zero h = refl
alive (suc j) h = refl

second_answers : FirstAnswer decode (client_of flags (text "secret")) world 1 first_raw first_bundle
second_answers = record {
  missed = first-Misses;
  alive = alive;
  answer = response;
  fetched = record {
    answered = record { built = refl; answer = refl };
    status = refl;
    unbroken = λ h. absurd (cc h);
    bytes = unfold max_bundle_bytes in refl;
  };
  parsed = first_parses;
}

abbrev no_file : BundleFile
no_file = record { stat = none; first_read = none; second_read = none }

boot_serves_example :
    boot decode flags world fine_plan no_file empty_dir
    ≡ booted (
      (save_cache fine_plan first_raw empty_dir).0,
      ok (record { current = some first_bundle; mod_time = 7 }),
    )
boot_serves_example =
    boot_serves decode flags (text "secret") world fine_plan no_file empty_dir 1 first_raw
      first_bundle flags_pass (omega arith) second_answers

boot-IsBooted_example :
    IsBooted decode first_dir (boot decode flags world fine_plan no_file first_dir)
    × (is_fatal (boot decode flags world fine_plan no_file first_dir)
        ≡ is_refused (check_flags flags))
boot-IsBooted_example = boot-IsBooted decode flags world fine_plan no_file first_dir

abbrev k8s_check : LocalCheck
k8s_check = record (tcp_check (text "t") (pos 1000)) { probe = text "k8s" }

abbrev inside : Cluster
inside = record { in_cluster = true; builds_clientset = true; syncs = true }

abbrev lister_pass : LocalCheck → ListerPass
lister_pass lc = record { records = named (text "a.") (pos 30) (lc ∷ []) ∷ []; cluster = inside }

abbrev passes : List ListerPass
passes = lister_pass k8s_check ∷ lister_pass (tcp_check (text "t") (pos 1000)) ∷ []

abbrev no_records : ListerPass
no_records = record { records = []; cluster = inside }
