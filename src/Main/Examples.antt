-- ===== src/Main/Examples.antt =====
-- Tests of the start, and the local verdict for a target with one failed probe.
use zeus_gslb.Prelude.{Text, text, text_eq, ◌≡◌, refl, true, false, [], ◌∷◌}
use zeus_gslb.Prelude.Int.{pos}
use zeus_gslb.Bundle.Samples.{tcp_check, named}
use zeus_gslb.Main.{
  Flags, bearer_token, check_flags, from_fetch, no_token, has_k8s_check, needs_k8s_probe,
  ensure_k8s_lister,
}

abbrev flags : Text → Text → Flags
flags token env_token = record {
  mode = text "responder";
  bundle_path = [];
  cache_dir = text "/c";
  zeus_url = text "https://z";
  cluster = text "z-01";
  token = token;
  env_token = env_token;
}

environment_wins :
    (check_flags (flags (text "a") (text "b")) ≡ from_fetch (text "b"))
    × (check_flags (flags (text "a") []) ≡ from_fetch (text "a"))
    × (check_flags (flags [] []) ≡ no_token)
unfolding check_flags bearer_token text_eq
environment_wins = (refl, refl, refl)

tcp_needs_no_lister :
    ensure_k8s_lister true
      (named (text "a.") (pos 30) (tcp_check (text "t") (pos 1000) ∷ []) ∷ [])
      (record { has_lister = false; skip_logged = false })
    ≡ (record { has_lister = false; skip_logged = true }, false)
unfolding ensure_k8s_lister needs_k8s_probe has_k8s_check text_eq
tcp_needs_no_lister = refl
