-- ===== src/Bundle/Samples.antt =====
-- Bundles and files for the examples, and a decoder that knows three byte strings.
use zeus_gslb.Prelude.{
  Text, text, text_eq, true, ◌≡◌, refl, Option, none, some, List, [], ◌∷◌, if◌then◌else◌,
}
use zeus_gslb.Prelude.Int.{ℤ, pos}
use zeus_gslb.Bundle.{Bundle, Record, LocalCheck, mode_all, state_ok}
use zeus_gslb.Prelude.Result.{ok, err}
use zeus_gslb.Bundle.Validate.{bad_ttl, first_bad, validate, parse_and_validate, load_file}
use zeus_gslb.Bundle.Validate.Valid.{IsValid, parse_and_validate_iff}
use zeus_gslb.Bundle.Cache.{
  Dir, Plan, done, dies_before, call, save_cache, open_step, write_step, sync_step, close_step,
  rename_step, saved,
}
use zeus_gslb.Bundle.Store.{Store, load_cache}
use zeus_gslb.Bundle.Store.Loaded.{IsLoaded}
use zeus_gslb.Bundle.Store.Reloads.{IsUsable}

abbrev pub tcp_check : Text → ℤ → LocalCheck
tcp_check key interval = record {
  target_key = key;
  probe = text "tcp";
  host = text "10.0.0.1";
  port = pos 80;
  path = [];
  namespace = [];
  service = [];
  interval_ms = interval;
  failure_threshold = pos 2;
  recovery_threshold = pos 2;
}

abbrev pub named : Text → ℤ → List LocalCheck → Record
named name ttl checks = record {
  fqdn = name;
  ttl = ttl;
  state = state_ok;
  mode = mode_all;
  answers = (record { ip = text "10.0.0.1"; port = pos 80 }) ∷ [];
  candidates = none;
  local_checks = checks;
}

abbrev pub bundle_of : Text → List Record → Bundle
bundle_of hash records = record {
  protocol_version = pos 1;
  domain = text "x.org";
  generated_at = [];
  content_hash = hash;
  records = records;
}

abbrev pub first_bundle : Bundle
first_bundle = bundle_of (text "h1") (named (text "a.x.org.") (pos 30) [] ∷ [])

abbrev pub second_bundle : Bundle
second_bundle = bundle_of (text "h2") (named (text "b.x.org.") (pos 30) [] ∷ [])

abbrev pub bad_bundle : Bundle
bad_bundle =
    bundle_of (text "h3")
      (named (text "a.x.org.") (pos 30) [] ∷ named (text "b.x.org.") (pos 0) [] ∷ [])

-- The bytes that decode to the three bundles.
abbrev pub first_raw : Text
first_raw = text "1"

abbrev pub second_raw : Text
second_raw = text "2"

abbrev pub bad_raw : Text
bad_raw = text "3"

abbrev pub decode : Text → Option Bundle
decode raw =
    if text_eq raw first_raw
    then some first_bundle
    else if text_eq raw second_raw
    then some second_bundle
    else if text_eq raw bad_raw
    then some bad_bundle
    else none

-- A save that succeeds, one that fails to rename, and one that dies in the write.
abbrev pub fine_plan : Plan
fine_plan = record {
  mkdir = done;
  open_tmp = done;
  write = done;
  written = 0;
  sync = done;
  close = done;
  rename = done;
  removes = true;
}

abbrev pub crash_plan : Plan
crash_plan = record fine_plan { write = dies_before }

abbrev pub empty_dir : Dir
empty_dir = record { final = none; tmp = none }

abbrev pub first_dir : Dir
first_dir = record { final = some first_raw; tmp = none }

abbrev pub first_store : Store
first_store = record { current = some first_bundle; mod_time = 5 }

pub first_parses : parse_and_validate decode first_raw ≡ ok first_bundle
unfolding parse_and_validate validate first_bad text_eq
first_parses = refl

pub second_parses : parse_and_validate decode second_raw ≡ ok second_bundle
unfolding parse_and_validate validate first_bad text_eq
second_parses = refl

pub bad_fails : parse_and_validate decode bad_raw ≡ err (bad_ttl (text "b.x.org.") (pos 0))
unfolding parse_and_validate validate first_bad text_eq
bad_fails = refl

pub first_IsValid : IsValid first_bundle
first_IsValid = ((parse_and_validate_iff decode first_raw first_bundle).0 first_parses).1

pub first_IsLoaded : IsLoaded first_store
first_IsLoaded = (first_bundle, refl, first_IsValid)

pub first_IsUsable : IsUsable decode first_dir
unfolding load_cache load_file
first_IsUsable = (first_bundle, first_parses)

pub fine_saves : (save_cache fine_plan first_raw empty_dir).1 ≡ saved
unfolding call save_cache open_step write_step sync_step close_step rename_step
fine_saves = refl
