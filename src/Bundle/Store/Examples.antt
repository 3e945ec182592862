-- ===== src/Bundle/Store/Examples.antt =====
-- The theorems on the store at concrete bundles.
use zeus_gslb.Prelude.{text, zero_time, ◌≡◌, ◌≢◌, refl, none, some, List, [], ◌∷◌, arith}
use zeus_gslb.Prelude.Int.{pos}
use zeus_gslb.Prelude.Result.{ok}
use zeus_gslb.Bundle.Validate.{bad_ttl, load_file}
use zeus_gslb.Bundle.Cache.{
  call, save_cache, open_step, write_step, sync_step, close_step, rename_step, saved,
}
use zeus_gslb.Bundle.Store.{BundleFile, Event, tick, offered, run, new_store, apply_bundle}
use zeus_gslb.Bundle.Store.Loaded.{IsLoaded}
use zeus_gslb.Bundle.Store.Reloads.{IsUsable, run-IsLoaded, run-IsUsable}
use zeus_gslb.Bundle.Store.Restart.{restart_serves, new_store_unvalidated}
use zeus_gslb.Bundle.Samples.{
  decode, first_raw, second_raw, bad_raw, first_bundle, fine_plan, crash_plan, empty_dir, first_dir,
  first_store, first_parses, bad_fails, first_IsLoaded, first_IsUsable, fine_saves,
}

abbrev events : List Event
events =
    tick fine_plan (some 6) (some bad_raw)
    ∷ offered crash_plan second_raw 7
    ∷ tick fine_plan (some 8) none
    ∷ []

abbrev swapped : BundleFile
swapped = record { stat = some 5; first_read = some first_raw; second_read = some bad_raw }

abbrev missing : BundleFile
missing = record { stat = none; first_read = none; second_read = none }

swapped_loads : load_file decode swapped.first_read ≡ ok first_bundle
unfolding load_file
swapped_loads = first_parses

hash_is_there : text "h1" ≢ []
hash_is_there h = ground arith

bad_saves : (save_cache fine_plan bad_raw empty_dir).1 ≡ saved
unfolding call save_cache open_step write_step sync_step close_step rename_step
bad_saves = refl

run-IsLoaded_example : IsLoaded (run decode events (first_store, first_dir)).0
run-IsLoaded_example = run-IsLoaded decode events (first_store, first_dir) first_IsLoaded

run-IsUsable_example : IsUsable decode (run decode events (first_store, first_dir)).1
run-IsUsable_example = run-IsUsable decode events (first_store, first_dir) first_IsUsable

restart_serves_example :
    (new_store decode fine_plan missing
      (apply_bundle decode fine_plan first_raw 6 first_store empty_dir).1).1
    ≡ ok (record { current = some first_bundle; mod_time = zero_time })
restart_serves_example =
    restart_serves decode fine_plan fine_plan first_raw first_bundle 6 first_store empty_dir missing
      first_parses fine_saves refl

new_store_unvalidated_example :
    ((new_store decode fine_plan swapped empty_dir).1
      ≡ ok (record { current = some first_bundle; mod_time = 5 }))
    × (¬ IsUsable decode (new_store decode fine_plan swapped empty_dir).0)
new_store_unvalidated_example =
    new_store_unvalidated decode fine_plan swapped empty_dir first_bundle 5 bad_raw
      (bad_ttl (text "b.x.org.") (pos 0)) refl swapped_loads refl bad_fails bad_saves
