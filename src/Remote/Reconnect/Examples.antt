-- ===== src/Remote/Reconnect/Examples.antt =====
-- A subscription that ends on a new bundle, and two late ones.
use zeus_gslb.Prelude.{◌≡◌, some, [], ◌∷◌, arith}
use zeus_gslb.Bundle.Samples.{decode, second_raw, bad_raw, fine_plan, first_dir, first_store}
use zeus_gslb.Remote.Refetch.{Fetch}
use zeus_gslb.Remote.Reconnect.{Session, refetch_each, run_round}
use zeus_gslb.Remote.Reconnect.Gaps.{run_round-unpolled}

abbrev second_fetch : Fetch
second_fetch = record { fetched = some second_raw; now = 7; plan = fine_plan }

-- An event with a bundle that does not validate, and the second bundle behind the end.
abbrev missed : Session
missed = record {
  events = record { fetched = some bad_raw; now = 6; plan = fine_plan } ∷ [];
  polls = second_fetch ∷ [];
}

run_round-unpolled_example :
    run_round decode 3 missed (first_store, first_dir)
    ≡ refetch_each decode missed.events (first_store, first_dir)
run_round-unpolled_example =
    run_round-unpolled decode 2 missed (first_store, first_dir) (omega arith)
