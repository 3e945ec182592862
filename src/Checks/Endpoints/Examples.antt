-- ===== src/Checks/Endpoints/Examples.antt =====
-- The count over the slices of two services.
use zeus_gslb.Prelude.{◌≡◌, refl, text_eq, Text, text, true, Option, some, none, List, [], ◌∷◌}
use zeus_gslb.Checks.Endpoints.{Slice, add_endpoints, count_slices, ready_count}

abbrev slice : Text → Slice
slice service = record {
  namespace = text "ns";
  service_label = service;
  endpoints =
      (record { is_ready = some true; addresses = text "10.0.0.1" ∷ [] })
      ∷ (record { is_ready = none; addresses = text "10.0.0.2" ∷ [] })
      ∷ [];
}

abbrev slices : List (Option Slice)
slices = some (slice (text "web")) ∷ none ∷ some (slice (text "db")) ∷ []

counts_ready : ready_count (text "ns") (text "web") slices ≡ 1
unfolding ready_count count_slices add_endpoints text_eq
counts_ready = refl
