-- ===== src/Bundle/Validate/Examples.antt =====
-- The theorems on `ParseAndValidate` at concrete bundles.
use zeus_gslb.Prelude.{text, some, ◌≡◌, ◌↔◌, refl}
use zeus_gslb.Prelude.Int.{pos}
use zeus_gslb.Prelude.Result.{ok, err}
use zeus_gslb.Bundle.Validate.{bad_ttl, first_bad, validate, parse_and_validate}
use zeus_gslb.Bundle.Validate.Valid.{IsValid, parse_and_validate_iff}
use zeus_gslb.Bundle.Samples.{decode, first_raw, first_bundle, bad_bundle}

parse_and_validate_iff_example :
    (parse_and_validate decode first_raw ≡ ok first_bundle)
    ↔ ((decode first_raw ≡ some first_bundle) × IsValid first_bundle)
parse_and_validate_iff_example = parse_and_validate_iff decode first_raw first_bundle

bad_is_refused : validate bad_bundle ≡ err (bad_ttl (text "b.x.org.") (pos 0))
unfolding validate first_bad
bad_is_refused = refl
