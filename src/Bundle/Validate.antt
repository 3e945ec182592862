-- ===== src/Bundle/Validate.antt =====
-- `ParseAndValidate` of internal/bundle/bundle.go. `unmarshal` is `json.Unmarshal` into a bundle.
pub mod Valid
mod Examples
use zeus_gslb.Prelude.{
  ℕ, Text, text_eq, ◌+◌, Bool, true, false, not, Option, none, some, List, [], ◌∷◌, length, ◌==◌,
  if◌then◌else◌,
}
use zeus_gslb.Prelude.Result.{Result, ok, err}
use zeus_gslb.Prelude.Int.{ℤ, pos, leb_ℤ, eq_ℤ}
use zeus_gslb.Bundle.{Bundle, Record, supported_protocol_version}

-- Why a bundle is not taken, with what the message shows.
pub data LoadError : Type 0 where
  unreadable bad_json no_domain : LoadError
  unsupported_version : ℤ → LoadError
  empty_fqdn : ℕ → LoadError
  bad_ttl : Text → ℤ → LoadError

-- The loop over the records, from record `i` on: the error of the first bad one.
unfoldable pub first_bad : ℕ → List Record → Option LoadError
first_bad i [] = none
first_bad i (r ∷ rs) =
    if length r.fqdn == 0
    then some (empty_fqdn i)
    else if leb_ℤ r.ttl (pos 0)
    then some (bad_ttl r.fqdn r.ttl)
    else first_bad (i + 1) rs

-- The checks behind the parsing.
unfoldable pub validate : Bundle → Result LoadError Bundle
validate b =
    if not (eq_ℤ b.protocol_version supported_protocol_version)
    then err (unsupported_version b.protocol_version)
    else if length b.domain == 0
    then err no_domain
    else elim (first_bad 0 b.records) [ none ↦ ok b | some e ↦ err e ]

unfoldable pub parse_and_validate : (Text → Option Bundle) → Text → Result LoadError Bundle
parse_and_validate unmarshal raw = elim (unmarshal raw) [
  | none ↦ err bad_json
  | some b ↦ validate b
]

-- `LoadFile`, on what `os.ReadFile` returned.
unfoldable pub load_file : (Text → Option Bundle) → Option Text → Result LoadError Bundle
load_file unmarshal none = err unreadable
load_file unmarshal (some raw) = parse_and_validate unmarshal raw
