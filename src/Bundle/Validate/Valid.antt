-- ===== src/Bundle/Validate/Valid.antt =====
-- Exactly which bundles `ParseAndValidate` takes, and which record it names when it refuses.
use mathlib.Core.Path.{subst}
use zeus_gslb.Prelude.{
  ℕ, Text, ◌+◌, ◌≡◌, ◌≢◌, ◌↔◌, ◌⊎◌, refl, ap, false, Option, none, some, List, [], ◌∷◌, ◌++◌,
  length, All, ◌==◌, arith, Bool-cases, inl, inr,
}
use zeus_gslb.Prelude.Result.{ok, err}
use zeus_gslb.Prelude.Int.{pos, leb_ℤ, ◌≤ℤ◌}
use zeus_gslb.Bundle.{Bundle, Record, supported_protocol_version}
use zeus_gslb.Bundle.Validate.{
  LoadError, empty_fqdn, bad_ttl, first_bad, validate, parse_and_validate,
}

pub record IsServable (r : Record) : Type 0 where
  pub named : r.fqdn ≢ []
  pub positive : pos 1 ≤ℤ r.ttl

pub record IsValid (b : Bundle) : Type 0 where
  pub version : b.protocol_version ≡ supported_protocol_version
  pub domain : b.domain ≢ []
  pub records : All IsServable b.records

first_bad-none : (i : ℕ) (rs : List Record) → first_bad i rs ≡ none → All IsServable rs
unfolding first_bad
first_bad-none i [] h = tt
first_bad-none i (r ∷ rs) h = (
  record { named = λ e. ground arith; positive = ground arith },
  first_bad-none (i + 1) rs (ground arith),
)

pub length-ne-zero : (s : Text) → s ≢ [] → (length s == 0) ≡ false
length-ne-zero [] h = absurd (h refl)
length-ne-zero (c ∷ s) h = ground arith

none_of_servable : (i : ℕ) (rs : List Record) → All IsServable rs → first_bad i rs ≡ none
unfolding first_bad
none_of_servable i [] h = refl
none_of_servable i (r ∷ rs) h =
    rw (length-ne-zero r.fqdn h.0.named)
      (ground (arith, h.0.positive, none_of_servable (i + 1) rs h.1))

-- What the error of `ParseAndValidate` says of record number `i`.
abbrev pub Blames : ℕ → Record → LoadError → Type 0
Blames i r e =
    ((r.fqdn ≡ []) × (e ≡ empty_fqdn i))
    ⊎ ((r.fqdn ≢ []) × (r.ttl ≤ℤ pos 0) × (e ≡ bad_ttl r.fqdn r.ttl))

-- The records split at the first bad one.
pub record Split (i : ℕ) (rs : List Record) (e : LoadError) : Type 0 where
  pub good : List Record
  pub bad : Record
  pub rest : List Record
  pub whole : rs ≡ good ++ bad ∷ rest
  pub fine : All IsServable good
  pub blame : Blames (i + length good) bad e

Split-cons :
    (i : ℕ) (r : Record) (rs : List Record) (e : LoadError)
    → IsServable r
    → Split (i + 1) rs e
    → Split i (r ∷ rs) e
Split-cons i r rs e ok_r s = record {
  good = r ∷ s.good;
  bad = s.bad;
  rest = s.rest;
  whole = ap (◌∷◌ r) s.whole;
  fine = (ok_r, s.fine);
  blame = subst (λ n. Blames n s.bad e) (omega arith) s.blame;
}

Split-here :
    (i : ℕ) (r : Record) (rs : List Record) (e : LoadError) → Blames i r e → Split i (r ∷ rs) e
Split-here i r rs e h = record {
  good = [];
  bad = r;
  rest = rs;
  whole = refl;
  fine = tt;
  blame = subst (λ n. Blames n r e) (omega arith) h;
}

first_bad-Split :
    (i : ℕ) (rs : List Record) (e : LoadError) → first_bad i rs ≡ some e → Split i rs e
unfolding first_bad
first_bad-Split i [] e h = cc
first_bad-Split i (r ∷ rs) e h = elim (Bool-cases (length r.fqdn == 0)) [
  | inl z ↦ Split-here i r rs e (inl (ground arith, ground arith))
  | inr z ↦ elim (Bool-cases (leb_ℤ r.ttl (pos 0))) [
    | inl t ↦ Split-here i r rs e (inr (ground arith, ground arith, ground arith))
    | inr t ↦
        Split-cons i r rs e (record { named = λ y. ground arith; positive = ground arith })
          (first_bad-Split (i + 1) rs e (ground arith))
  ]
]

-- A bundle that `validate` refuses for a record: the error names the first record without a name
-- or with a TTL that is not positive.
pub validate_blames :
    (b : Bundle) (e : LoadError)
    → b.protocol_version ≡ supported_protocol_version
    → b.domain ≢ []
    → validate b ≡ err e
    → Split 0 b.records e
validate_blames b e v d h =
    first_bad-Split 0 b.records e (unfold validate in ground (arith, length-ne-zero b.domain d))

-- `ParseAndValidate` takes a bundle exactly when the JSON parses to it, its version is 1, it has a
-- domain, and each record has a name and a TTL of at least one.
pub parse_and_validate_iff :
    (unmarshal : Text → Option Bundle) (raw : Text) (b : Bundle)
    → (parse_and_validate unmarshal raw ≡ ok b) ↔ ((unmarshal raw ≡ some b) × IsValid b)
unfolding parse_and_validate validate
parse_and_validate_iff unmarshal raw b = (
  λ h. (
    ground arith,
    record {
      version = ground arith;
      domain = λ z. ground arith;
      records = first_bad-none 0 b.records (ground arith);
    },
  ),
  λ h. ground (
    arith,
    h.0,
    h.1.version,
    length-ne-zero b.domain h.1.domain,
    none_of_servable 0 b.records h.1.records,
  ),
)
