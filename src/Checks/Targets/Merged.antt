-- ===== src/Checks/Targets/Merged.antt =====
-- What `BuildTargets` makes of the checks that share a target key.
use zeus_gslb.Prelude.{
  Text, text_eq, text_eq_iff, ◌≡◌, ◌≢◌, ◌⊎◌, refl, sym, ap, ◌∙◌, inl, inr, true, false, Option,
  none, some, List, [], ◌∷◌, ◌++◌, All, Any, if◌then◌else◌, arith, Bool-cases, Option-cases,
}
use zeus_gslb.Prelude.Int.{pos, ◌≤ℤ◌}
use zeus_gslb.Prelude.Dict
use zeus_gslb.Prelude.Dict.{Dict, get-put, get-put_self, get-put_ne}
use zeus_gslb.Bundle.{Record, LocalCheck}
use zeus_gslb.Checks.Prober.{LocalCheckConfig}
use zeus_gslb.Checks.Targets.{config_of, is_faster, add_check, add_checks, add_records}

-- The checks of all records, in the order of the loops.
abbrev pub all_checks : List Record → List LocalCheck
all_checks [] = []
all_checks (r ∷ rs) = r.local_checks ++ all_checks rs

-- A configuration behind one more check of its key.
abbrev pub merge : Option LocalCheckConfig → LocalCheck → LocalCheckConfig
merge none lc = config_of lc
merge (some c) lc =
    if is_faster lc.interval_ms c.interval_ms then record c { interval_ms = lc.interval_ms } else c

-- What a list of checks makes of what is kept for a key.
abbrev pub merged : Text → List LocalCheck → Option LocalCheckConfig → Option LocalCheckConfig
merged key [] kept = kept
merged key (lc ∷ lcs) kept =
    merged key lcs (if text_eq lc.target_key key then some (merge kept lc) else kept)

add_checks-append :
    (as' bs : List LocalCheck) (m : Dict LocalCheckConfig)
    → add_checks (as' ++ bs) m ≡ add_checks bs (add_checks as' m)
unfolding add_checks
add_checks-append [] bs m = refl
add_checks-append (lc ∷ lcs) bs m = add_checks-append lcs bs (add_check lc m)

pub add_records-all_checks :
    (rs : List Record) (m : Dict LocalCheckConfig) → add_records rs m ≡ add_checks (all_checks rs) m
unfolding add_records add_checks
add_records-all_checks [] m = refl
add_records-all_checks (r ∷ rs) m =
    add_records-all_checks rs (add_checks r.local_checks m)
    ∙ sym (add_checks-append r.local_checks (all_checks rs) m)

get-add_check :
    (key : Text) (lc : LocalCheck) (m : Dict LocalCheckConfig)
    → Dict.get key (add_check lc m)
      ≡ (if text_eq lc.target_key key then some (merge (Dict.get key m) lc) else Dict.get key m)
unfolding add_check
get-add_check key lc m = elim (Option-cases (Dict.get lc.target_key m)) [
  | inl h ↦
      ground (arith, text_eq_iff lc.target_key key, get-put lc.target_key key (config_of lc) m)
  | inr (c, h) ↦ ground (
    arith,
    text_eq_iff lc.target_key key,
    get-put lc.target_key key (record c { interval_ms = lc.interval_ms }) m,
  )
]

pub get-add_checks :
    (key : Text) (lcs : List LocalCheck) (m : Dict LocalCheckConfig)
    → Dict.get key (add_checks lcs m) ≡ merged key lcs (Dict.get key m)
unfolding add_checks
get-add_checks key [] m = refl
get-add_checks key (lc ∷ lcs) m =
    get-add_checks key lcs (add_check lc m) ∙ ap (merged key lcs) (get-add_check key lc m)

-- What is kept for a key behind the first check `first` and the later checks `lcs`.
pub record Fastest (key : Text) (first : LocalCheckConfig) (lcs : List LocalCheck)
    (c : LocalCheckConfig) : Type 0 where
  pub only_interval : c ≡ record first { interval_ms = c.interval_ms }
  pub below_first :
      pos 1 ≤ℤ first.interval_ms → (pos 1 ≤ℤ c.interval_ms) × (c.interval_ms ≤ℤ first.interval_ms)
  pub below :
      All
        (λ (lc : LocalCheck).
          lc.target_key ≡ key
          → pos 1 ≤ℤ lc.interval_ms
          → (pos 1 ≤ℤ c.interval_ms) × (c.interval_ms ≤ℤ lc.interval_ms))
        lcs
  pub attained :
      (c.interval_ms ≡ first.interval_ms)
      ⊎ Any (λ (lc : LocalCheck). (lc.target_key ≡ key) × (lc.interval_ms ≡ c.interval_ms)) lcs

Fastest-nil : (key : Text) (e : LocalCheckConfig) → Fastest key e [] e
Fastest-nil key e = record {
  only_interval = refl;
  below_first = λ h. (h, omega arith);
  below = tt;
  attained = inl refl;
}

Fastest-other :
    (key : Text) (e c : LocalCheckConfig) (lc : LocalCheck) (lcs : List LocalCheck)
    → lc.target_key ≢ key
    → Fastest key e lcs c
    → Fastest key e (lc ∷ lcs) c
Fastest-other key e c lc lcs ne f = record {
  only_interval = f.only_interval;
  below_first = f.below_first;
  below = (λ h. absurd (ne h), f.below);
  attained = elim f.attained [ inl h ↦ inl h | inr h ↦ inr (inr h) ];
}

Fastest-slower :
    (key : Text) (e c : LocalCheckConfig) (lc : LocalCheck) (lcs : List LocalCheck)
    → is_faster lc.interval_ms e.interval_ms ≡ false
    → Fastest key e lcs c
    → Fastest key e (lc ∷ lcs) c
unfolding is_faster
Fastest-slower key e c lc lcs slow f = record {
  only_interval = f.only_interval;
  below_first = f.below_first;
  below = (
    λ h p.
        let first = f.below_first (ground (arith, slow, p)) in
        (first.0, ground (arith, slow, p, first.1)),
    f.below,
  );
  attained = elim f.attained [ inl h ↦ inl h | inr h ↦ inr (inr h) ];
}

Fastest-faster :
    (key : Text) (e c : LocalCheckConfig) (lc : LocalCheck) (lcs : List LocalCheck)
    → lc.target_key ≡ key
    → is_faster lc.interval_ms e.interval_ms ≡ true
    → Fastest key (record e { interval_ms = lc.interval_ms }) lcs c
    → Fastest key e (lc ∷ lcs) c
unfolding is_faster
Fastest-faster key e c lc lcs same fast f =
    let first = f.below_first (ground (arith, fast)) in
    record {
      only_interval = f.only_interval;
      below_first = λ p. (first.0, ground (arith, fast, p, first.1));
      below = (λ h p. first, f.below);
      attained = elim f.attained [ inl h ↦ inr (inl (same, sym h)) | inr h ↦ inr (inr h) ];
    }

pub merged-Fastest :
    (key : Text) (lcs : List LocalCheck) (e : LocalCheckConfig)
    → (c : LocalCheckConfig) × (merged key lcs (some e) ≡ some c) × Fastest key e lcs c
merged-Fastest key [] e = (e, refl, Fastest-nil key e)
merged-Fastest key (lc ∷ lcs) e = elim (Bool-cases (text_eq lc.target_key key)) [
  | inl same ↦ elim (Bool-cases (is_faster lc.interval_ms e.interval_ms)) [
    | inl fast ↦
        let (c, eq, f) = merged-Fastest key lcs (record e { interval_ms = lc.interval_ms }) in
        (
          c,
          rw (same, fast) eq,
          Fastest-faster key e c lc lcs ((text_eq_iff lc.target_key key).0 same) fast f,
        )
    | inr slow ↦
        let (c, eq, f) = merged-Fastest key lcs e in
        (c, rw (same, slow) eq, Fastest-slower key e c lc lcs slow f)
  ]
  | inr other ↦
      let (c, eq, f) = merged-Fastest key lcs e in
      (
        c,
        rw other eq,
        Fastest-other key e c lc lcs (λ h. ground (arith, other, text_eq_iff lc.target_key key)) f,
      )
]
