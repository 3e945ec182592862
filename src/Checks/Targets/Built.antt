-- ===== src/Checks/Targets/Built.antt =====
-- `BuildTargets` as a map from keys to targets.
use zeus_gslb.Prelude.{
  text_eq_ne, Text, text_eq, text_eq_iff, ◌≡◌, ◌≢◌, ◌⊎◌, refl, ap, inl, inr, Bool, Option, none,
  some, List, [], ◌∷◌, ◌++◌, All, if◌then◌else◌, arith, Bool-cases, Option-cases,
}
use mathlib.Core.Option
use zeus_gslb.Prelude.Dict
use zeus_gslb.Prelude.Dict.{Dict, get-put, get-nil, get-cons, IsDistinct, put-IsDistinct}
use zeus_gslb.Bundle.{Record, LocalCheck}
use zeus_gslb.Checks.Prober.{LocalCheckConfig, Prober, new_prober}
use zeus_gslb.Checks.Targets.{
  Target, config_of, is_faster, add_check, add_checks, add_records, targets_of, build_targets,
}
use zeus_gslb.Checks.Targets.Merged.{
  all_checks, merged, add_records-all_checks, get-add_checks, Fastest, merged-Fastest,
}

add_check_new :
    (lc : LocalCheck) (m : Dict LocalCheckConfig)
    → Dict.get lc.target_key m ≡ none
    → add_check lc m ≡ Dict.put lc.target_key (config_of lc) m
unfolding add_check
add_check_new lc m h = ground arith

add_check_old :
    (lc : LocalCheck) (m : Dict LocalCheckConfig) (c : LocalCheckConfig)
    → Dict.get lc.target_key m ≡ some c
    → add_check lc m ≡ (
        if is_faster lc.interval_ms c.interval_ms
        then Dict.put lc.target_key (record c { interval_ms = lc.interval_ms }) m
        else m)
unfolding add_check
add_check_old lc m c h = ground arith

add_check-IsDistinct :
    (lc : LocalCheck) (m : Dict LocalCheckConfig) → IsDistinct m → IsDistinct (add_check lc m)
add_check-IsDistinct lc m d = elim (Option-cases (Dict.get lc.target_key m)) [
  | inl h ↦ rw (add_check_new lc m h) (put-IsDistinct lc.target_key (config_of lc) m d)
  | inr (c, h) ↦ elim (Bool-cases (is_faster lc.interval_ms c.interval_ms)) [
    | inl f ↦
        rw (add_check_old lc m c h, f)
          (put-IsDistinct lc.target_key (record c { interval_ms = lc.interval_ms }) m d)
    | inr f ↦ rw (add_check_old lc m c h, f) d
  ]
]

add_checks-IsDistinct :
    (lcs : List LocalCheck) (m : Dict LocalCheckConfig)
    → IsDistinct m
    → IsDistinct (add_checks lcs m)
unfolding add_checks
add_checks-IsDistinct [] m d = d
add_checks-IsDistinct (lc ∷ lcs) m d =
    add_checks-IsDistinct lcs (add_check lc m) (add_check-IsDistinct lc m d)

-- The target of a configuration, if its probe is one that is known.
abbrev pub target_of : Bool → LocalCheckConfig → Option Target
target_of has_lister cfg =
    Option.map (λ (p : Prober). record { config = cfg; prober = p }) (new_prober cfg has_lister)

get-targets_of :
    (has_lister : Bool) (key : Text) (m : Dict LocalCheckConfig)
    → IsDistinct m
    → Dict.get key (targets_of has_lister m)
      ≡ (elim (Dict.get key m) [ none ↦ none | some c ↦ target_of has_lister c ])
unfolding targets_of
get-targets_of has_lister key [] d = rw (get-nil key, get-nil key) refl
get-targets_of has_lister key ((k, c) ∷ m) d = elim (Option-cases (new_prober c has_lister)) [
  | inl h ↦
      ground
        (arith, d.0, get-cons key k c m, text_eq_iff k key, get-targets_of has_lister key m d.1)
  | inr (p, h) ↦ ground (
    arith,
    d.0,
    get-cons key k c m,
    text_eq_iff k key,
    get-targets_of has_lister key m d.1,
    get-put k key (record { config = c; prober = p }) (targets_of has_lister m),
  )
]

targets_of-IsDistinct :
    (has_lister : Bool) (m : Dict LocalCheckConfig) → IsDistinct (targets_of has_lister m)
unfolding targets_of
targets_of-IsDistinct has_lister [] = tt
targets_of-IsDistinct has_lister ((k, c) ∷ m) = elim (Option-cases (new_prober c has_lister)) [
  | inl h ↦ rw (h, IsDistinct) (targets_of-IsDistinct has_lister m)
  | inr (p, h) ↦
      rw (h, IsDistinct)
        (put-IsDistinct k (record { config = c; prober = p }) (targets_of has_lister m)
          (targets_of-IsDistinct has_lister m))
]

-- The targets that are built have distinct keys.
pub build_targets-IsDistinct :
    (has_lister : Bool) (rs : List Record) → IsDistinct (build_targets has_lister rs)
unfolding build_targets
build_targets-IsDistinct has_lister rs = targets_of-IsDistinct has_lister (add_records rs [])

-- What `BuildTargets` has for a key, by the checks of all records: the first check with that key
-- and the later ones decide it.
pub record Built (has_lister : Bool) (key : Text) (checks : List LocalCheck) (out : Option Target)
    : Type 0 where
  pub before : List LocalCheck
  pub first : LocalCheck
  pub later : List LocalCheck
  pub config : LocalCheckConfig
  pub whole : checks ≡ before ++ first ∷ later
  pub none_before : All (λ (lc : LocalCheck). lc.target_key ≢ key) before
  pub own : first.target_key ≡ key
  pub fastest : Fastest key (config_of first) later config
  pub result : out ≡ target_of has_lister config

Built-cons :
    {has_lister : Bool} {key : Text} {checks : List LocalCheck} {out : Option Target}
    (lc : LocalCheck)
    → lc.target_key ≢ key
    → Built has_lister key checks out
    → Built has_lister key (lc ∷ checks) out
Built-cons lc ne b = record {
  before = lc ∷ b.before;
  first = b.first;
  later = b.later;
  config = b.config;
  whole = ap (◌∷◌ lc) b.whole;
  none_before = (ne, b.none_before);
  own = b.own;
  fastest = b.fastest;
  result = b.result;
}

merged_split :
    (key : Text) (checks : List LocalCheck)
    → (All (λ (lc : LocalCheck). lc.target_key ≢ key) checks × (merged key checks none ≡ none))
      ⊎ ((c : LocalCheckConfig) × (merged key checks none ≡ some c)
          × ((has_lister : Bool) → Built has_lister key checks (target_of has_lister c)))
merged_split key [] = inl (tt, refl)
merged_split key (lc ∷ lcs) = elim (Bool-cases (text_eq lc.target_key key)) [
  | inl h ↦
      let (c, eq, f) = merged-Fastest key lcs (config_of lc) in
      inr (
        c,
        rw h eq,
        λ has_lister. record {
          before = [];
          first = lc;
          later = lcs;
          config = c;
          whole = refl;
          none_before = tt;
          own = (text_eq_iff lc.target_key key).0 h;
          fastest = f;
          result = refl;
        },
      )
  | inr h ↦ elim (merged_split key lcs) [
    | inl (a, n) ↦ inl ((text_eq_ne h, a), rw h n)
    | inr (c, eq, b) ↦ inr (c, rw h eq, λ has_lister. Built-cons lc (text_eq_ne h) (b has_lister))
  ]
]

get-built :
    (has_lister : Bool) (key : Text) (rs : List Record)
    → Dict.get key (build_targets has_lister rs)
      ≡ (elim (merged key (all_checks rs) none) [ none ↦ none | some c ↦ target_of has_lister c ])
unfolding build_targets
get-built has_lister key rs = rw (add_records-all_checks rs []) (
    rw
      (get-targets_of has_lister key (add_checks (all_checks rs) [])
        (add_checks-IsDistinct (all_checks rs) [] tt))
      (rw (get-add_checks key (all_checks rs) [], get-nil key) refl))

-- For each key, `BuildTargets` has no target where no record has a check with that key; and else
-- the configuration of the first check with the key, at the least positive interval that a check
-- with the key asks for, with its prober, unless its probe is of an unknown type. So a check that
-- is skipped leaves the targets of all other keys as they are.
pub build_targets-Built :
    (has_lister : Bool) (key : Text) (rs : List Record)
    → (All (λ (lc : LocalCheck). lc.target_key ≢ key) (all_checks rs)
        × (Dict.get key (build_targets has_lister rs) ≡ none))
      ⊎ Built has_lister key (all_checks rs) (Dict.get key (build_targets has_lister rs))
build_targets-Built has_lister key rs = elim (merged_split key (all_checks rs)) [
  | inl (a, n) ↦ inl (a, ground (arith, get-built has_lister key rs, n))
  | inr (c, eq, b) ↦ inr (rw (get-built has_lister key rs, eq) (b has_lister))
]
