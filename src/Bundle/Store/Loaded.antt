-- ===== src/Bundle/Store/Loaded.antt =====
-- The store always serves a valid bundle, and the cache can always be loaded again.
use zeus_gslb.Prelude.{
  Text, Time, ◌≡◌, ◌≢◌, refl, true, false, Option, none, some, ◌==◌, arith, Bool-cases, inl, inr,
}
use zeus_gslb.Prelude.Result.{ok, err, Result-cases}
use zeus_gslb.Bundle.{Bundle}
use zeus_gslb.Bundle.Validate.{LoadError, parse_and_validate, load_file}
use zeus_gslb.Bundle.Validate.Valid.{IsValid, parse_and_validate_iff}
use zeus_gslb.Bundle.Cache.{Dir, Plan, save_cache}
use zeus_gslb.Bundle.Store.{
  Store, load_cache, apply_bundle, reload_changed, reload_if_changed, apply_if_changed, same_hash,
}

-- The store serves a bundle, and that bundle is valid.
abbrev pub IsLoaded : Store → Type 0
IsLoaded s = (b : Bundle) × (s.current ≡ some b) × IsValid b

pub err-ne-ok : {A B : Type 0} {e : A} {b : B} → err e ≢ ok b
err-ne-ok h = ground arith

module _ (unmarshal : Text → Option Bundle) where
  pub IsValid-of_parse :
      (raw : Text) (b : Bundle) → parse_and_validate unmarshal raw ≡ ok b → IsValid b
  IsValid-of_parse raw b h = ((parse_and_validate_iff unmarshal raw b).0 h).1

  pub IsValid-of_load :
      (read : Option Text) (b : Bundle) → load_file unmarshal read ≡ ok b → IsValid b
  unfolding load_file
  IsValid-of_load none b h = cc
  IsValid-of_load (some raw) b h = IsValid-of_parse raw b h

  pub IsValid-of_cache : (d : Dir) (b : Bundle) → load_cache unmarshal d ≡ ok b → IsValid b
  unfolding load_cache
  IsValid-of_cache d b h = IsValid-of_load d.final b h

  module _ (plan : Plan) (raw : Text) (mt : Time) (s : Store) (d : Dir) where
    pub apply_bundle_refused :
        (e : LoadError)
        → parse_and_validate unmarshal raw ≡ err e
        → apply_bundle unmarshal plan raw mt s d ≡ (s, d, err e)
    unfolding apply_bundle
    apply_bundle_refused e h = ground arith

    pub apply_bundle_taken :
        (b : Bundle)
        → parse_and_validate unmarshal raw ≡ ok b
        → apply_bundle unmarshal plan raw mt s d
          ≡ (record { current = some b; mod_time = mt }, (save_cache plan raw d).0, ok b)
    unfolding apply_bundle
    apply_bundle_taken b h = ground arith

    apply_bundle-IsLoaded : IsLoaded s → IsLoaded (apply_bundle unmarshal plan raw mt s d).0
    apply_bundle-IsLoaded l = elim (Result-cases (parse_and_validate unmarshal raw)) [
      | inl (e, h) ↦ rw (apply_bundle_refused e h) l
      | inr (b, h) ↦ rw (apply_bundle_taken b h) (b, refl, IsValid-of_parse raw b h)
    ]

    pub apply_if_changed_refused :
        (e : LoadError)
        → parse_and_validate unmarshal raw ≡ err e
        → apply_if_changed unmarshal plan raw mt s d ≡ (s, d, err e)
    unfolding apply_if_changed
    apply_if_changed_refused e h = ground arith

    pub apply_if_changed_same :
        (b : Bundle)
        → parse_and_validate unmarshal raw ≡ ok b
        → same_hash s.current b ≡ true
        → apply_if_changed unmarshal plan raw mt s d ≡ (s, d, ok false)
    unfolding apply_if_changed
    apply_if_changed_same b h same = ground (arith, apply_bundle_taken b h)

    pub apply_if_changed_taken :
        (b : Bundle)
        → parse_and_validate unmarshal raw ≡ ok b
        → same_hash s.current b ≡ false
        → apply_if_changed unmarshal plan raw mt s d
          ≡ (record { current = some b; mod_time = mt }, (save_cache plan raw d).0, ok true)
    unfolding apply_if_changed
    apply_if_changed_taken b h other = ground (arith, apply_bundle_taken b h)

    pub apply_if_changed-IsLoaded :
        IsLoaded s → IsLoaded (apply_if_changed unmarshal plan raw mt s d).0
    apply_if_changed-IsLoaded l = elim (Result-cases (parse_and_validate unmarshal raw)) [
      | inl (e, h) ↦ rw (apply_if_changed_refused e h) l
      | inr (b, h) ↦ elim (Bool-cases (same_hash s.current b)) [
        | inl same ↦ rw (apply_if_changed_same b h same) l
        | inr other ↦ rw (apply_if_changed_taken b h other) (b, refl, IsValid-of_parse raw b h)
      ]
    ]

    pub reload_changed_refused :
        (e : LoadError)
        → parse_and_validate unmarshal raw ≡ err e
        → reload_changed unmarshal plan mt (some raw) s d ≡ (record s { mod_time = mt }, d)
    unfolding reload_changed
    reload_changed_refused e h = ground (arith, apply_bundle_refused e h)

    pub reload_changed_taken :
        (b : Bundle)
        → parse_and_validate unmarshal raw ≡ ok b
        → reload_changed unmarshal plan mt (some raw) s d
          ≡ (record { current = some b; mod_time = mt }, (save_cache plan raw d).0)
    unfolding reload_changed
    reload_changed_taken b h = ground (arith, apply_bundle_taken b h)

  module _ (plan : Plan) (s : Store) (d : Dir) where
    reload_changed-IsLoaded :
        (mt : Time) (read : Option Text)
        → IsLoaded s
        → IsLoaded (reload_changed unmarshal plan mt read s d).0
    unfolding reload_changed
    reload_changed-IsLoaded mt none l = l
    reload_changed-IsLoaded mt (some raw) l =
        elim (Result-cases (parse_and_validate unmarshal raw)) [
          | inl (e, h) ↦ rw (reload_changed_refused plan raw mt s d e h) (l.0, l.1, l.2)
          | inr (b, h) ↦
              rw (reload_changed_taken plan raw mt s d b h) (b, refl, IsValid-of_parse raw b h)
        ]

    pub reload_if_changed-IsLoaded :
        (stat : Option Time) (read : Option Text)
        → IsLoaded s
        → IsLoaded (reload_if_changed unmarshal plan stat read s d).0
    unfolding reload_if_changed
    reload_if_changed-IsLoaded none read l = l
    reload_if_changed-IsLoaded (some mt) read l = elim (Bool-cases (mt == s.mod_time)) [
      | inl h ↦ rw h l
      | inr h ↦ rw h (reload_changed-IsLoaded mt read l)
    ]
