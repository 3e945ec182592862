-- ===== src/Bundle/Store/Restart.antt =====
-- `NewStore`, and what a second reload, a second push and a restart find.
use mathlib.Core.Path.{subst}
use zeus_gslb.Prelude.{
  Text, text_eq_refl, Time, zero_time, ◌≡◌, ◌≢◌, refl, sym, ap, ◌∙◌, true, false, Option, none,
  some, [], ◌==◌, arith, Bool-cases, inl, inr,
}
use zeus_gslb.Prelude.Result.{Result, ok, err, Result-cases, ok-injective}
use zeus_gslb.Bundle.{Bundle}
use zeus_gslb.Bundle.Validate.Valid.{length-ne-zero}
use zeus_gslb.Bundle.Validate.{LoadError, unreadable, parse_and_validate, load_file}
use zeus_gslb.Bundle.Cache.{Dir, Plan, saved, save_cache}
use zeus_gslb.Bundle.Cache.Atomic.{save_cache-Atomic}
use zeus_gslb.Bundle.Store.{
  Store, BundleFile, load_cache, try_load_bundle_file, new_store, apply_bundle, reload_changed,
  reload_if_changed, apply_if_changed, same_hash,
}
use zeus_gslb.Bundle.Store.Loaded.{
  IsLoaded, err-ne-ok, IsValid-of_load, IsValid-of_cache, apply_bundle_taken, apply_if_changed_same,
  apply_if_changed_taken, reload_changed_refused, reload_changed_taken,
}
use zeus_gslb.Bundle.Store.Reloads.{IsUsable, load_cache_final}

module _ (unmarshal : Text → Option Bundle) where
  load_of_try :
      (f : BundleFile) (b : Bundle) (mt : Time)
      → try_load_bundle_file unmarshal f ≡ ok (b, mt)
      → load_file unmarshal f.first_read ≡ ok b
  unfolding try_load_bundle_file
  load_of_try f b mt h = ground arith

  try_none : (f : BundleFile) → f.stat ≡ none → try_load_bundle_file unmarshal f ≡ err unreadable
  unfolding try_load_bundle_file
  try_none f h = rw h refl

  try_some :
      (f : BundleFile) (mt : Time) (b : Bundle)
      → f.stat ≡ some mt
      → load_file unmarshal f.first_read ≡ ok b
      → try_load_bundle_file unmarshal f ≡ ok (b, mt)
  unfolding try_load_bundle_file
  try_some f mt b h q = ground arith

  new_store_cache :
      (plan : Plan) (f : BundleFile) (d : Dir) (b : Bundle) (e : LoadError)
      → try_load_bundle_file unmarshal f ≡ err e
      → load_cache unmarshal d ≡ ok b
      → new_store unmarshal plan f d ≡ (d, ok (record { current = some b; mod_time = zero_time }))
  unfolding new_store
  new_store_cache plan f d b e h q = ground arith

  new_store_dead :
      (plan : Plan) (f : BundleFile) (d : Dir) (e e' : LoadError)
      → try_load_bundle_file unmarshal f ≡ err e
      → load_cache unmarshal d ≡ err e'
      → new_store unmarshal plan f d ≡ (d, err e')
  unfolding new_store
  new_store_dead plan f d e e' h q = ground arith

  new_store_serves :
      (plan : Plan) (f : BundleFile) (d : Dir) (b : Bundle) (mt : Time)
      → try_load_bundle_file unmarshal f ≡ ok (b, mt)
      → (new_store unmarshal plan f d).1 ≡ ok (record { current = some b; mod_time = mt })
  unfolding new_store
  new_store_serves plan f d b mt h = ground arith

  new_store_file :
      (plan : Plan) (f : BundleFile) (d : Dir) (b : Bundle) (mt : Time) (raw : Text)
      → try_load_bundle_file unmarshal f ≡ ok (b, mt)
      → f.second_read ≡ some raw
      → new_store unmarshal plan f d
        ≡ ((save_cache plan raw d).0, ok (record { current = some b; mod_time = mt }))
  unfolding new_store
  new_store_file plan f d b mt raw h q = ground arith

  load_cache_refused :
      (d : Dir) (raw : Text) (e : LoadError)
      → d.final ≡ some raw
      → parse_and_validate unmarshal raw ≡ err e
      → load_cache unmarshal d ≡ err e
  unfolding load_cache load_file
  load_cache_refused d raw e f h = ground arith

  -- What `NewStore` promises of what it returns.
  pub record Started (d : Dir) (out : Dir × Result LoadError Store) : Type 0 where
    pub serves : (s : Store) → out.1 ≡ ok s → IsLoaded s
    pub survives : IsUsable unmarshal d → (s : Store) × (out.1 ≡ ok s)

  -- A store that `NewStore` returns serves a valid bundle, whatever the bundle file and the cache
  -- hold; and with a usable cache it returns one.
  pub new_store-Started :
      (plan : Plan) (f : BundleFile) (d : Dir) → Started d (new_store unmarshal plan f d)
  new_store-Started plan f d = elim (Result-cases (try_load_bundle_file unmarshal f)) [
    | inl (e, h) ↦ elim (Result-cases (load_cache unmarshal d)) [
      | inl (e', q) ↦ rw (new_store_dead plan f d e e' h q) (record {
        serves = λ s z. absurd (err-ne-ok z);
        survives = λ u. absurd (err-ne-ok (sym q ∙ u.1));
      })
      | inr (b, q) ↦ rw (new_store_cache plan f d b e h q) (record {
        serves = λ s z. subst IsLoaded (ok-injective z) (b, refl, IsValid-of_cache unmarshal d b q);
        survives = λ u. (record { current = some b; mod_time = zero_time }, refl);
      })
    ]
    | inr (x, h) ↦ record {
      serves = λ s z.
          subst IsLoaded (ok-injective (sym (new_store_serves plan f d x.0 x.1 h) ∙ z))
            (x.0, refl, IsValid-of_load unmarshal f.first_read x.0 (load_of_try f x.0 x.1 h));
      survives =
          λ u. (record { current = some x.0; mod_time = x.1 }, new_store_serves plan f d x.0 x.1 h);
    }
  ]

  -- A bundle that was applied and saved is served again by a restart that finds no bundle file.
  pub restart_serves :
      (plan plan' : Plan) (raw : Text) (b : Bundle) (mt : Time) (s : Store) (d : Dir)
      (f : BundleFile)
      → parse_and_validate unmarshal raw ≡ ok b
      → (save_cache plan raw d).1 ≡ saved
      → f.stat ≡ none
      → (new_store unmarshal plan' f (apply_bundle unmarshal plan raw mt s d).1).1
        ≡ ok (record { current = some b; mod_time = zero_time })
  restart_serves plan plan' raw b mt s d f h sv st =
      rw (apply_bundle_taken unmarshal plan raw mt s d b h) (
        ground (
          arith,
          try_none f st,
          new_store_cache plan' f (save_cache plan raw d).0 b unreadable (try_none f st) (
              load_cache_final unmarshal (save_cache plan raw d).0 raw b
                (ap (λ x. x.final) ((save_cache-Atomic plan raw d).on_saved sv)) h),
        ))

  -- `NewStore` does not validate what it saves: where the bundle file is replaced by bytes that
  -- `ParseAndValidate` refuses between its two reads, the store starts and, if the saving succeeds,
  -- the cache can no longer be loaded.
  pub new_store_unvalidated :
      (plan : Plan) (f : BundleFile) (d : Dir) (b : Bundle) (mt : Time) (raw : Text) (e : LoadError)
      → f.stat ≡ some mt
      → load_file unmarshal f.first_read ≡ ok b
      → f.second_read ≡ some raw
      → parse_and_validate unmarshal raw ≡ err e
      → (save_cache plan raw d).1 ≡ saved
      → ((new_store unmarshal plan f d).1 ≡ ok (record { current = some b; mod_time = mt }))
        × (¬ IsUsable unmarshal (new_store unmarshal plan f d).0)
  new_store_unvalidated plan f d b mt raw e st fr sr h sv =
      rw (new_store_file plan f d b mt raw (try_some f mt b st fr) sr) (
        refl,
        λ u. err-ne-ok (
            sym (
              load_cache_refused (save_cache plan raw d).0 raw e
                (ap (λ x. x.final) ((save_cache-Atomic plan raw d).on_saved sv)) h)
            ∙ u.1),
      )

  reload_unchanged :
      (plan : Plan) (mt : Time) (read : Option Text) (s : Store) (d : Dir)
      → s.mod_time ≡ mt
      → reload_if_changed unmarshal plan (some mt) read s d ≡ (s, d)
  unfolding reload_if_changed
  reload_unchanged plan mt read s d h = ground arith

  reload_changed_time :
      (plan : Plan) (mt : Time) (raw : Text) (s : Store) (d : Dir)
      → (reload_changed unmarshal plan mt (some raw) s d).0.mod_time ≡ mt
  reload_changed_time plan mt raw s d = elim (Result-cases (parse_and_validate unmarshal raw)) [
    | inl (e, h) ↦ rw (reload_changed_refused unmarshal plan raw mt s d e h) refl
    | inr (b, h) ↦ rw (reload_changed_taken unmarshal plan raw mt s d b h) refl
  ]

  reload_time :
      (plan : Plan) (mt : Time) (raw : Text) (s : Store) (d : Dir)
      → (reload_if_changed unmarshal plan (some mt) (some raw) s d).0.mod_time ≡ mt
  unfolding reload_if_changed
  reload_time plan mt raw s d = elim (Bool-cases (mt == s.mod_time)) [
    | inl h ↦ rw h (ground arith)
    | inr h ↦ rw h (reload_changed_time plan mt raw s d)
  ]

  same_hash_self : (b : Bundle) → b.content_hash ≢ [] → same_hash (some b) b ≡ true
  unfolding same_hash
  same_hash_self b h = rw (length-ne-zero b.content_hash h, text_eq_refl) refl

  -- A tick that reads the changed bundle file settles it: as long as the mtime stays, later ticks
  -- change nothing, whether the bundle was taken or refused.
  pub reload_once :
      (plan plan' : Plan) (mt : Time) (raw : Text) (read : Option Text) (s : Store) (d : Dir)
      → (let (s', d') = reload_if_changed unmarshal plan (some mt) (some raw) s d in
          reload_if_changed unmarshal plan' (some mt) read s' d' ≡ (s', d'))
  reload_once plan plan' mt raw read s d =
      reload_unchanged plan' mt read (reload_if_changed unmarshal plan (some mt) (some raw) s d).0
        (reload_if_changed unmarshal plan (some mt) (some raw) s d).1 (reload_time plan mt raw s d)

  -- Offering the bytes that were applied last changes nothing, if their bundle has a hash.
  pub apply_again :
      (plan plan' : Plan) (raw : Text) (now now' : Time) (s : Store) (d : Dir) (b : Bundle)
      → parse_and_validate unmarshal raw ≡ ok b
      → b.content_hash ≢ []
      → (let (s', d', result) = apply_if_changed unmarshal plan raw now s d in
          apply_if_changed unmarshal plan' raw now' s' d' ≡ (s', d', ok false))
  apply_again plan plan' raw now now' s d b h ne = elim (Bool-cases (same_hash s.current b)) [
    | inl same ↦
        rw (apply_if_changed_same unmarshal plan raw now s d b h same)
          (apply_if_changed_same unmarshal plan' raw now' s d b h same)
    | inr other ↦ rw (apply_if_changed_taken unmarshal plan raw now s d b h other) (
        apply_if_changed_same unmarshal plan' raw now' (record { current = some b; mod_time = now })
          (save_cache plan raw d).0 b h (same_hash_self b ne))
  ]
