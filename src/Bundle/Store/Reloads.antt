-- ===== src/Bundle/Store/Reloads.antt =====
-- What a run of the store keeps: the bundle that is served is valid, and a cache that can be loaded
-- stays one.
use zeus_gslb.Prelude.{
  Text, Time, ◌≡◌, ap, ◌∙◌, Option, none, some, List, [], ◌∷◌, ◌==◌, arith, Bool-cases, inl, inr,
}
use zeus_gslb.Prelude.Result.{ok, Result-cases}
use zeus_gslb.Bundle.{Bundle}
use zeus_gslb.Bundle.Validate.{parse_and_validate, load_file}
use zeus_gslb.Bundle.Cache.{Dir, Plan, save_cache}
use zeus_gslb.Bundle.Cache.Atomic.{save_cache-Atomic}
use zeus_gslb.Bundle.Store.{
  Store, load_cache, reload_changed, reload_if_changed, apply_if_changed, same_hash, Event, tick,
  offered, handle, run,
}
use zeus_gslb.Bundle.Store.Loaded.{
  IsLoaded, apply_if_changed_refused, apply_if_changed_same, apply_if_changed_taken,
  apply_if_changed-IsLoaded, reload_if_changed-IsLoaded, reload_changed_refused,
  reload_changed_taken,
}

module _ (unmarshal : Text → Option Bundle) where
  pub handle-IsLoaded :
      (e : Event) (x : Store × Dir) → IsLoaded x.0 → IsLoaded (handle unmarshal e x).0
  unfolding handle
  handle-IsLoaded (tick plan stat read) (s, d) l =
      reload_if_changed-IsLoaded unmarshal plan s d stat read l
  handle-IsLoaded (offered plan raw now) (s, d) l =
      apply_if_changed-IsLoaded unmarshal plan raw now s d l

  -- A store that serves a valid bundle serves one after any sequence of reload ticks and offered
  -- bundles, whatever the files hold, whatever is offered and however the saving ends.
  pub run-IsLoaded :
      (es : List Event) (x : Store × Dir) → IsLoaded x.0 → IsLoaded (run unmarshal es x).0
  unfolding run
  run-IsLoaded [] x l = l
  run-IsLoaded (e ∷ es) x l = run-IsLoaded es (handle unmarshal e x) (handle-IsLoaded e x l)

  -- The cache file holds a bundle that loads.
  abbrev pub IsUsable : Dir → Type 0
  IsUsable d = (b : Bundle) × (load_cache unmarshal d ≡ ok b)

  pub load_cache_final :
      (d : Dir) (raw : Text) (b : Bundle)
      → d.final ≡ some raw
      → parse_and_validate unmarshal raw ≡ ok b
      → load_cache unmarshal d ≡ ok b
  unfolding load_cache load_file
  load_cache_final d raw b f h = ground arith

  load_cache_same :
      (d d' : Dir) → d'.final ≡ d.final → load_cache unmarshal d' ≡ load_cache unmarshal d
  unfolding load_cache
  load_cache_same d d' f = ap (load_file unmarshal) f

  pub save_cache-IsUsable :
      (plan : Plan) (raw : Text) (b : Bundle) (d : Dir)
      → parse_and_validate unmarshal raw ≡ ok b
      → IsUsable d
      → IsUsable (save_cache plan raw d).0
  save_cache-IsUsable plan raw b d h u = elim (save_cache-Atomic plan raw d).whole [
    | inl old ↦ (u.0, load_cache_same d (save_cache plan raw d).0 old ∙ u.1)
    | inr new ↦ (b, load_cache_final (save_cache plan raw d).0 raw b new h)
  ]

  reload_changed-IsUsable :
      (plan : Plan) (mt : Time) (read : Option Text) (s : Store) (d : Dir)
      → IsUsable d
      → IsUsable (reload_changed unmarshal plan mt read s d).1
  unfolding reload_changed
  reload_changed-IsUsable plan mt none s d u = u
  reload_changed-IsUsable plan mt (some raw) s d u =
      elim (Result-cases (parse_and_validate unmarshal raw)) [
        | inl (e, q) ↦ rw (reload_changed_refused unmarshal plan raw mt s d e q) u
        | inr (b, q) ↦
            rw (reload_changed_taken unmarshal plan raw mt s d b q)
              (save_cache-IsUsable plan raw b d q u)
      ]

  reload_if_changed-IsUsable :
      (plan : Plan) (stat : Option Time) (read : Option Text) (s : Store) (d : Dir)
      → IsUsable d
      → IsUsable (reload_if_changed unmarshal plan stat read s d).1
  unfolding reload_if_changed
  reload_if_changed-IsUsable plan none read s d u = u
  reload_if_changed-IsUsable plan (some mt) read s d u = elim (Bool-cases (mt == s.mod_time)) [
    | inl h ↦ rw h u
    | inr h ↦ rw h (reload_changed-IsUsable plan mt read s d u)
  ]

  apply_if_changed-IsUsable :
      (plan : Plan) (raw : Text) (now : Time) (s : Store) (d : Dir)
      → IsUsable d
      → IsUsable (apply_if_changed unmarshal plan raw now s d).1
  apply_if_changed-IsUsable plan raw now s d u =
      elim (Result-cases (parse_and_validate unmarshal raw)) [
        | inl (e, h) ↦ rw (apply_if_changed_refused unmarshal plan raw now s d e h) u
        | inr (b, h) ↦ elim (Bool-cases (same_hash s.current b)) [
          | inl same ↦ rw (apply_if_changed_same unmarshal plan raw now s d b h same) u
          | inr other ↦
              rw (apply_if_changed_taken unmarshal plan raw now s d b h other)
                (save_cache-IsUsable plan raw b d h u)
        ]
      ]

  pub handle-IsUsable :
      (e : Event) (x : Store × Dir) → IsUsable x.1 → IsUsable (handle unmarshal e x).1
  unfolding handle
  handle-IsUsable (tick plan stat read) (s, d) u = reload_if_changed-IsUsable plan stat read s d u
  handle-IsUsable (offered plan raw now) (s, d) u = apply_if_changed-IsUsable plan raw now s d u

  -- A cache that can be loaded can be loaded after any sequence of reload ticks and offered
  -- bundles, however each saving ends, a crash in the middle of it included.
  pub run-IsUsable :
      (es : List Event) (x : Store × Dir) → IsUsable x.1 → IsUsable (run unmarshal es x).1
  unfolding run
  run-IsUsable [] x u = u
  run-IsUsable (e ∷ es) x u = run-IsUsable es (handle unmarshal e x) (handle-IsUsable e x u)
