-- ===== src/Bundle/Store.antt =====
-- internal/bundle/store.go: the bundle that is served, its hot reload and its replacement. What the
-- bundle file holds comes as an argument. Where the process dies inside `SaveCache`, only the
-- directory that is returned has a meaning.
pub mod Loaded
pub mod Reloads
pub mod Restart
mod Examples
use zeus_gslb.Prelude.{
  ℕ, Text, text_eq, Time, zero_time, Bool, true, false, not, ◌&&◌, Option, none, some, List, [],
  ◌∷◌, length, ◌==◌, if◌then◌else◌,
}
use zeus_gslb.Prelude.Result.{Result, ok, err, ◌>>=◌}
use zeus_gslb.Bundle.{Bundle}
use zeus_gslb.Bundle.Validate.{LoadError, unreadable, parse_and_validate, load_file}
use zeus_gslb.Bundle.Cache.{Dir, Plan, save_cache}

pub record Store : Type 0 where
  pub current : Option Bundle
  pub mod_time : Time

abbrev pub no_bundle : Store
no_bundle = record { current = none; mod_time = zero_time }

-- `setCurrent`, which sets both fields under the lock.
abbrev pub set_current : Bundle → Time → Store
set_current b mt = record { current = some b; mod_time = mt }

-- What the calls on the bundle file return: its mtime, and its bytes at each of two reads.
pub record BundleFile : Type 0 where
  pub stat : Option Time
  pub first_read : Option Text
  pub second_read : Option Text

-- Whether the bundle has a hash and it is that of the current one.
unfoldable pub same_hash : Option Bundle → Bundle → Bool
same_hash none b = false
same_hash (some c) b = not (length b.content_hash == 0) && text_eq c.content_hash b.content_hash

-- What reaches the store of a running responder: a tick of `WatchAndReload`, with what the calls
-- on the bundle file return, and a call of `ApplyIfChanged`.
pub data Event : Type 0 where
  tick : Plan → Option Time → Option Text → Event
  offered : Plan → Text → Time → Event

module _ (unmarshal : Text → Option Bundle) where
  unfoldable pub load_cache : Dir → Result LoadError Bundle
  unfolding load_file
  load_cache d = load_file unmarshal d.final

  unfoldable pub try_load_bundle_file : BundleFile → Result LoadError (Bundle × Time)
  try_load_bundle_file f = elim f.stat [
    | none ↦ err unreadable
    | some mt ↦ load_file unmarshal f.first_read >>= λ b. ok (b, mt)
  ]

  -- The second read of the file is saved as it is.
  unfoldable pub new_store : Plan → BundleFile → Dir → Dir × Result LoadError Store
  new_store plan f d = elim (try_load_bundle_file f) [
    | ok (b, mt) ↦ (
      (elim f.second_read [ none ↦ d | some raw ↦ (save_cache plan raw d).0 ]),
      ok (set_current b mt),
    )
    | err e ↦ (d, load_cache d >>= λ b. ok (set_current b zero_time))
  ]

  unfoldable pub apply_bundle :
      Plan → Text → Time → Store → Dir → Store × Dir × Result LoadError Bundle
  apply_bundle plan raw mt s d = elim (parse_and_validate unmarshal raw) [
    | err e ↦ (s, d, err e)
    | ok b ↦ (set_current b mt, (save_cache plan raw d).0, ok b)
  ]

  -- `fi.ModTime()` differs from the recorded time, and the bytes of the file are `read`.
  unfoldable pub reload_changed : Plan → Time → Option Text → Store → Dir → Store × Dir
  reload_changed plan mt none s d = (s, d)
  reload_changed plan mt (some raw) s d =
      let (s', d', result) = apply_bundle plan raw mt s d in
      elim result [ ok b ↦ (s', d') | err e ↦ (record s' { mod_time = mt }, d') ]

  unfoldable pub reload_if_changed : Plan → Option Time → Option Text → Store → Dir → Store × Dir
  reload_if_changed plan none read s d = (s, d)
  reload_if_changed plan (some mt) read s d =
      if mt == s.mod_time then (s, d) else reload_changed plan mt read s d

  unfoldable pub apply_if_changed :
      Plan → Text → Time → Store → Dir → Store × Dir × Result LoadError Bool
  apply_if_changed plan raw now s d = elim (parse_and_validate unmarshal raw) [
    | err e ↦ (s, d, err e)
    | ok b ↦
        let (s', d', result) = apply_bundle plan raw now s d in
        if same_hash s.current b then (s, d, ok false) else (s', d', result >>= λ _. ok true)
  ]

  unfoldable pub handle : Event → Store × Dir → Store × Dir
  handle (tick plan stat read) (s, d) = reload_if_changed plan stat read s d
  handle (offered plan raw now) (s, d) =
      let (s', d', result) = apply_if_changed plan raw now s d in (s', d')

  -- The events in the order in which they take effect.
  unfoldable pub run : List Event → Store × Dir → Store × Dir
  run [] x = x
  run (e ∷ es) x = run es (handle e x)
