-- ===== src/Bundle/Cache/Atomic.antt =====
-- What a crash or an error in `SaveCache` can leave behind.
use zeus_gslb.Prelude.{Text, ◌≡◌, ◌⊎◌, Option, none, some, arith}
use zeus_gslb.Bundle.Cache.{
  Dir, Plan, Status, saved, failed, call, remove_tmp, rename_step, close_step, sync_step,
  write_step, open_step, save_cache,
}

-- What holds of a directory whose cache file was `old` while the bytes `raw` were saved.
pub record Atomic (old : Option Text) (raw : Text) (out : Dir × Status) : Type 0 where
  pub whole : (out.0.final ≡ old) ⊎ (out.0.final ≡ some raw)
  pub on_saved : out.1 ≡ saved → out.0 ≡ record { final = some raw; tmp = none }
  pub on_failed : out.1 ≡ failed → out.0.final ≡ old

-- Whatever its calls do and wherever the process dies, the cache file holds what it held before or
-- all of the new bytes; it holds the new bytes if `SaveCache` returns nil, and what it held before
-- if it returns an error.
pub save_cache-Atomic :
    (plan : Plan) (raw : Text) (d : Dir) → Atomic d.final raw (save_cache plan raw d)
unfolding call remove_tmp rename_step close_step sync_step write_step open_step save_cache
save_cache-Atomic plan raw d = record {
  whole = ground arith;
  on_saved = λ h. ground arith;
  on_failed = λ h. ground arith;
}
