-- ===== src/Bundle/Cache.antt =====
-- The cache file of internal/bundle/bundle.go: `SaveCache`, call by call, with failures and crashes.
pub mod Atomic
mod Examples
use zeus_gslb.Prelude.{
  take, ℕ, zero, suc, Text, ◌≡◌, ◌⊎◌, refl, inl, inr, Bool, true, false, Option, none, some, List,
  [], ◌∷◌, if◌then◌else◌, arith,
}

-- The two files of the cache directory: `bundle.json` and `bundle.json.tmp`.
pub record Dir : Type 0 where
  pub final : Option Text
  pub tmp : Option Text

-- How a call of the operating system ends: with its effect, with an error and no effect, or with
-- the process dead before or after the effect.
pub data Outcome : Type 0 where
  done fails dies_before dies_after : Outcome

-- The outcomes of the calls of one `SaveCache`. A write that does not succeed has written the first
-- `written` bytes. `removes` says whether `os.Remove` of the temporary file succeeds.
pub record Plan : Type 0 where
  pub mkdir : Outcome
  pub open_tmp : Outcome
  pub write : Outcome
  pub written : ℕ
  pub sync : Outcome
  pub close : Outcome
  pub rename : Outcome
  pub removes : Bool

pub data Status : Type 0 where
  saved failed dead : Status

-- A call that changes the directory from `before` to `after`, to `partly` where it fails.
unfoldable pub call :
    Outcome → Dir → Dir → Dir → (Dir → Dir × Status) → (Dir → Dir × Status) → Dir × Status
call done before partly after go_on give_up = go_on after
call fails before partly after go_on give_up = give_up partly
call dies_before before partly after go_on give_up = (partly, dead)
call dies_after before partly after go_on give_up = (after, dead)

-- The error paths behind the opening, which remove the temporary file.
unfoldable pub remove_tmp : Plan → Dir → Dir × Status
remove_tmp plan d = ((if plan.removes then record d { tmp = none } else d), failed)

unfoldable pub rename_step : Plan → Dir → Dir × Status
rename_step plan d =
    call plan.rename d d (record { final = d.tmp; tmp = none }) (λ d'. (d', saved))
      (remove_tmp plan)

unfoldable pub close_step : Plan → Dir → Dir × Status
close_step plan d = call plan.close d d d (rename_step plan) (remove_tmp plan)

unfoldable pub sync_step : Plan → Dir → Dir × Status
sync_step plan d = call plan.sync d d d (close_step plan) (remove_tmp plan)

unfoldable pub write_step : Plan → Text → Dir → Dir × Status
write_step plan raw d =
    call plan.write d (record d { tmp = some (take plan.written raw) })
      (record d { tmp = some raw }) (sync_step plan) (remove_tmp plan)

unfoldable pub open_step : Plan → Text → Dir → Dir × Status
open_step plan raw d =
    call plan.open_tmp d d (record d { tmp = some [] }) (write_step plan raw) (λ d'. (d', failed))

-- The directory behind `SaveCache`, and whether it returned nil, returned an error, or the process
-- died in it.
unfoldable pub save_cache : Plan → Text → Dir → Dir × Status
save_cache plan raw d = call plan.mkdir d d d (open_step plan raw) (λ d'. (d', failed))
