-- ===== src/Remote/Backoff.antt =====
-- `LinearBackoff` and `ExponentialBackoff` of internal/remote/runner.go. Durations are `int64`.
pub mod Capped
use zeus_gslb.Prelude.{ℕ, zero, suc, ◌-◌, Bool, if◌then◌else◌}
use zeus_gslb.Prelude.Int.{ℤ, pos, negsuc, pos_part, mul, scale, ltb_ℤ, leb_ℤ}

unfoldable pub linear_backoff : ℤ → ℤ → ℤ
linear_backoff step attempt = mul attempt step

-- The loop, with that many rounds left, and the cap behind it.
unfoldable pub double_within : ℤ → ℕ → ℤ → ℤ
double_within max zero d = if ltb_ℤ max d then max else d
double_within max (suc n) d =
    let rest = double_within max n (scale d 2) in if leb_ℤ max d then max else rest

unfoldable pub exponential_backoff : ℤ → ℤ → ℤ → ℤ
exponential_backoff base max attempt =
    double_within max (pos_part (if ltb_ℤ attempt (pos 1) then pos 1 else attempt) - 1) base
