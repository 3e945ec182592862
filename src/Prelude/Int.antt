-- ===== src/Prelude/Int.antt =====
-- Go's `int` and `int64`: integers over the native numbers, with the wrap-around of 64 bits.
use zeus_gslb.Prelude.Tests.{ltb, leb, ◌==◌, if◌then◌else◌}
use Prim.Native.Nat.{ℕ, zero, suc, ◌+◌, ◌-◌, ◌*◌, ◌%◌, ◌^◌, ◌≤◌, ◌<◌}
use mathlib.Core.Path.{◌≡◌}
use mathlib.Core.Bool.{Bool}
use native.Mathlib.Omega.{arith}

-- `negsuc n` is -(n + 1).
pub data ℤ : Type 0 where
  pos : ℕ → ℤ
  negsuc : ℕ → ℤ

abbrev pub pos_part : ℤ → ℕ
pos_part (pos n) = n
pos_part (negsuc n) = 0

abbrev pub neg_part : ℤ → ℕ
neg_part (pos n) = 0
neg_part (negsuc n) = suc n

infix 50 ◌≤ℤ◌
abbrev pub ◌≤ℤ◌ : ℤ → ℤ → Type 0
a ≤ℤ b = pos_part a + neg_part b ≤ pos_part b + neg_part a

abbrev pub ltb_ℤ : ℤ → ℤ → Bool
ltb_ℤ a b = ltb (pos_part a + neg_part b) (pos_part b + neg_part a)

abbrev pub leb_ℤ : ℤ → ℤ → Bool
leb_ℤ a b = leb (pos_part a + neg_part b) (pos_part b + neg_part a)

abbrev pub eq_ℤ : ℤ → ℤ → Bool
eq_ℤ a b = pos_part a + neg_part b == pos_part b + neg_part a

-- The bit pattern of an integer as an unsigned number below the modulus, which is not 0.
abbrev pub residue : ℕ → ℤ → ℕ
residue m (pos n) = n % m
residue m (negsuc n) = m - 1 - n % m

-- The signed 64-bit integer with that bit pattern.
abbrev pub signed64 : ℕ → ℤ
signed64 u = if ltb u (2 ^ 63) then pos u else negsuc (2 ^ 64 - 1 - u)

abbrev pub wrap64 : ℤ → ℤ
wrap64 z = signed64 (residue (2 ^ 64) z)

-- `x++`
unfoldable pub incr : ℤ → ℤ
incr (pos n) = wrap64 (pos (n + 1))
incr (negsuc zero) = pos 0
incr (negsuc (suc n)) = negsuc n

-- `x * k` for a constant that is not negative
unfoldable pub scale : ℤ → ℕ → ℤ
scale (pos n) k = wrap64 (pos (n * k))
scale (negsuc n) zero = pos 0
scale (negsuc n) (suc k) = wrap64 (negsuc (suc n * suc k - 1))

-- `x * y`
unfoldable pub mul : ℤ → ℤ → ℤ
mul (pos n) (pos k) = wrap64 (pos (n * k))
mul (pos zero) (negsuc k) = pos 0
mul (pos (suc n)) (negsuc k) = wrap64 (negsuc (suc n * suc k - 1))
mul (negsuc n) (pos zero) = pos 0
mul (negsuc n) (pos (suc k)) = wrap64 (negsuc (suc n * suc k - 1))
mul (negsuc n) (negsuc k) = wrap64 (pos (suc n * suc k))

-- `uint32(x)`
unfoldable pub to_uint32 : ℤ → ℕ
to_uint32 = residue (2 ^ 32)

-- Below the largest `int` a counter goes up by one.
pub incr-pos : (n : ℕ) → n + 1 < 2 ^ 63 → incr (pos n) ≡ pos (n + 1)
unfolding incr
incr-pos n h = ground arith

-- A product that fits is exact.
pub scale-pos : (n k : ℕ) → n * k < 2 ^ 63 → scale (pos n) k ≡ pos (n * k)
unfolding scale
scale-pos n k h = ground arith

pub to_uint32-pos : (n : ℕ) → n < 2 ^ 32 → to_uint32 (pos n) ≡ n
unfolding to_uint32
to_uint32-pos n h = omega arith

pub to_uint32-lt : (x : ℤ) → to_uint32 x < 2 ^ 32
unfolding to_uint32
to_uint32-lt (pos n) = omega arith
to_uint32-lt (negsuc n) = omega arith
