-- ===== src/Remote/Backoff/Capped.antt =====
-- `ExponentialBackoff` in closed form.
use zeus_gslb.Prelude.{
  ℕ, zero, suc, ◌-◌, ◌*◌, ◌^◌, ◌≤◌, ◌<◌, ◌≡◌, sym, ap, ◌∙◌, ltb, leb, if◌then◌else◌, arith,
  Bool-cases, inl, inr,
}
use mathlib.Core.Path.{subst}
use native.Mathlib.Nat.{pow-succ', mul_assoc, one-le-pow, mul-one, mul-le-mul_left}
use zeus_gslb.Prelude.Int.{pos, pos_part, scale-pos, ltb_ℤ}
use zeus_gslb.Remote.Backoff.{double_within, exponential_backoff}

abbrev pub at_most : ℕ → ℕ → ℕ
at_most max n = if ltb max n then max else n

pub double_first : (d n : ℕ) → d * 2 ^ suc n ≡ d * 2 * 2 ^ n
double_first d n = ap (λ k. d * k) (pow-succ' 2 n) ∙ sym (mul_assoc d 2 (2 ^ n))

pub grows : (d n : ℕ) → d ≤ d * 2 ^ n
grows d n =
    subst (λ k. k ≤ d * 2 ^ n) (mul-one d) (mul-le-mul_left d (one-le-pow n 2 (omega arith)))

double_within_closed :
    (max n d : ℕ) → max < 2 ^ 62 → double_within (pos max) n (pos d) ≡ pos (at_most max (d * 2 ^ n))
unfolding double_within
double_within_closed max zero d h = rw (mul-one d) (ground arith)
double_within_closed max (suc n) d h = elim (Bool-cases (leb max d)) [
  | inl big ↦ ground (arith, grows d (suc n))
  | inr small ↦
      ground (
        arith,
        double_first d n,
        scale-pos d 2 (ground arith),
        double_within_closed max n (d * 2) h,
      )
]

rounds : (n : ℕ) → pos_part (if ltb_ℤ (pos (suc n)) (pos 1) then pos 1 else pos (suc n)) - 1 ≡ n
rounds n = ground arith

-- For a base that is not negative and a cap below 2^62 ns, which is 146 years, the delay before
-- attempt number n + 1 is the base doubled n times, at most the cap: no product wraps around.
pub exponential_backoff_closed :
    (base max n : ℕ)
    → max < 2 ^ 62
    → exponential_backoff (pos base) (pos max) (pos (suc n)) ≡ pos (at_most max (base * 2 ^ n))
unfolding exponential_backoff
exponential_backoff_closed base max n h = rw (rounds n) (double_within_closed max n base h)
