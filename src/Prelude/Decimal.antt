-- ===== src/Prelude/Decimal.antt =====
-- `strconv.Itoa`: the decimal digits of an integer, which determine it.
use zeus_gslb.Prelude.Tests.{ltb, ◌==◌, if◌then◌else◌, Bool-cases}
use zeus_gslb.Prelude.Bytes.{Text}
use zeus_gslb.Prelude.Lists.{any}
use zeus_gslb.Prelude.Int.{ℤ, pos, negsuc}
use Prim.Native.Nat.{ℕ, zero, suc, ◌+◌, ◌-◌, ◌*◌, ◌/◌, ◌%◌, ◌<◌}
use mathlib.Core.Path.{◌≡◌, refl, ap, sym, ◌∙◌}
use mathlib.Core.Logic.{inl, inr}
use mathlib.Core.Bool.{Bool, true, false}
use mathlib.Core.List.{[], ◌∷◌, ◌++◌}
use native.Mathlib.Omega.{arith}

-- With more fuel than the number, which is more than its digits.
digits_within : ℕ → ℕ → Text
digits_within zero n = []
digits_within (suc fuel) n =
    let front = digits_within fuel (n / 10) in
    if ltb n 10 then (48 + n) ∷ [] else front ++ (48 + n % 10) ∷ []

unfoldable pub digits : ℕ → Text
unfolding digits_within
digits n = digits_within (suc n) n

unfoldable pub itoa : ℤ → Text
unfolding digits
itoa (pos n) = digits n
itoa (negsuc n) = b'-' ∷ digits (suc n)

-- The number that a row of digits stands for, read on from `acc`.
value : ℕ → Text → ℕ
value acc [] = acc
value acc (c ∷ s) = value (acc * 10 + (c - 48)) s

value-append : (acc : ℕ) (s t : Text) → value acc (s ++ t) ≡ value (value acc s) t
unfolding value
value-append acc [] t = refl
value-append acc (c ∷ s) t = value-append (acc * 10 + (c - 48)) s t

value-digits_within : (fuel n : ℕ) → n < fuel → value 0 (digits_within fuel n) ≡ n
unfolding value digits_within
value-digits_within zero n h = elim h [ ]
value-digits_within (suc fuel) n h = elim (Bool-cases (ltb n 10)) [
  | inl small ↦ rw small (omega arith)
  | inr large ↦ rw (large, value-append) (ground (arith, value-digits_within fuel (n / 10)))
]

value-digits : (n : ℕ) → value 0 (digits n) ≡ n
unfolding digits
value-digits n = value-digits_within (suc n) n (omega arith)

-- Every byte is a digit.
abbrev is_digit : ℕ → Bool
is_digit c = if ltb c 48 then false else ltb c 58

abbrev other_than_digit : ℕ → Bool
other_than_digit c = if is_digit c then false else true

any-append :
    (p : ℕ → Bool) (s t : Text) → any p s ≡ false → any p t ≡ false → any p (s ++ t) ≡ false
any-append p [] t hs ht = ht
any-append p (c ∷ s) t hs ht = ground (arith, any-append p s t)

digits_within-all : (fuel n : ℕ) → any other_than_digit (digits_within fuel n) ≡ false
unfolding digits_within
digits_within-all zero n = refl
digits_within-all (suc fuel) n = elim (Bool-cases (ltb n 10)) [
  | inl small ↦ rw small (ground arith)
  | inr large ↦ rw large (
      any-append other_than_digit (digits_within fuel (n / 10)) ((48 + n % 10) ∷ [])
        (digits_within-all fuel (n / 10)) (ground arith))
]

any_mono :
    (p q : ℕ → Bool) (s : Text)
    → ((c : ℕ) → p c ≡ true → q c ≡ true)
    → any q s ≡ false
    → any p s ≡ false
any_mono p q [] h n = refl
any_mono p q (c ∷ s) h n = ground (arith, h c, any_mono p q s h)

-- A colon does not occur in a decimal number.
abbrev pub is_colon : ℕ → Bool
is_colon c = c == b':'

digits_no_colon : (n : ℕ) → any is_colon (digits n) ≡ false
unfolding digits
digits_no_colon n =
    any_mono is_colon other_than_digit (digits_within (suc n) n) (λ c h. ground arith)
      (digits_within-all (suc n) n)

pub itoa_no_colon : (z : ℤ) → any is_colon (itoa z) ≡ false
unfolding itoa
itoa_no_colon (pos n) = digits_no_colon n
itoa_no_colon (negsuc n) = digits_no_colon (suc n)

-- The integer back from its digits.
unitoa : Text → ℤ
unitoa [] = pos 0
unitoa (c ∷ s) = if c == b'-' then negsuc (value 0 s - 1) else pos (value 0 (c ∷ s))

unitoa-digits : (s : Text) → any other_than_digit s ≡ false → unitoa s ≡ pos (value 0 s)
unfolding unitoa value
unitoa-digits [] h = refl
unitoa-digits (c ∷ s) h = ground arith

unitoa-itoa : (z : ℤ) → unitoa (itoa z) ≡ z
unfolding itoa
unitoa-itoa (pos n) =
    unitoa-digits (digits n) (unfold digits in digits_within-all (suc n) n)
    ∙ ap pos (value-digits n)
unitoa-itoa (negsuc n) = unfold unitoa in rw value-digits (ground arith)

pub itoa_injective : (a b : ℤ) → itoa a ≡ itoa b → a ≡ b
itoa_injective a b h = sym (unitoa-itoa a) ∙ ap unitoa h ∙ unitoa-itoa b
