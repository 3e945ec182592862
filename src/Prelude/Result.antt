-- ===== src/Prelude/Result.antt =====
-- Go results `(value, error)` of which exactly one is set.
use mathlib.Core.Path.{◌≡◌, refl, ap}
use mathlib.Core.Logic.{◌⊎◌, inl, inr}

pub data Result {ℓ} (E A : Type ℓ) : Type ℓ where
  ok : A → Result E A
  err : E → Result E A

infixl 5 ◌>>=◌
abbrev pub ◌>>=◌ {ℓ} : {E A B : Type ℓ} → Result E A → (A → Result E B) → Result E B
ok a >>= f = f a
err e >>= f = err e

pub Result-cases {ℓ} :
    {E A : Type ℓ} (r : Result E A) → ((e : E) × (r ≡ err e)) ⊎ ((a : A) × (r ≡ ok a))
Result-cases (ok a) = inr (a, refl)
Result-cases (err e) = inl (e, refl)

ok_or {ℓ} : {E A : Type ℓ} → A → Result E A → A
ok_or a (ok b) = b
ok_or a (err e) = a

pub ok-injective {ℓ} : {E A : Type ℓ} {a b : A} → Path (Result E A) (ok a) (ok b) → a ≡ b
unfolding ok_or
ok-injective {a = a} h = ap (ok_or a) h

-- A chain that gives a value has had a value of its first step.
pub bind_gives {ℓ} :
    {E A B : Type ℓ} (r : Result E A) (f : A → Result E B) (b : B)
    → Path (Result E B) (r >>= f) (ok b)
    → (a : A) × Path (Result E A) r (ok a) × Path (Result E B) (f a) (ok b)
bind_gives (ok a) f b h = (a, refl, h)
bind_gives (err e) f b h = absurd (cc h)
