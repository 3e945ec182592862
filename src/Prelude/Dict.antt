-- ===== src/Prelude/Dict.antt =====
-- Go maps from strings, as association lists with one entry for each key.
use mathlib.Core.Path.{◌≡◌, refl, subst}
use mathlib.Core.Logic.{◌≢◌, inl, inr}
use mathlib.Core.Option.{Option, none, some}
use mathlib.Core.List.{List, [], ◌∷◌}
use native.Mathlib.Omega.{arith}
use zeus_gslb.Prelude.Tests.{if◌then◌else◌, Bool-cases}
use zeus_gslb.Prelude.Bytes.{Text, text_eq, text_eq_iff, text_eq_refl}

abbrev pub Dict {ℓ} : Type ℓ → Type ℓ
Dict V = List (Text × V)

module _ {ℓ} {V : Type ℓ} where
  -- `v, ok := m[k]`
  unfoldable pub get : Text → Dict V → Option V
  get k [] = none
  get k ((j, v) ∷ m) = if text_eq j k then some v else get k m

  -- `m[k] = v`
  unfoldable pub put : Text → V → Dict V → Dict V
  put k v [] = (k, v) ∷ []
  put k v ((j, w) ∷ m) = if text_eq j k then (k, v) ∷ m else (j, w) ∷ put k v m

  pub get-put :
      (k j : Text) (v : V) (m : Dict V)
      → get j (put k v m) ≡ (if text_eq k j then some v else get j m)
  unfolding get put
  get-put k j v [] = refl
  get-put k j v ((i, w) ∷ m) =
      ground (arith, text_eq_iff k j, text_eq_iff i k, text_eq_iff i j, get-put k j v m)

  pub get-put_self : (k : Text) (v : V) (m : Dict V) → get k (put k v m) ≡ some v
  get-put_self k v m = ground (arith, get-put k k v m, text_eq_refl k)

  pub get-put_ne : (k j : Text) (v : V) (m : Dict V) → k ≢ j → get j (put k v m) ≡ get j m
  get-put_ne k j v m h = ground (arith, get-put k j v m, text_eq_iff k j)

  pub get-nil : (k : Text) → get k [] ≡ none
  unfolding get
  get-nil k = refl

  pub get-cons :
      (k j : Text) (v : V) (m : Dict V)
      → get k ((j, v) ∷ m) ≡ (if text_eq j k then some v else get k m)
  unfolding get
  get-cons k j v m = refl

  -- One entry for each key.
  abbrev pub IsDistinct : Dict V → Type ℓ
  IsDistinct [] = Unit
  IsDistinct ((k, v) ∷ m) = (get k m ≡ none) × IsDistinct m

  pub put-IsDistinct : (k : Text) (v : V) (m : Dict V) → IsDistinct m → IsDistinct (put k v m)
  unfolding put
  put-IsDistinct k v [] d = (get-nil k, tt)
  put-IsDistinct k v ((j, w) ∷ m) d = elim (Bool-cases (text_eq j k)) [
    | inl h ↦ rw h (subst (λ i. get i m ≡ none) ((text_eq_iff j k).0 h) d.0, d.1)
    | inr h ↦ rw h (
      ground (arith, d.0, get-put k j v m, text_eq_iff j k, text_eq_iff k j),
      put-IsDistinct k v m d.1,
    )
  ]
