-- ===== src/Remote/Goroutines/Steps.antt =====
-- What single steps of the reporter do to its channel, its callers and what it holds.
use mathlib.Core.List.{append-nil, append_assoc}
use zeus_gslb.Prelude.{
  ℕ, ◌==◌, ==_iff, ◌≡◌, ◌≢◌, ◌⊎◌, refl, sym, ap, ◌∙◌, inl, inr, Bool, true, false, Option, none,
  some, List, [], ◌∷◌, ◌++◌, if◌then◌else◌, Bool-cases,
}
use zeus_gslb.Remote.Reporter.{Transition, HealthReport}
use zeus_gslb.Remote.Reporter.Rounds.{reported}
use zeus_gslb.Remote.Goroutines.{Caller, prepared, appended, Sender, taken, sending, offer, update}

-- The transitions that `sendNow` has taken and not finished with.
abbrev pub in_hand : Sender → List Transition
in_hand (taken ts) = ts
in_hand (sending h) = h.transitions
in_hand _ = []

abbrev pub is_made : Option Bool → Bool
is_made none = false
is_made (some b) = true

-- Behind `ensureInit`.
abbrev pub is_prepared : Caller → Bool
is_prepared (prepared t) = true
is_prepared appended = true
is_prepared _ = false

-- A call that goes on, or begins, wakes nobody less.
pub moved :
    (f : ℕ → Caller) (i : ℕ) (c : Caller)
    → f i ≢ appended
    → (j : ℕ) × (f j ≡ appended)
    → (j : ℕ) × (update f i c j ≡ appended)
moved f i c n (j, h) = elim (Bool-cases (j == i)) [
  | inl same ↦ absurd (n (ap f (sym ((==_iff j i).0 same)) ∙ h))
  | inr other ↦ (j, rw other h)
]

pub update-ready :
    (f : ℕ → Caller) (i : ℕ) (c : Caller) (init init' : Bool)
    → (is_prepared c ≡ true → init' ≡ true)
    → (init ≡ true → init' ≡ true)
    → ((j : ℕ) → is_prepared (f j) ≡ true → init ≡ true)
    → (j : ℕ) → is_prepared (update f i c j) ≡ true
    → init' ≡ true
update-ready f i c init init' new old h j p = elim (Bool-cases (j == i)) [
  | inl same ↦ new (rw same at p)
  | inr other ↦ old (h j (rw other at p))
]

pub update_self : (f : ℕ → Caller) (i : ℕ) (c : Caller) → update f i c i ≡ c
update_self f i c = rw ((==_iff i i).1 refl)

abbrev pub in_turn : {p q r q' r' : Type 0} → (q → q') → (r → r') → p ⊎ q ⊎ r → p ⊎ q' ⊎ r'
in_turn f g (inl x) = inl x
in_turn f g (inr (inl y)) = inr (inl (f y))
in_turn f g (inr (inr z)) = inr (inr (g z))

-- `ensureInit` makes the channel once, and keeps the value that it holds.
pub prepared-made :
    (w : Option Bool) (b : Bool) → is_made w ≡ b → is_made (if b then w else some false) ≡ true
prepared-made w true h = h
prepared-made w false h = refl

pub prepared-wake :
    (w : Option Bool) (b : Bool)
    → is_made w ≡ b
    → w ≡ some true
    → (if b then w else some false) ≡ some true
prepared-wake w true h e = e
prepared-wake w false h e = absurd (cc (ap is_made e, h))

pub offer-made : (w : Option Bool) → is_made w ≡ true → is_made (offer w) ≡ true
unfolding offer
offer-made none h = h
offer-made (some b) h = refl

pub offer-wake : (w : Option Bool) → is_made w ≡ true → offer w ≡ some true
unfolding offer
offer-wake none h = absurd (cc h)
offer-wake (some b) h = refl

pub reported-append :
    (hs : List HealthReport) (h : HealthReport)
    → reported (hs ++ h ∷ []) ≡ reported hs ++ h.transitions
reported-append [] h = append-nil h.transitions
reported-append (g ∷ hs) h =
    ap (λ l. g.transitions ++ l) (reported-append hs h)
    ∙ sym (append_assoc g.transitions (reported hs) h.transitions)
