-- ===== src/Main/Feedback/Kept.antt =====
-- What a step of the reporter leaves of the transitions that the checks have announced.
use mathlib.Core.List.{append-nil}
use zeus_gslb.Prelude.{
  ℕ, Text, ◌==◌, ==_iff, ◌≡◌, ◌≢◌, ◌⊎◌, refl, sym, ap, ◌∙◌, false, Option, some, List, [], ◌∷◌,
  ◌++◌, Bool-cases, inl, inr, none,
}
use zeus_gslb.Prelude.Dict.{Dict}
use zeus_gslb.Checks.Machine
use zeus_gslb.Checks.Machine.{Machine}
use zeus_gslb.Remote.Reporter.{Transition, HealthReport, report_of}
use zeus_gslb.Remote.Goroutines
use zeus_gslb.Remote.Goroutines.{
  Caller, outside, entered, prepared, appended, Sender, taken, sending, Goroutines, ensure_init,
  update, calls, prepares, appends, wakes, starts, heartbeats, receives, takes, reports, finishes,
  stops,
}
use zeus_gslb.Main.Feedback.{Allowed}

-- The transition of a call that the mutex has not admitted yet.
abbrev pub in_call : Caller → List Transition
in_call (entered t) = t ∷ []
in_call (prepared t) = t ∷ []
in_call _ = []

-- The transitions that the checks have announced, and those of them that the reporter has not taken.
abbrev pub announced : Goroutines → List Transition
announced r = r.notified ++ in_call (r.callers 0)

abbrev pub to_come : Goroutines → List Transition
to_come r = r.pending ++ in_call (r.callers 0)

-- Only the goroutine of the checks notifies.
abbrev pub IsSingle : Goroutines → Type 0
IsSingle r = (j : ℕ) → j ≢ 0 → r.callers j ≡ outside

-- A report that goes out is one that went out before the step, or was made by it; and the step took
-- nothing from the queue.
abbrev pub GoesOut : Machine → Goroutines → Goroutines → HealthReport → Type 0
GoesOut m r r' h =
    ((r.sender ≡ sending h) ⊎ ((r.sender ≡ taken h.transitions) × (h.states ≡ Machine.states m)))
    × (to_come r' ≡ to_come r)
    × (r'.sent ≡ r.sent)

pub record Kept (m : Machine) (r r' : Goroutines) : Type 0 where
  pub single : IsSingle r'
  pub same : announced r' ≡ announced r
  pub going : (h : HealthReport) → r'.sender ≡ sending h → GoesOut m r r' h

zero_of : (r : Goroutines) (i : ℕ) (c : Caller) → IsSingle r → r.callers i ≡ c → c ≢ outside → i ≡ 0
zero_of r i c s h n = elim (Bool-cases (i == 0)) [
  | inl y ↦ (==_iff i 0).0 y
  | inr o ↦ absurd (n (sym h ∙ s i (λ z. cc ((==_iff i 0).1 z, o))))
]

call_at : (f : ℕ → Caller) (i : ℕ) (c : Caller) → i ≡ 0 → in_call (update f i c 0) ≡ in_call c
call_at f i c z = rw z refl

pub update-IsSingle :
    (f : ℕ → Caller) (i : ℕ) (c : Caller)
    → i ≡ 0
    → ((j : ℕ) → j ≢ 0 → f j ≡ outside)
    → (j : ℕ) → j ≢ 0
    → update f i c j ≡ outside
update-IsSingle f i c z s j n = elim (Bool-cases (j == i)) [
  | inl y ↦ absurd (n ((==_iff j i).0 y ∙ z))
  | inr o ↦ rw o (s j n)
]

calling : (r : Goroutines) (c : Caller) → r.callers 0 ≡ c → in_call (r.callers 0) ≡ in_call c
calling r c h = ap in_call h

made-going :
    (m : Machine) (cluster : Text) (ts : List Transition) (states : Option (Dict Text))
    (h : HealthReport)
    → states ≡ some (Machine.states m)
    → sending (report_of cluster states (record { pending = ts; woken = false })) ≡ sending h
    → (ts ≡ h.transitions) × (h.states ≡ Machine.states m)
made-going m cluster ts states h a e =
    let q : report_of cluster states (record { pending = ts; woken = false }) ≡ h =
      ap (λ (x : Sender). elim x [ sending g ↦ g | _ ↦ h ]) e in
    (
      ap (λ (x : HealthReport). x.transitions) q,
      ap (λ (x : HealthReport). x.states) (sym q)
          ∙ ap (λ (o : Option (Dict Text)). elim o [ none ↦ [] | some d ↦ d ]) a,
    )

-- A transition that the mutex has admitted was in a call before.
admitted :
    (l x y : List Transition) (t : Transition) → x ≡ [] → y ≡ t ∷ [] → l ++ t ∷ [] ++ x ≡ l ++ y
admitted l x y t h k =
    ap (λ z. l ++ t ∷ [] ++ z) h ∙ append-nil (l ++ t ∷ []) ∙ ap (λ z. l ++ z) (sym k)

pub Step-Kept :
    (m : Machine) (cluster : Text) (r r' : Goroutines) (step : Goroutines.Step cluster r r')
    → Allowed m step
    → IsSingle r
    → Kept m r r'
unfolding ensure_init
Step-Kept m cluster r r' (calls i t h) a s = elim a [ ]
Step-Kept m cluster r r' (prepares i t h) a s =
    let z = zero_of r i (entered t) s h (λ q. cc q) in
    let now = calling r (entered t) (ap r.callers (sym z) ∙ h) in
    let then' = call_at r.callers i (prepared t) z in
    record {
      single = update-IsSingle r.callers i (prepared t) z s;
      same = ap (λ l. r.notified ++ l) (then' ∙ sym now);
      going = λ g e. (inl e, ap (λ l. r.pending ++ l) (then' ∙ sym now), refl);
    }
Step-Kept m cluster r r' (appends i t h) a s =
    let z = zero_of r i (prepared t) s h (λ q. cc q) in
    let now = calling r (prepared t) (ap r.callers (sym z) ∙ h) in
    let then' = call_at r.callers i appended z in
    record {
      single = update-IsSingle r.callers i appended z s;
      same = admitted r.notified _ _ t then' now;
      going = λ g e. (inl e, admitted r.pending _ _ t then' now, refl);
    }
Step-Kept m cluster r r' (wakes i h) a s =
    let z = zero_of r i appended s h (λ q. cc q) in
    let now = calling r appended (ap r.callers (sym z) ∙ h) in
    let then' = call_at r.callers i outside z in
    record {
      single = update-IsSingle r.callers i outside z s;
      same = ap (λ l. r.notified ++ l) (then' ∙ sym now);
      going = λ g e. (inl e, ap (λ l. r.pending ++ l) (then' ∙ sym now), refl);
    }
Step-Kept m cluster r r' (starts h) a s = record {
  single = s;
  same = refl;
  going = λ g e. absurd (cc e);
}
Step-Kept m cluster r r' (heartbeats h) a s = record {
  single = s;
  same = refl;
  going = λ g e. absurd (cc e);
}
Step-Kept m cluster r r' (receives h w) a s = record {
  single = s;
  same = refl;
  going = λ g e. absurd (cc e);
}
Step-Kept m cluster r r' (takes h) a s = record {
  single = s;
  same = refl;
  going = λ g e. absurd (cc e);
}
Step-Kept m cluster r r' (reports ts states h) a s = record {
  single = s;
  same = refl;
  going = λ g e.
      let (own, read) = made-going m cluster ts states g a e in
      (inr (h ∙ ap taken own, read), refl, refl);
}
Step-Kept m cluster r r' (finishes g h) a s = record {
  single = s;
  same = refl;
  going = λ g e. absurd (cc e);
}
Step-Kept m cluster r r' (stops h) a s = record {
  single = s;
  same = refl;
  going = λ g e. absurd (cc e);
}
