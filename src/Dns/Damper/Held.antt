-- ===== src/Dns/Damper/Held.antt =====
-- A property of the answer sets that the damper holds, kept by `Evaluate`.
use mathlib.Core.Path.{subst}
use zeus_gslb.Prelude.{
  Time, Text, text_eq, text_eq_iff, ◌≡◌, sym, ap, ◌∙◌, Bool, some, List, Bool-cases, inl, inr,
}
use zeus_gslb.Prelude.Dict
use zeus_gslb.Bundle.{Answer}
use zeus_gslb.Dns.Damper.{Damper, new_damper, evaluate}
use zeus_gslb.Dns.Damper.Moves.{served, evaluate-served, evaluate_cases}

served_of_get : (d d' : Damper) (k : Text) → Dict.get k d' ≡ Dict.get k d → served d' k ≡ served d k
unfolding served
served_of_get d d' k h = rw (h, served)

module _ (Q : Text → List Answer → Type 0) where
  -- Every name that is held is held with answers that have the property.
  abbrev pub Held : Damper → Type 0
  Held d = (k : Text) (s : List Answer) → served d k ≡ some s → Q k s

  pub new_damper-Held : Held new_damper
  unfolding new_damper served Dict.get
  new_damper-Held k s h = absurd (cc h)

  -- What `Evaluate` gives has the property, and so has what it holds then.
  pub evaluate-Held :
      (d : Damper) (k : Text) (c : List Answer) (forced : Bool) (now : Time)
      → Held d
      → Q k c
      → Q k (evaluate d k c forced now).1 × Held (evaluate d k c forced now).0
  evaluate-Held d k c forced now held fits =
      let d' = (evaluate d k c forced now).0 in
      let (own, others) = evaluate-served d k c forced now in
      let given : Q k (evaluate d k c forced now).1 = elim (evaluate_cases d k c forced now) [
        | inl new ↦ subst (Q k) (sym new) fits
        | inr old ↦ held k (evaluate d k c forced now).1 (sym old)
      ] in
      (
        given,
        λ j s h. elim (Bool-cases (text_eq k j)) [
          | inl same ↦
              let name : k ≡ j = (text_eq_iff k j).0 same in
              let here : served d' k ≡ some s = ap (served d') name ∙ h in
              let answers : (evaluate d k c forced now).1 ≡ s = cc (own, here) in
              subst (λ x. Q x s) name (subst (Q k) answers given)
          | inr other ↦
              held j s
                (sym (served_of_get d d' j (others j (λ e. cc ((text_eq_iff k j).1 e, other)))) ∙ h)
        ],
      )
