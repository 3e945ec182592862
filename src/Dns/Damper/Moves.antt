-- ===== src/Dns/Damper/Moves.antt =====
-- What one call of `Evaluate` serves and records.
use mathlib.Core.List.{Perm}
use zeus_gslb.Prelude.{
  Time, Text, ◌≡◌, ◌≢◌, ◌⊎◌, inl, inr, refl, Bool, true, Option, none, some, List, arith,
}
use zeus_gslb.Prelude.Dict
use zeus_gslb.Prelude.Dict.{get-put_self, get-put_ne}
use zeus_gslb.Bundle.{Answer}
use zeus_gslb.Dns.Answers.{answer_set_equal}
use zeus_gslb.Dns.Answers.Multiset.{answer_set_equal_iff, answer_set_equal_refl}
use zeus_gslb.Dns.Damper.{
  Damper, RecordDampState, evaluate, evaluate_entry, decide_move, maybe_auto_unfreeze,
}

-- The answers that the damper holds for a name.
unfoldable pub served : Damper → Text → Option (List Answer)
served d fqdn = elim (Dict.get fqdn d) [ none ↦ none | some rs ↦ some rs.served ]

decide_move-served :
    (rs : RecordDampState) (c : List Answer) (forced : Bool) (now : Time)
    → (decide_move rs c forced now).1 ≡ (decide_move rs c forced now).0.served
unfolding decide_move
decide_move-served rs c forced now = ground arith

decide_move_cases :
    (rs : RecordDampState) (c : List Answer) (forced : Bool) (now : Time)
    → ((decide_move rs c forced now).1 ≡ rs.served) ⊎ ((decide_move rs c forced now).1 ≡ c)
unfolding decide_move
decide_move_cases rs c forced now = ground arith

decide_move_forced :
    (rs : RecordDampState) (c : List Answer) (now : Time)
    → answer_set_equal (decide_move rs c true now).1 c ≡ true
unfolding decide_move
decide_move_forced rs c now = ground (arith, answer_set_equal_refl c)

pub unfreeze-served :
    (rs : RecordDampState) (now : Time) → (maybe_auto_unfreeze rs now).served ≡ rs.served
unfolding maybe_auto_unfreeze
unfreeze-served rs now = ground arith

evaluate_entry-served :
    (o : Option RecordDampState) (c : List Answer) (forced : Bool) (now : Time)
    → (evaluate_entry o c forced now).1 ≡ (evaluate_entry o c forced now).0.served
evaluate_entry-served none c forced now = unfold evaluate_entry in refl
evaluate_entry-served (some rs) c forced now =
    unfold evaluate_entry in decide_move-served (maybe_auto_unfreeze rs now) c forced now

-- The entry that a call of `Evaluate` leaves for its name.
abbrev entry : Damper → Text → List Answer → Bool → Time → RecordDampState
entry d fqdn c forced now = (evaluate_entry (Dict.get fqdn d) c forced now).0

module _ (d : Damper) (fqdn : Text) (c : List Answer) (forced : Bool) (now : Time) where
  -- A call serves what the damper then holds for its name, and leaves every other name's entry.
  pub evaluate-served :
      (served (evaluate d fqdn c forced now).0 fqdn ≡ some (evaluate d fqdn c forced now).1)
      × ((other : Text)
          → fqdn ≢ other
          → Dict.get other (evaluate d fqdn c forced now).0 ≡ Dict.get other d)
  unfolding evaluate served
  evaluate-served = (
    ground (
      arith,
      get-put_self fqdn (entry d fqdn c forced now) d,
      evaluate_entry-served (Dict.get fqdn d) c forced now,
    ),
    λ other ne. get-put_ne fqdn other (entry d fqdn c forced now) d ne,
  )

evaluate_entry_cases :
    (o : Option RecordDampState) (c : List Answer) (forced : Bool) (now : Time)
    → ((evaluate_entry o c forced now).1 ≡ c)
      ⊎ ((rs : RecordDampState) × (o ≡ some rs) × ((evaluate_entry o c forced now).1 ≡ rs.served))
evaluate_entry_cases none c forced now = unfold evaluate_entry in inl refl
evaluate_entry_cases (some rs) c forced now =
    elim (decide_move_cases (maybe_auto_unfreeze rs now) c forced now) [
      | inl old ↦
          unfold evaluate_entry in inr (rs, refl, ground (arith, old, unfreeze-served rs now))
      | inr new ↦ unfold evaluate_entry in inl new
    ]

-- A call serves the candidate set, or what the damper held for the name before.
pub evaluate_cases :
    (d : Damper) (fqdn : Text) (c : List Answer) (forced : Bool) (now : Time)
    → ((evaluate d fqdn c forced now).1 ≡ c)
      ⊎ (some (evaluate d fqdn c forced now).1 ≡ served d fqdn)
evaluate_cases d fqdn c forced now = elim (evaluate_entry_cases (Dict.get fqdn d) c forced now) [
  | inl new ↦ unfold evaluate in inl new
  | inr (rs, held, old) ↦ unfold evaluate served in inr (rw held (ground arith))
]

evaluate_entry_forced :
    (o : Option RecordDampState) (c : List Answer) (now : Time)
    → answer_set_equal (evaluate_entry o c true now).1 c ≡ true
evaluate_entry_forced none c now = unfold evaluate_entry in answer_set_equal_refl c
evaluate_entry_forced (some rs) c now =
    unfold evaluate_entry in decide_move_forced (maybe_auto_unfreeze rs now) c now

-- A forced call serves the candidate set, up to the order of its answers, whatever the damper
-- holds and whether or not the name is frozen.
pub evaluate_forced :
    (d : Damper) (fqdn : Text) (c : List Answer) (now : Time)
    → Perm (evaluate d fqdn c true now).1 c
evaluate_forced d fqdn c now =
    unfold evaluate in (answer_set_equal_iff _ c).0 (evaluate_entry_forced (Dict.get fqdn d) c now)
