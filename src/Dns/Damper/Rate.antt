-- ===== src/Dns/Damper/Rate.antt =====
-- The damping promise of damper.go: how many moves a name can make within the damping window.
use mathlib.Core.Path.{subst}
use zeus_gslb.Prelude.{
  Time, Text, text_eq, ◌≤◌, ◌≡◌, refl, Bool, true, false, Option, none, some, List, [], ◌∷◌, arith,
  inl, inr, Bool-cases, text_eq_iff, text_eq_refl,
}
use zeus_gslb.Prelude.Dict
use zeus_gslb.Prelude.Dict.{get-put}
use zeus_gslb.Bundle.{Answer}
use zeus_gslb.Dns.Answers.{answer_set_equal}
use zeus_gslb.Dns.Damper.{RecordDampState, new_damper, evaluate_entry, first_served}
use zeus_gslb.Dns.Damper.Moves.{served}
use zeus_gslb.Dns.Damper.Log.{
  Call, after, latest, IsOrdered, moves, entry, get-after, served-after, moves_other,
}
use zeus_gslb.Dns.Damper.Tracks.{
  in_window, count, count_antitone, in_window-le, Tracks, evaluate_entry-Tracks,
  evaluate_entry-bound, Tracks-later, noted, and_false,
}

-- The moves of a name, as its entry knows them.
abbrev Follows : List Time → Time → Option RecordDampState → Type 0
Follows ts last none = ts ≡ []
Follows ts last (some rs) = Tracks ts last rs

Follows-later :
    (ts : List Time) (last now : Time) (o : Option RecordDampState)
    → last ≤ now
    → Follows ts last o
    → Follows ts now o
Follows-later ts last now none h f = f
Follows-later ts last now (some rs) h f = Tracks-later ts last now rs h f

-- The times once one more call has led from one entry to the next.
abbrev noted_from : Bool → Time → Option RecordDampState → RecordDampState → List Time → List Time
noted_from forced now none rs' ts = ts
noted_from forced now (some rs) rs' ts = noted forced now rs rs' ts

first_served-Tracks : (now : Time) (c : List Answer) → Tracks [] now (first_served c)
first_served-Tracks now c = record { past = tt; counts = λ w k. refl; quiet = λ f. tt }

evaluate_entry-Follows :
    (ts : List Time) (last now : Time) (o : Option RecordDampState) (c : List Answer)
    (forced : Bool)
    → last ≤ now
    → Follows ts last o
    → Tracks
        (noted_from forced now o (evaluate_entry o c forced now).0 ts)
        now
        (evaluate_entry o c forced now).0
evaluate_entry-Follows ts last now none c forced h f =
    unfold evaluate_entry in rw f (first_served-Tracks now c)
evaluate_entry-Follows ts last now (some rs) c forced h f =
    evaluate_entry-Tracks ts last now rs c forced h f

module _ (q : Call) (log : List Call) where
  moves_own :
      moves q.fqdn (q ∷ log)
      ≡ noted_from q.forced q.now (Dict.get q.fqdn (after log)) (entry q log) (moves q.fqdn log)
  unfolding served
  moves_own = rw (served-after q log q.fqdn, text_eq_refl) (ground arith)

after-Follows :
    (log : List Call) (k : Text)
    → IsOrdered log
    → Follows (moves k log) (latest log) (Dict.get k (after log))
after-Follows [] k h = unfold after new_damper Dict.get in refl
after-Follows (q ∷ log) k h = elim (Bool-cases (text_eq q.fqdn k)) [
  | inl same ↦
      subst (λ j. Follows (moves j (q ∷ log)) q.now (Dict.get j (after (q ∷ log))))
        ((text_eq_iff q.fqdn k).0 same)
        (rw (moves_own q log, get-after q log q.fqdn, text_eq_refl)
          (evaluate_entry-Follows (moves q.fqdn log) (latest log) q.now
            (Dict.get q.fqdn (after log)) q.candidate q.forced h.0 (after-Follows log q.fqdn h.1)))
  | inr other ↦
      rw (moves_other q log k other, get-after q log k, other)
        (Follows-later (moves k log) (latest log) q.now (Dict.get k (after log)) h.0
          (after-Follows log k h.1))
]

in_window-grown :
    (w now : Time) (ts : List Time)
    → in_window w ts ≤ 3
    → count now (now ∷ ts) ≤ 3
    → in_window w (now ∷ ts) ≤ 3
in_window-grown w now ts h b =
    ground (arith, in_window-le w (now ∷ ts), count_antitone now w (now ∷ ts))

noted_from-bound :
    (w : Time) (ts : List Time) (last now : Time) (o : Option RecordDampState) (c : List Answer)
    (forced : Bool)
    → last ≤ now
    → Follows ts last o
    → in_window w ts ≤ 3
    → in_window w (noted_from forced now o (evaluate_entry o c forced now).0 ts) ≤ 3
noted_from-bound w ts last now none c forced h f b = b
noted_from-bound w ts last now (some rs) c true h f b = rw and_false b
noted_from-bound w ts last now (some rs) c false h f b =
    elim (Bool-cases (answer_set_equal rs.served (evaluate_entry (some rs) c false now).0.served)) [
      | inl e ↦ rw e b
      | inr e ↦ rw e (in_window-grown w now ts b (evaluate_entry-bound ts last now rs c h f e))
    ]

-- The damper lets a name make at most three moves that are not forced within any window of ten
-- minutes, whatever the calls for this and other names are, if the clock does not run backwards:
-- freezing and unfreezing do not weaken the bound.
pub rate_bound :
    (log : List Call) (k : Text) → IsOrdered log → (w : Time) → in_window w (moves k log) ≤ 3
rate_bound [] k h w = omega arith
rate_bound (q ∷ log) k h w = elim (Bool-cases (text_eq q.fqdn k)) [
  | inl same ↦
      subst (λ j. in_window w (moves j (q ∷ log)) ≤ 3) ((text_eq_iff q.fqdn k).0 same)
        (rw moves_own (
          noted_from-bound w (moves q.fqdn log) (latest log) q.now (Dict.get q.fqdn (after log))
            q.candidate q.forced h.0 (after-Follows log q.fqdn h.1) (rate_bound log q.fqdn h.1 w)))
  | inr other ↦ rw (moves_other q log k other) (rate_bound log k h.1 w)
]
