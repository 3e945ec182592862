-- ===== src/Dns/Damper/Freeze.antt =====
-- When a freeze of damper.go holds and when it lifts.
use zeus_gslb.Prelude.{
  Time, Text, ◌+◌, ◌≤◌, ◌<◌, ◌≡◌, refl, true, false, some, List, [], ◌∷◌, arith,
}
use zeus_gslb.Prelude.Dict
use zeus_gslb.Prelude.Dict.{get-put_self}
use zeus_gslb.Bundle.{Answer}
use zeus_gslb.Dns.Answers.{answer_set_equal}
use zeus_gslb.Dns.Damper.{
  Damper, RecordDampState, unfreeze_quiet_period, is_frozen, evaluate, evaluate_entry, decide_move,
  maybe_auto_unfreeze, prune_window,
}

-- The name is frozen at a set, and a change was last suppressed at the given time.
abbrev pub IsFrozenAt : Damper → Text → List Answer → Time → Type 0
IsFrozenAt d k s t =
    (rs : RecordDampState) × (Dict.get k d ≡ some rs)
    × (rs.frozen ≡ true)
    × (rs.served ≡ s)
    × (rs.last_suppressed ≡ t)

module _ (rs : RecordDampState) (c : List Answer) (now : Time) (f : rs.frozen ≡ true)
    (ne : answer_set_equal rs.served c ≡ false) where
  entry_held :
      now < rs.last_suppressed + unfreeze_quiet_period
      → evaluate_entry (some rs) c false now ≡ (record rs { last_suppressed = now }, rs.served)
  unfolding evaluate_entry decide_move maybe_auto_unfreeze
  entry_held h = ground arith

  entry_lifted :
      rs.last_suppressed + unfreeze_quiet_period ≤ now
      → evaluate_entry (some rs) c false now
        ≡ (record rs { served = c; change_log = prune_window (now ∷ []) now; frozen = false }, c)
  unfolding evaluate_entry decide_move maybe_auto_unfreeze prune_window
  entry_lifted h = ground arith

-- A frozen name that is asked for with another set, not by force, within the quiet period keeps
-- its answers and stays frozen, and the quiet period starts again.
pub evaluate_held :
    (d : Damper) (k : Text) (s c : List Answer) (t now : Time)
    → IsFrozenAt d k s t
    → answer_set_equal s c ≡ false
    → now < t + unfreeze_quiet_period
    → ((evaluate d k c false now).1 ≡ s) × IsFrozenAt (evaluate d k c false now).0 k s now
unfolding evaluate
evaluate_held d k s c t now (rs, held, f, e, l) ne h =
    let out = entry_held rs c now f (rw e ne) (rw l h) in
    rw (held, out) (e, (record rs { last_suppressed = now }, get-put_self k _ d, f, e, refl))

is_frozen-put :
    (d : Damper) (k : Text) (rs : RecordDampState) → is_frozen (Dict.put k rs d) k ≡ rs.frozen
unfolding is_frozen
is_frozen-put d k rs = ground (arith, get-put_self k rs d)

-- A frozen name that is asked for with another set once the quiet period has passed serves that
-- set and is frozen no more.
pub evaluate_lifted :
    (d : Damper) (k : Text) (s c : List Answer) (t now : Time)
    → IsFrozenAt d k s t
    → answer_set_equal s c ≡ false
    → t + unfreeze_quiet_period ≤ now
    → ((evaluate d k c false now).1 ≡ c) × (is_frozen (evaluate d k c false now).0 k ≡ false)
unfolding evaluate
evaluate_lifted d k s c t now (rs, held, f, e, l) ne h =
    let out = entry_lifted rs c now f (rw e ne) (rw l h) in
    rw (held, out) (refl, is_frozen-put d k _)

-- Calls for one name, oldest first: the candidate set and the time.
abbrev pub evaluate_all : Damper → Text → List (List Answer × Time) → Damper
evaluate_all d k [] = d
evaluate_all d k ((c, now) ∷ calls) = evaluate_all (evaluate d k c false now).0 k calls

-- Each call has a set other than `s`, and comes within the quiet period of the one before.
abbrev pub Persist : List Answer → Time → List (List Answer × Time) → Type 0
Persist s t [] = Unit
Persist s t ((c, now) ∷ calls) =
    (answer_set_equal s c ≡ false) × (now < t + unfreeze_quiet_period) × Persist s now calls

abbrev pub last_call : Time → List (List Answer × Time) → Time
last_call t [] = t
last_call t ((c, now) ∷ calls) = last_call now calls

-- A freeze does not end while the name is asked for, not by force, with sets other than the frozen
-- one and with less than the quiet period between the calls, however long that goes on.
pub freeze_persists :
    (calls : List (List Answer × Time)) (d : Damper) (k : Text) (s : List Answer) (t : Time)
    → IsFrozenAt d k s t
    → Persist s t calls
    → IsFrozenAt (evaluate_all d k calls) k s (last_call t calls)
freeze_persists [] d k s t z p = z
freeze_persists ((c, now) ∷ calls) d k s t z p =
    freeze_persists calls (evaluate d k c false now).0 k s now
      (evaluate_held d k s c t now z p.0 p.1).1 p.2
