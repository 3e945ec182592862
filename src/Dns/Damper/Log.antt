-- ===== src/Dns/Damper/Log.antt =====
-- A log of calls of `Evaluate`, and the moves that a name makes in it.
use zeus_gslb.Prelude.{
  Time, Text, text_eq, ◌≤◌, ◌≡◌, refl, Bool, false, not, ◌&&◌, Option, none, some, List, [], ◌∷◌,
  if◌then◌else◌, arith,
}
use zeus_gslb.Prelude.Dict
use zeus_gslb.Prelude.Dict.{get-put}
use zeus_gslb.Bundle.{Answer}
use zeus_gslb.Dns.Answers.{answer_set_equal}
use zeus_gslb.Dns.Answers.Multiset.{answer_set_equal_refl}
use zeus_gslb.Dns.Damper.{Damper, RecordDampState, new_damper, evaluate, evaluate_entry}
use zeus_gslb.Dns.Damper.Moves.{served}

-- One call of `Evaluate`.
pub record Call : Type 0 where
  pub fqdn : Text
  pub candidate : List Answer
  pub forced : Bool
  pub now : Time

-- The damper after a log of calls, newest first.
unfoldable pub after : List Call → Damper
after [] = new_damper
after (q ∷ log) = (evaluate (after log) q.fqdn q.candidate q.forced q.now).0

abbrev pub latest : List Call → Time
latest [] = 0
latest (q ∷ log) = q.now

-- The clock does not run backwards.
abbrev pub IsOrdered : List Call → Type 0
IsOrdered [] = Unit
IsOrdered (q ∷ log) = (latest log ≤ q.now) × IsOrdered log

-- Whether the served set differs as a set; the first set that is served is no move.
abbrev pub moved : Option (List Answer) → Option (List Answer) → Bool
moved (some a) (some b) = not (answer_set_equal a b)
moved _ _ = false

-- The times of the calls that moved the name without being forced, newest first.
abbrev pub moves : Text → List Call → List Time
moves k [] = []
moves k (q ∷ log) =
    if moved (served (after log) k) (served (after (q ∷ log)) k) && not q.forced
    then q.now ∷ moves k log
    else moves k log

module _ (q : Call) (log : List Call) where
  abbrev pub entry : RecordDampState
  entry = (evaluate_entry (Dict.get q.fqdn (after log)) q.candidate q.forced q.now).0

  pub get-after :
      (k : Text)
      → Dict.get k (after (q ∷ log))
        ≡ (if text_eq q.fqdn k then some entry else Dict.get k (after log))
  unfolding after evaluate
  get-after k = get-put q.fqdn k entry (after log)

  pub served-after :
      (k : Text)
      → served (after (q ∷ log)) k
        ≡ (if text_eq q.fqdn k then some entry.served else served (after log) k)
  unfolding served
  served-after k = ground (arith, get-after k)

pub moved_same : (o : Option (List Answer)) → moved o o ≡ false
moved_same none = refl
moved_same (some a) = rw answer_set_equal_refl

module _ (q : Call) (log : List Call) where
  pub moves_other : (k : Text) → text_eq q.fqdn k ≡ false → moves k (q ∷ log) ≡ moves k log
  moves_other k other = rw (served-after q log k, other, moved_same)
