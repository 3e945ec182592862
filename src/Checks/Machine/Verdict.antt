-- ===== src/Checks/Machine/Verdict.antt =====
-- The health of a target as a function of the log of all results, newest first, and the theorems
-- that the entries of machine.go compute it.
use zeus_gslb.Prelude.{
  ℕ, zero, suc, ◌+◌, ◌^◌, ◌≤◌, ◌<◌, Text, text_eq, text_eq_iff, ◌≡◌, refl, ap, Bool, List, [], ◌∷◌,
  leb, if◌then◌else◌, length, arith, inl, inr, Bool-cases,
}
use zeus_gslb.Prelude.Int.{ℤ, pos, negsuc, incr-pos}
use zeus_gslb.Prelude.Dict
use zeus_gslb.Prelude.Dict.{get-put}
use zeus_gslb.Checks.Machine.{
  Health, healthy, unhealthy, unknown, Machine, TargetState, new_machine, get_or_create,
  at_least_one, record_in, record_result, state, ready,
}

-- One call of `RecordResult`.
pub record Call : Type 0 where
  pub key : Text
  pub up : Bool
  pub failure_threshold : ℤ
  pub recovery_threshold : ℤ

-- The machine after a log of calls, newest first.
unfoldable pub after : List Call → Machine
after [] = new_machine
after (c ∷ log) = (record_result (after log) c.key c.up c.failure_threshold c.recovery_threshold).0

-- The calls about one target.
abbrev pub about : Text → List Call → List Call
about k [] = []
about k (c ∷ log) = if text_eq c.key k then c ∷ about k log else about k log

-- A threshold as a number, at least one.
abbrev pub threshold : ℤ → ℕ
threshold (pos zero) = 1
threshold (pos (suc n)) = suc n
threshold (negsuc n) = 1

-- How many of the newest results in a row are successes.
abbrev pub successes : List Call → ℕ
successes [] = 0
successes (c ∷ log) = if c.up then suc (successes log) else 0

-- How many of the newest results in a row are failures.
abbrev pub failures : List Call → ℕ
failures [] = 0
failures (c ∷ log) = if c.up then 0 else suc (failures log)

-- The newest run of equal results that reached its threshold decides.
abbrev pub verdict : List Call → Health
verdict [] = unknown
verdict (c ∷ log) =
    if c.up
    then (if leb (threshold c.recovery_threshold) (suc (successes log))
        then healthy
        else verdict log)
    else (if leb (threshold c.failure_threshold) (suc (failures log))
        then unhealthy
        else verdict log)

-- What an entry holds after the calls about its target.
record Counts (log : List Call) (t : TargetState) : Type 0 where
  health : t.health ≡ verdict log
  good : t.consec_success ≡ pos (successes log)
  bad : t.consec_fail ≡ pos (failures log)
  done : t.cycles ≡ pos (length log)

successes-le : (log : List Call) → successes log ≤ length log
successes-le [] = omega arith
successes-le (c ∷ log) = ground (arith, successes-le log)

failures-le : (log : List Call) → failures log ≤ length log
failures-le [] = omega arith
failures-le (c ∷ log) = ground (arith, failures-le log)

length-about-le : (k : Text) (log : List Call) → length (about k log) ≤ length log
length-about-le k [] = omega arith
length-about-le k (c ∷ log) = ground (arith, length-about-le k log)

at_least_one-eq : (n : ℤ) → at_least_one n ≡ pos (threshold n)
at_least_one-eq (pos zero) = refl
at_least_one-eq (pos (suc n)) = ground arith
at_least_one-eq (negsuc n) = ground arith

record_in-Counts :
    (c : Call) (log : List Call) (t : TargetState)
    → length log + 1 < 2 ^ 63
    → Counts log t
    → Counts (c ∷ log) (
        record_in t c.up
          (pos (threshold c.failure_threshold))
          (pos (threshold c.recovery_threshold)))
unfolding record_in
record_in-Counts c log t fits h = ground (
  arith,
  successes-le log,
  failures-le log,
  incr-pos (successes log),
  incr-pos (failures log),
  incr-pos (length log),
)

get_or_create-put :
    (m : Machine) (t : TargetState) (k j : Text)
    → get_or_create (Dict.put k t m) j ≡ (if text_eq k j then t else get_or_create m j)
unfolding get_or_create
get_or_create-put m t k j = ground (arith, get-put k j t m)

after-Counts :
    (log : List Call) (k : Text)
    → length log < 2 ^ 63
    → Counts (about k log) (get_or_create (after log) k)
unfolding after record_result new_machine Dict.get
after-Counts [] k fits = record { health = refl; good = refl; bad = refl; done = refl }
after-Counts (c ∷ log) k fits = elim (Bool-cases (text_eq c.key k)) [
  | inl same ↦
      let e : get_or_create (after log) c.key ≡ get_or_create (after log) k =
        ap (get_or_create (after log)) ((text_eq_iff c.key k).0 same) in
      rw (same, get_or_create-put, same, at_least_one-eq, at_least_one-eq c.recovery_threshold, e)
        (record_in-Counts c (about k log) (get_or_create (after log) k)
          (omega (arith, length-about-le k log)) (after-Counts log k (omega arith)))
  | inr other ↦ rw (other, get_or_create-put, other) (after-Counts log k (omega arith))
]

-- After any log of calls about any targets, with thresholds that may change from call to call,
-- the health of a target is the verdict of the calls about it, if there are fewer than 2^63 calls.
pub state-after :
    (log : List Call) (k : Text) → length log < 2 ^ 63 → state (after log) k ≡ verdict (about k log)
unfolding state get_or_create
state-after log k fits = ground (arith, after-Counts log k)

-- After any log of fewer than 2^63 calls, a target is ready exactly when some call was about it.
pub ready-after :
    (log : List Call) (k : Text)
    → length log < 2 ^ 63
    → ready (after log) k ≡ leb 1 (length (about k log))
unfolding ready get_or_create
ready-after log k fits = ground (arith, after-Counts log k)
