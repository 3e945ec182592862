-- ===== src/Dns/Queries/Rate.antt =====
-- The bound of the damper on the moves of a name, for concurrent queries.
use mathlib.Core.List.{flatten}
use zeus_gslb.Prelude.{Time, Text, ◌≤◌, ◌≡◌, ap, arith, List, [], ◌∷◌, ◌++◌, Option}
use zeus_gslb.Dns.Damper.{Damper, new_damper, evaluate}
use zeus_gslb.Dns.Damper.Log.{Call, after, latest, IsOrdered, moves}
use zeus_gslb.Dns.Damper.Tracks.{in_window}
use zeus_gslb.Dns.Damper.Rate.{rate_bound}
use zeus_gslb.Dns.Evaluator.{LocalHealth}
use zeus_gslb.Dns.Handler.{Library}
use zeus_gslb.Dns.Queries.{
  Shared, Query, idle, asked, reading, walking, deciding, recording, written, advance, Queries,
  Turn, arrives, steps, swaps, turn, take_turns,
}

-- The call of `Evaluate` that a goroutine makes by its next step, where it makes one.
abbrev pub call_of : Time → Query → List Call
call_of now (deciding job w) =
    record { fqdn = job.rec.fqdn; candidate = flatten w.groups; forced = w.forced; now = now } ∷ []
call_of now _ = []

abbrev pub calls_at : Turn → Queries → List Call
calls_at (steps i health now) s = call_of now (s.queries i)
calls_at _ s = []

-- The clock that the steps show does not run backwards.
abbrev pub IsTimed : List Turn → Time → Type 0
IsTimed [] last = Unit
IsTimed (steps i health now ∷ ts) last = (last ≤ now) × IsTimed ts now
IsTimed (_ ∷ ts) last = IsTimed ts last

module _ (lib : Library) where
  -- The calls of the turns, newest first, in front of those before them.
  abbrev pub calls_after : List Turn → Queries → List Call → List Call
  calls_after [] s log = log
  calls_after (t ∷ ts) s log = calls_after ts (turn lib t s) (calls_at t s ++ log)

  advance-damper :
      (health : Option LocalHealth) (now : Time) (m : Shared) (q : Query) (log : List Call)
      → m.damper ≡ after log
      → (advance lib health now m q).0.damper ≡ after (call_of now q ++ log)
  unfolding advance after
  advance-damper health now m idle log h = h
  advance-damper health now m (asked qs) log h = h
  advance-damper health now m (reading job cs) log h = h
  advance-damper health now m (walking job prev [] w) log h = h
  advance-damper health now m (walking job prev (c ∷ cs) w) log h = h
  advance-damper health now m (deciding job w) log h =
      ap (λ (d : Damper). (evaluate d job.rec.fqdn (flatten w.groups) w.forced now).0) h
  advance-damper health now m (recording job w served) log h = h
  advance-damper health now m (written msg) log h = h

  turn-damper :
      (t : Turn) (s : Queries) (log : List Call)
      → s.shared.damper ≡ after log
      → (turn lib t s).shared.damper ≡ after (calls_at t s ++ log)
  unfolding turn
  turn-damper (arrives i qs) s log h = h
  turn-damper (steps i health now) s log h = advance-damper health now s.shared (s.queries i) log h
  turn-damper (swaps b) s log h = h

  call-IsOrdered :
      (now last : Time) (q : Query) (log : List Call)
      → last ≤ now
      → latest log ≤ last
      → IsOrdered log
      → IsOrdered (call_of now q ++ log) × (latest (call_of now q ++ log) ≤ now)
  call-IsOrdered now last idle log n l o = (o, omega arith)
  call-IsOrdered now last (asked qs) log n l o = (o, omega arith)
  call-IsOrdered now last (reading job cs) log n l o = (o, omega arith)
  call-IsOrdered now last (walking job prev cs w) log n l o = (o, omega arith)
  call-IsOrdered now last (deciding job w) log n l o = (((omega arith, o)), omega arith)
  call-IsOrdered now last (recording job w served) log n l o = (o, omega arith)
  call-IsOrdered now last (written msg) log n l o = (o, omega arith)

  calls-IsOrdered :
      (ts : List Turn) (s : Queries) (log : List Call) (last : Time)
      → IsTimed ts last
      → latest log ≤ last
      → IsOrdered log
      → IsOrdered (calls_after ts s log)
  calls-IsOrdered [] s log last t l o = o
  calls-IsOrdered (arrives i qs ∷ ts) s log last t l o =
      calls-IsOrdered ts (turn lib (arrives i qs) s) log last t l o
  calls-IsOrdered (steps i health now ∷ ts) s log last (n, t) l o =
      let (o', l') = call-IsOrdered now last (s.queries i) log n l o in
      calls-IsOrdered ts (turn lib (steps i health now) s) (call_of now (s.queries i) ++ log) now t
        l' o'
  calls-IsOrdered (swaps b ∷ ts) s log last t l o =
      calls-IsOrdered ts (turn lib (swaps b) s) log last t l o

  take_turns-damper :
      (ts : List Turn) (s : Queries) (log : List Call)
      → s.shared.damper ≡ after log
      → (take_turns lib ts s).shared.damper ≡ after (calls_after ts s log)
  unfolding take_turns
  take_turns-damper [] s log h = h
  take_turns-damper (t ∷ ts) s log h =
      take_turns-damper ts (turn lib t s) (calls_at t s ++ log) (turn-damper t s log h)

  -- Whatever queries arrive and however their steps interleave, as long as one call of `Evaluate` is
  -- over before the next one begins and the clock does not run backwards: the damper is the one that
  -- the calls of the queries have made, in the order in which they reach it, and a name makes at most
  -- three moves that are not forced within any window of ten minutes.
  pub queries_rate :
      (ts : List Turn) (s : Queries) (k : Text) (w : Time)
      → s.shared.damper ≡ new_damper
      → IsTimed ts 0
      → ((take_turns lib ts s).shared.damper ≡ after (calls_after ts s []))
        × (in_window w (moves k (calls_after ts s [])) ≤ 3)
  unfolding after
  queries_rate ts s k w h t = (
    take_turns-damper ts s [] h,
    rate_bound (calls_after ts s []) k (calls-IsOrdered ts s [] 0 t (omega arith) tt) w,
  )
