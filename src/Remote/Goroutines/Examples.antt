-- ===== src/Remote/Goroutines/Examples.antt =====
-- A transition in the queue, before its caller has sent on the channel.
use zeus_gslb.Prelude.{text, refl}
use zeus_gslb.Remote.Reporter.{Transition}
use zeus_gslb.Remote.Goroutines.{
  Goroutines, Reachable, start, then_step, calls, prepares, appends, starts, ensure_init,
}
use zeus_gslb.Remote.Goroutines.Orderly.{pending-IsAwake, IsAwake}

abbrev went_down : Transition
went_down = record {
  target_key = text "t";
  state = text "unhealthy";
  at = text "2026-01-01T00:00:00Z";
}

-- The caller has appended, and `Run` has started.
abbrev waiting : (s : Goroutines) × Reachable (text "c") s
unfolding ensure_init
waiting = (
  _,
  then_step _ _
      (then_step _ _
        (then_step _ _ (then_step _ _ start (calls 0 went_down refl)) (prepares 0 went_down refl))
        (starts refl))
      (appends 0 went_down refl),
)

pending-IsAwake_example : IsAwake waiting.0
unfolding waiting
pending-IsAwake_example = pending-IsAwake (text "c") waiting.0 waiting.1 (λ q. cc q)
