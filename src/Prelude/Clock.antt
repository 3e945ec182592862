-- ===== src/Prelude/Clock.antt =====
-- A `time.Time`, as its distance in nanoseconds from the zero time, and durations in nanoseconds.
use Prim.Native.Nat.{ℕ, ◌^◌}

abbrev pub Time : Type 0
Time = ℕ

abbrev pub zero_time : Time
zero_time = 0

abbrev pub millisecond : ℕ
millisecond = 10 ^ 6

abbrev pub second : ℕ
second = 10 ^ 9
