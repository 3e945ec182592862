-- ===== src/Remote/Goroutines.antt =====
-- internal/remote/reporter.go, step by step: the goroutines that call `NotifyTransition`, that of
-- `Run`, the mutex and the channel `wake`. A step is what one holder of the mutex does, or one
-- operation on the channel.
pub mod Steps
pub mod Orderly
mod Examples
use zeus_gslb.Prelude.{
  ℕ, Text, ◌==◌, ◌≡◌, Bool, true, false, Option, none, some, List, [], ◌∷◌, ◌++◌, if◌then◌else◌,
}
use zeus_gslb.Prelude.Dict.{Dict}
use zeus_gslb.Remote.Reporter.{Transition, HealthReport, report_of}

-- Where a goroutine is in `NotifyTransition`: not in a call, at `ensureInit`, at the append, and at
-- the send on the channel.
pub data Caller : Type 0 where
  outside appended : Caller
  entered prepared : Transition → Caller

-- Where `Run` is: at `ensureInit`, at its `select`, at the start of `sendNow`, with the queue in
-- hand, in the loop that sends, and at its end.
pub data Sender : Type 0 where
  starting selecting due stopped : Sender
  taken : List Transition → Sender
  sending : HealthReport → Sender

-- The fields of the reporter, the goroutines, the reports whose rounds are over, and the
-- transitions in the order in which the mutex has admitted them. The channel is `none` before it is
-- made, else it says whether it holds a value.
pub record Goroutines : Type 0 where
  pub initialized : Bool
  pub wake : Option Bool
  pub pending : List Transition
  pub callers : ℕ → Caller
  pub sender : Sender
  pub sent : List HealthReport
  pub notified : List Transition

-- `ensureInit`
unfoldable pub ensure_init : Goroutines → Goroutines
ensure_init s = record s { wake = if s.initialized then s.wake else some false; initialized = true }

-- `case r.wake <- struct{}{}` with `default`: a full channel and one that was never made are left.
unfoldable pub offer : Option Bool → Option Bool
offer none = none
offer (some b) = some true

abbrev pub update : (ℕ → Caller) → ℕ → Caller → ℕ → Caller
update f i c j = if j == i then c else f j

-- `HealthReporter` as `main` makes it, with no goroutine started.
abbrev pub new_reporter : Goroutines
new_reporter = record {
  initialized = false;
  wake = none;
  pending = [];
  callers = λ i. outside;
  sender = starting;
  sent = [];
  notified = [];
}

-- The steps. What `States()` gives, and when a round of sending ends, is open.
pub data Step (cluster : Text) (s : Goroutines) : Goroutines → Type 0 where
  calls :
      (i : ℕ) (t : Transition)
      → s.callers i ≡ outside
      → Step cluster s (record s { callers = update s.callers i (entered t) })
  prepares :
      (i : ℕ) (t : Transition)
      → s.callers i ≡ entered t
      → Step cluster s (record (ensure_init s) { callers = update s.callers i (prepared t) })
  appends :
      (i : ℕ) (t : Transition)
      → s.callers i ≡ prepared t
      → Step cluster s (record s {
        pending = s.pending ++ t ∷ [];
        notified = s.notified ++ t ∷ [];
        callers = update s.callers i appended;
      })
  wakes :
      (i : ℕ)
      → s.callers i ≡ appended
      → Step cluster s (record s { wake = offer s.wake; callers = update s.callers i outside })
  starts : s.sender ≡ starting → Step cluster s (record (ensure_init s) { sender = selecting })
  heartbeats : s.sender ≡ selecting → Step cluster s (record s { sender = due })
  receives :
      s.sender ≡ selecting
      → s.wake ≡ some true
      → Step cluster s (record s { wake = some false; sender = due })
  takes : s.sender ≡ due → Step cluster s (record s { pending = []; sender = taken s.pending })
  reports :
      (ts : List Transition) (states : Option (Dict Text))
      → s.sender ≡ taken ts
      → Step cluster s (record s {
        sender = sending (report_of cluster states (record { pending = ts; woken = false }));
      })
  finishes :
      (h : HealthReport)
      → s.sender ≡ sending h
      → Step cluster s (record s { sender = selecting; sent = s.sent ++ h ∷ [] })
  stops : s.sender ≡ selecting → Step cluster s (record s { sender = stopped })

pub data Reachable (cluster : Text) : Goroutines → Type 0 where
  start : Reachable cluster new_reporter
  then_step : (s t : Goroutines) → Reachable cluster s → Step cluster s t → Reachable cluster t
