-- ===== src/Main/System.antt =====
-- cmd/zeus-gslb/main.go: the parts that `main` puts together, as one system. Each step is one event
-- of a goroutine, with what it calls: a store event (the tick of `WatchAndReload`, or a refetch that
-- gives bytes to `ApplyIfChanged`), a query, and a pass of the runner of the checks.
pub mod Answers
pub mod Checks
pub mod Failover
mod Examples
use zeus_gslb.Prelude.{Text, Time, Bool, Option, none, some, List, [], ◌∷◌}
use zeus_gslb.Bundle.{Bundle, Record}
use zeus_gslb.Bundle.Cache.{Dir}
use zeus_gslb.Bundle.Store.{Store, Event, handle}
use zeus_gslb.Checks.Machine.{new_machine}
use zeus_gslb.Checks.Prober.{Network}
use zeus_gslb.Checks.Targets.{build_targets}
use zeus_gslb.Checks.Runner.{Runner, run_once}
use zeus_gslb.Dns.Evaluator.{Evaluator, new_evaluator}
use zeus_gslb.Dns.Handler.{Library, Question, Msg, serve_dns}
use zeus_gslb.Main.{machine_adapter}

pub record System : Type 0 where
  pub store : Store
  pub dir : Dir
  pub evaluator : Evaluator
  pub checks : Runner

pub data Happening : Type 0 where
  stores : Event → Happening
  query : List Question → Time → Happening
  pass : Bool → Time → (Text → Network) → Happening

abbrev pub records_of : Option Bundle → List Record
records_of none = []
records_of (some b) = b.records

-- The handler, which asks the machine as it is now.
abbrev pub evaluator_now : System → Evaluator
evaluator_now s = record s.evaluator { machine = some (machine_adapter s.checks.machine) }

module _ (lib : Library) (unmarshal : Text → Option Bundle) where
  unfoldable pub happen : Happening → System → System
  happen (stores e) s =
      let (store, dir) = handle unmarshal e (s.store, s.dir) in
      record s { store = store; dir = dir }
  happen (query questions now) s = record s {
    evaluator = (serve_dns lib (evaluator_now s) s.store.current questions now).0;
  }
  happen (pass has_lister now net) s = record s {
    checks = (run_once net now (build_targets has_lister (records_of s.store.current)) s.checks).0;
  }

  -- What `main` starts with, once the store is booted.
  abbrev pub started : Store → Dir → System
  started store dir = record {
    store = store;
    dir = dir;
    evaluator = new_evaluator none;
    checks = record { machine = new_machine; last_run = [] };
  }

  -- The system after what has happened, newest first.
  abbrev pub system_after : Store → Dir → List Happening → System
  system_after store dir [] = started store dir
  system_after store dir (h ∷ hs) = happen h (system_after store dir hs)

  -- The response to a query then.
  abbrev pub response : System → List Question → Time → Msg
  response s questions now = (serve_dns lib (evaluator_now s) s.store.current questions now).1
