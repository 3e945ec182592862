-- ===== src/Main/System/Failover/Examples.antt =====
-- A name with two candidates, the first of which fails its probes.
use mathlib.Core.Path.{subst}
use mathlib.Core.List.{Perm, flatten}
use zeus_gslb.Prelude.{
  All, Any, Text, text, text_eq, lower_byte, to_lower, second, ◌*◌, ◌≡◌, refl, sym, arith, inl,
  true, false, none, some, List, [], ◌∷◌,
}
use zeus_gslb.Prelude.Int
use zeus_gslb.Prelude.Int.{pos}
use zeus_gslb.Prelude.Dict
use zeus_gslb.Prelude.Decimal.{itoa}
use zeus_gslb.Bundle.{Bundle, Candidate, Record, mode_all}
use zeus_gslb.Bundle.Store.{Store}
use zeus_gslb.Bundle.Samples.{decode, tcp_check, bundle_of, named, first_dir, first_store}
use zeus_gslb.Checks.Machine.{
  unhealthy, new_machine, get_or_create, record_in, record_result, state, ready,
}
use zeus_gslb.Checks.Machine.Verdict.{verdict}
use zeus_gslb.Checks.Prober.{Network, probe_once, new_prober}
use zeus_gslb.Checks.Runner.{run_once, run_target, is_due, interval_of}
use zeus_gslb.Checks.Runner.History.{results, probed_by, runner_after}
use zeus_gslb.Checks.Targets.{
  build_targets, targets_of, add_records, add_checks, add_check, config_of, is_faster,
}
use zeus_gslb.Dns.Answers.{answer_key, count_of, tally, spend, answer_set_equal}
use zeus_gslb.Dns.Damper.{new_damper, evaluate_entry, evaluate}
use zeus_gslb.Dns.Evaluator.{
  new_evaluator, mark, flag, local_targets, effective_health, viable, walk, active, walk_record,
  settle, resolve,
}
use zeus_gslb.Dns.Evaluator.Walk.{visited}
use zeus_gslb.Dns.Handler.{
  Question, ARecord, type_a, lookup_in, lookup, serve_dns, answer_question, answer_query, answer_a,
  fill_answer, add_answers,
}
use zeus_gslb.Dns.Handler.Selected.{selected_records}
use zeus_gslb.Dns.Handler.Failover.{is_backed}
use zeus_gslb.Main.{machine_adapter}
use zeus_gslb.Main.System.{
  Happening, happen, query, pass, evaluator_now, system_after, response, System,
}
use zeus_gslb.Main.System.Checks.{passes_of}
use zeus_gslb.Dns.Handler.Samples.{lib}
use zeus_gslb.Main.System.Failover.{failover}

abbrev question : Question
question = record { name = text "a.x.org."; qtype = type_a }

abbrev candidate : Text → Text → Candidate
candidate key ip = record {
  cluster = text "z-01";
  target_key = key;
  health = text "healthy";
  answers = record { ip = ip; port = pos 80 } ∷ [];
}

abbrev candidates : List Candidate
candidates = candidate (text "t") (text "10.0.0.1") ∷ candidate (text "u") (text "10.0.0.2") ∷ []

abbrev balanced : Record
balanced = record (named (text "a.x.org.") (pos 30) (tcp_check (text "t") (pos 1000) ∷ [])) {
  mode = text "single";
  candidates = some candidates;
}

abbrev zone : Bundle
zone = bundle_of (text "h4") (balanced ∷ [])

abbrev store : Store
store = record first_store { current = some zone }

abbrev network : Text → Network
network key = record {
  dial = λ addr. false;
  get_status = λ url. none;
  ready_count = λ namespace service. pos 0;
}

-- A query, and the probes of two passes, which fail.
abbrev history : List Happening
history = pass false (3 * second) network ∷ pass false second network ∷ query (question ∷ []) 5 ∷ []

abbrev system : System
system = system_after lib decode store first_dir history

abbrev first : Candidate
first = candidate (text "t") (text "10.0.0.1")

program : Unit {0}
unfolding happen Dict.get Dict.put text_eq lower_byte to_lower itoa run_once run_target is_due
    interval_of build_targets targets_of add_records add_checks add_check config_of is_faster
    new_prober probe_once new_machine get_or_create record_in record_result state ready
    machine_adapter Int.incr Int.scale lookup_in lookup serve_dns answer_question answer_query
    answer_a fill_answer add_answers Int.to_uint32 new_evaluator mark flag local_targets
    effective_health viable walk active walk_record settle resolve new_damper evaluate_entry
    evaluate answer_key count_of tally spend answer_set_equal flatten
program = tt

served : system.store.current ≡ some zone
unfolding program
served = refl

found : lookup lib zone (text "a.x.org.") ≡ some balanced
unfolding program
found = refl

was_active : flag (text "t") (mark (active (evaluator_now system) (text "a.x.org.")) []) ≡ true
unfolding program
was_active = refl

is_local : flag (text "t") (local_targets balanced.local_checks) ≡ true
unfolding program
is_local = refl

is_visited :
    Any
      (λ (d : Candidate). d ≡ first)
      (visited
        (evaluator_now system).machine
        (local_targets balanced.local_checks)
        false
        candidates)
unfolding program
is_visited = inl refl

failed : verdict (results (text "t") (passes_of lib decode store first_dir history)) ≡ unhealthy
unfolding program probed_by runner_after
failed = refl

second_answers :
    (response lib decode system (question ∷ []) (4 * second)).answer
    ≡ record { name = text "a.x.org."; ttl = 30; ip = text "10.0.0.2" } ∷ []
unfolding program
second_answers = refl

is_single : text_eq balanced.mode mode_all ≡ false
unfolding program
is_single = refl

failover_example :
    Perm
      (response lib decode system (question ∷ []) (4 * second)).answer
      (selected_records lib (evaluator_now system) question balanced candidates)
    × All
        (λ (r : ARecord). is_backed lib (evaluator_now system) balanced candidates r.ip ≡ true)
        (response lib decode system (question ∷ []) (4 * second)).answer
failover_example =
    failover lib decode store first_dir history zone question (4 * second) balanced candidates first
      served refl found refl refl
      (subst
        (λ all.
          Any (λ (d : Candidate). d ≡ first)
            (visited (evaluator_now system).machine (local_targets balanced.local_checks) all
              candidates))
        (sym is_single) is_visited)
      was_active is_local (omega arith) failed
