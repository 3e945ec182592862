-- ===== src/Dns/Queries.antt =====
-- internal/dnsserver/handler.go and evaluate.go under concurrent queries. The DNS library runs
-- `ServeDNS` on a goroutine of its own for each request. A step is what one of them does between two
-- points at which it reads or writes what they share: the bundle of the store, the active keys, the
-- damper and the health of the local checks.
pub mod Branches
pub mod Alone
pub mod Fits
pub mod Sourced
pub mod Stocked
pub mod Stale
pub mod Race
pub mod Rate
mod Examples
use mathlib.Core.List.{flatten}
use zeus_gslb.Prelude.{
  Time, ℕ, Text, text_eq, ◌==◌, Bool, true, false, not, ◌&&◌, Option, none, some, List, [], ◌∷◌,
  ◌++◌, length, if◌then◌else◌,
}
use zeus_gslb.Prelude.Dict
use zeus_gslb.Prelude.Dict.{Dict}
use zeus_gslb.Bundle.{Answer, Bundle, Candidate, Record, mode_all}
use zeus_gslb.Dns.Answers.{answer_set_equal}
use zeus_gslb.Dns.Damper.{Damper, new_damper, evaluate}
use zeus_gslb.Dns.Evaluator.{
  LocalHealth, Evaluator, Walked, nothing_walked, viable, flag, mark, local_targets, active,
  legacy_answers,
}
use zeus_gslb.Dns.Handler.{
  Library, Question, Qtype, type_a, type_aaaa, other_type, Msg, refused, server_failure, lookup,
  set_nxdomain, fill_answer, answer_aaaa, answer_other,
}

-- What the queries share, but for the health of the checks: `Current()` of the store, and the
-- damper and the active keys of the evaluator.
pub record Shared : Type 0 where
  pub current : Option Bundle
  pub damper : Damper
  pub active_keys : Dict (List Text)

-- The local variables of `answerA` at its call of `Resolve`.
pub record Job : Type 0 where
  pub msg : Msg
  pub name : Text
  pub rec : Record

-- Where a goroutine is: not in use, at `Current()`, at the read of the active keys, in the loop over
-- the candidates, at `Evaluate`, at the write of the active keys, and with its response written.
pub data Query : Type 0 where
  idle : Query
  asked : List Question → Query
  reading : Job → List Candidate → Query
  walking : Job → Dict Bool → List Candidate → Walked → Query
  deciding : Job → Walked → Query
  recording : Job → Walked → List Answer → Query
  written : Msg → Query

-- The evaluator that a goroutine sees.
abbrev pub evaluator_of : Option LocalHealth → Shared → Evaluator
evaluator_of health m = record { machine = health; damper = m.damper; active_keys = m.active_keys }

module _ (lib : Library) where
  -- `Resolve` up to its read of the active keys.
  unfoldable pub begin_resolve : Job → Query
  begin_resolve job = elim job.rec.candidates [
    | none ↦ written (fill_answer lib job.msg job.name job.rec (legacy_answers job.rec))
    | some cs ↦ reading job cs
  ]

  unfoldable pub begin_query : Msg → Bundle → Text → Text → Qtype → Query
  begin_query msg b zone name type_a = elim (lookup lib b name) [
    | none ↦ written (set_nxdomain lib msg zone)
    | some rec ↦ begin_resolve (record { msg = msg; name = name; rec = rec })
  ]
  begin_query msg b zone name type_aaaa = written (answer_aaaa lib msg b zone name)
  begin_query msg b zone name (other_type t) = written (answer_other lib msg b zone name)

  unfoldable pub begin_question : Msg → Option Bundle → Question → Query
  begin_question msg none q = written (record msg { rcode = server_failure })
  begin_question msg (some b) q =
      let zone = lib.fqdn b.domain in
      let name = lib.fqdn q.name in
      if not (lib.is_sub_domain zone name)
      then written (record msg { rcode = refused })
      else begin_query msg b zone name q.qtype

  -- `ServeDNS` from its start, with what `Current()` gives.
  unfoldable pub begin : Option Bundle → List Question → Query
  begin current questions =
      let msg = record (lib.set_reply questions) {
        authoritative = true;
        recursion_available = false;
      } in
      elim questions [
        | [] ↦ written (record msg { rcode = refused })
        | q ∷ [] ↦ begin_question msg current q
        | q ∷ q' ∷ rest ↦ written (record msg { rcode = refused })
      ]

  -- Behind the loop.
  unfoldable pub gathered : Job → Walked → Query
  gathered job w =
      if length w.groups == 0
      then written (fill_answer lib job.msg job.name job.rec none)
      else deciding job w

  -- One round of the loop, with what the checks say of its candidate then.
  unfoldable pub look_at :
      Option LocalHealth → Job → Dict Bool → Candidate → List Candidate → Walked → Query
  look_at health job prev cand rest w =
      let (is_viable, effective_unhealthy) =
        viable health cand (local_targets job.rec.local_checks) in
      let forced = if flag cand.target_key prev && effective_unhealthy then true else w.forced in
      let skipped = record w { forced = forced } in
      let taken : Walked = record {
        viable_keys = w.viable_keys ++ cand.target_key ∷ [];
        groups = w.groups ++ cand.answers ∷ [];
        forced = forced;
      } in
      if is_viable && length cand.answers == 0
      then walking job prev rest skipped
      else if is_viable
      then (if not (text_eq job.rec.mode mode_all)
          then gathered job taken
          else walking job prev rest taken)
      else walking job prev rest skipped

  -- One step of a goroutine, with what the checks and the clock show then. `Evaluate` is one step.
  unfoldable pub advance : Option LocalHealth → Time → Shared → Query → Shared × Query
  advance health now m idle = (m, idle)
  advance health now m (asked questions) = (m, begin m.current questions)
  advance health now m (reading job cs) =
      (m, walking job (mark (active (evaluator_of health m) job.rec.fqdn) []) cs nothing_walked)
  advance health now m (walking job prev [] w) = (m, gathered job w)
  advance health now m (walking job prev (cand ∷ rest) w) = (m, look_at health job prev cand rest w)
  advance health now m (deciding job w) =
      let (damper, served) = evaluate m.damper job.rec.fqdn (flatten w.groups) w.forced now in
      (record m { damper = damper }, recording job w served)
  advance health now m (recording job w served) = (
    record m {
      active_keys =
          if answer_set_equal served (flatten w.groups)
          then Dict.put job.rec.fqdn w.viable_keys m.active_keys
          else m.active_keys;
    },
    written (fill_answer lib job.msg job.name job.rec (some served)),
  )
  advance health now m (written msg) = (m, written msg)

-- The goroutines over what they share.
pub record Queries : Type 0 where
  pub shared : Shared
  pub queries : ℕ → Query

-- What happens: a request on a goroutine that has none, a step of a goroutine, and a bundle that the
-- store takes.
pub data Turn : Type 0 where
  arrives : ℕ → List Question → Turn
  steps : ℕ → Option LocalHealth → Time → Turn
  swaps : Bundle → Turn

abbrev pub update : (ℕ → Query) → ℕ → Query → ℕ → Query
update f i q j = if j == i then q else f j

abbrev pub receive : List Question → Query → Query
receive questions idle = asked questions
receive questions (written msg) = asked questions
receive questions q = q

module _ (lib : Library) where
  unfoldable pub turn : Turn → Queries → Queries
  turn (arrives i questions) s = record s {
    queries = update s.queries i (receive questions (s.queries i));
  }
  turn (steps i health now) s =
      let (m, q) = advance lib health now s.shared (s.queries i) in
      record { shared = m; queries = update s.queries i q }
  turn (swaps b) s = record s { shared = record s.shared { current = some b } }

  -- The turns in their order.
  unfoldable pub take_turns : List Turn → Queries → Queries
  take_turns [] s = s
  take_turns (t ∷ ts) s = take_turns ts (turn t s)
