-- ===== src/Remote/Reconnect/Refines.antt =====
-- The rounds as runs of the state machine of Remote/Refetch.antt.
use zeus_gslb.Prelude.{
  ℕ, suc, Text, Time, ◌-◌, ◌≡◌, refl, ap, ◌∙◌, arith, ltb, Bool-cases, inl, inr, Option, List, [],
  ◌∷◌, ◌++◌,
}
use zeus_gslb.Bundle.{Bundle}
use zeus_gslb.Bundle.Cache.{Dir}
use zeus_gslb.Bundle.Store.{Store}
use zeus_gslb.Remote.Refetch.{
  Fetch, RunnerSignal, event, poll, stream_down, deadline, Phase, subscribed, down,
  refetch_and_apply, step, run_signals,
}
use zeus_gslb.Remote.Reconnect.{
  poll_fallback_interval, reconnect_backoff, Session, refetch_each, poll_until, run_round,
  run_rounds,
}

abbrev in_phase : Phase → Store × Dir → Phase × Store × Dir
in_phase p x = (p, x.0, x.1)

module _ (unmarshal : Text → Option Bundle) where
  run_signals-append :
      (gs hs : List RunnerSignal) (x : Phase × Store × Dir)
      → run_signals unmarshal (gs ++ hs) x ≡ run_signals unmarshal hs (run_signals unmarshal gs x)
  unfolding run_signals
  run_signals-append [] hs x = refl
  run_signals-append (g ∷ gs) hs x = run_signals-append gs hs (step unmarshal g x)

  -- That signals lead from one phase and state to another.
  abbrev Leads : Phase × Store × Dir → Phase × Store × Dir → Type 0
  Leads x y = (gs : List RunnerSignal) × (run_signals unmarshal gs x ≡ y)

  events-Leads :
      (fs : List Fetch) (x : Store × Dir)
      → Leads (in_phase subscribed x) (in_phase subscribed (refetch_each unmarshal fs x))
  unfolding refetch_each run_signals step
  events-Leads [] (s, d) = ([], refl)
  events-Leads (f ∷ fs) (s, d) =
      let (gs, h) = events-Leads fs (refetch_and_apply unmarshal f s d) in (event f ∷ gs, h)

  polls-Leads :
      (interval left : Time) (fs : List Fetch) (x : Store × Dir)
      → Leads (in_phase down x) (in_phase down (poll_until unmarshal interval left fs x))
  unfolding poll_until run_signals step
  polls-Leads interval left [] (s, d) = ([], refl)
  polls-Leads interval left (f ∷ fs) (s, d) = elim (Bool-cases (ltb interval left)) [
    | inl tick ↦
        let (gs, h) =
          polls-Leads interval (left - interval) fs (refetch_and_apply unmarshal f s d) in
        (poll f ∷ gs, ground (arith, h))
    | inr over ↦ ([], ground arith)
  ]

  both : (x y z : Phase × Store × Dir) → Leads x y → Leads y z → Leads x z
  both x y z (gs, g) (hs, h) =
      (gs ++ hs, run_signals-append gs hs x ∙ ap (run_signals unmarshal hs) g ∙ h)

  signalled : (g : RunnerSignal) (x y : Phase × Store × Dir) → step unmarshal g x ≡ y → Leads x y
  unfolding run_signals
  signalled g x y h = (g ∷ [], h)

  round-Leads :
      (n : ℕ) (session : Session) (x : Store × Dir)
      → Leads (in_phase subscribed x) (in_phase subscribed (run_round unmarshal n session x))
  unfolding run_round step
  round-Leads n session x =
      let y = refetch_each unmarshal session.events x in
      let z = poll_until unmarshal poll_fallback_interval (reconnect_backoff n) session.polls y in
      both (in_phase subscribed x) (in_phase subscribed y) (in_phase subscribed z)
        (events-Leads session.events x)
        (both (in_phase subscribed y) (in_phase down y) (in_phase subscribed z)
          (signalled stream_down (in_phase subscribed y) (in_phase down y) refl)
          (both (in_phase down y) (in_phase down z) (in_phase subscribed z)
            (polls-Leads poll_fallback_interval (reconnect_backoff n) session.polls y)
            (signalled deadline (in_phase down z) (in_phase subscribed z) refl)))

  -- The rounds in time are a run of the loops on signals: some signals lead from the subscription
  -- they start in to the next one, with the store and the cache that the rounds leave.
  run_rounds-Leads :
      (n : ℕ) (sessions : List Session) (x : Store × Dir)
      → Leads (in_phase subscribed x) (in_phase subscribed (run_rounds unmarshal n sessions x))
  unfolding run_rounds run_signals
  run_rounds-Leads n [] x = ([], refl)
  run_rounds-Leads n (session ∷ sessions) x =
      let y = run_round unmarshal (suc n) session x in
      both (in_phase subscribed x) (in_phase subscribed y)
        (in_phase subscribed (run_rounds unmarshal (suc n) sessions y))
        (round-Leads (suc n) session x) (run_rounds-Leads (suc n) sessions y)
