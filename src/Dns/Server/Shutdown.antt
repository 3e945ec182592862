-- ===== src/Dns/Server/Shutdown.antt =====
-- `Run` never returns with a listener that was not told to stop, and no goroutine is stuck.
use zeus_gslb.Prelude.{
  ℕ, Text, length, length-append, ◌+◌, ◌≤◌, ◌≡◌, ◌⊎◌, refl, inl, inr, arith, true, Option, [], ◌∷◌,
}
use zeus_gslb.Dns.Server.{
  Listener, serving, sent, returned, Phase, selecting, by_context, by_listener, Server,
  err_ch_capacity, started, shutdown, Step, udp_returns, tcp_returns, udp_sends, tcp_sends, cancels,
  takes_done, takes_error,
}

-- The states that `Run` can be in.
pub data Reachable : Server → Type 0 where
  start : Reachable started
  then_step : (s t : Server) → Reachable s → Step s t → Reachable t

-- The values that a listener has still to send.
abbrev pub unsent : Listener → ℕ
unsent serving = 1
unsent (returned e) = 1
unsent sent = 0

-- What holds in every state: the channel has room for what is still to be sent; and where `Run` is
-- back, both listeners have been told to shut down, and either the context is done or some listener
-- has returned.
pub record IsOrderly (s : Server) : Type 0 where
  pub room : length s.err_ch + (unsent s.udp + unsent s.tcp) ≤ err_ch_capacity
  pub stopped : (s.phase ≡ selecting) ⊎ ((s.udp_stopped ≡ true) × (s.tcp_stopped ≡ true))
  pub cause : (e : Option Text) → s.phase ≡ by_listener e → (s.udp ≡ sent) ⊎ (s.tcp ≡ sent)
  pub told : s.phase ≡ by_context → s.cancelled ≡ true
  pub queued : (s.err_ch ≡ []) ⊎ ((s.udp ≡ sent) ⊎ (s.tcp ≡ sent))

-- A listener that still serves is not the one that has sent.
other_sent : {u : Listener} {q : Type 0} → u ≡ serving → (u ≡ sent) ⊎ q → q
other_sent h (inl s) = absurd (cc (h, s))
other_sent h (inr q) = q

one_sent : {u : Listener} {q : Type 0} → u ≡ serving → q ⊎ (u ≡ sent) → q
one_sent h (inr s) = absurd (cc (h, s))
one_sent h (inl q) = q

later : {p q r : Type 0} → (q → r) → p ⊎ q → p ⊎ r
later f (inl x) = inl x
later f (inr y) = inr (f y)

Step-IsOrderly : (s t : Server) → Step s t → IsOrderly s → IsOrderly t
Step-IsOrderly s t (udp_returns e u) i = record {
  room = ground (arith, i.room);
  stopped = i.stopped;
  cause = λ e' h. inr (other_sent u (i.cause e' h));
  told = i.told;
  queued = later (λ q. inr (other_sent u q)) i.queued;
}
Step-IsOrderly s t (tcp_returns e u) i = record {
  room = ground (arith, i.room);
  stopped = i.stopped;
  cause = λ e' h. inl (one_sent u (i.cause e' h));
  told = i.told;
  queued = later (λ q. inl (one_sent u q)) i.queued;
}
Step-IsOrderly s t (udp_sends e u c) i = record {
  room = ground (arith, i.room, length-append s.err_ch (e ∷ []));
  stopped = i.stopped;
  cause = λ e' h. inl refl;
  told = i.told;
  queued = inr (inl refl);
}
Step-IsOrderly s t (tcp_sends e u c) i = record {
  room = ground (arith, i.room, length-append s.err_ch (e ∷ []));
  stopped = i.stopped;
  cause = λ e' h. inr refl;
  told = i.told;
  queued = inr (inr refl);
}
Step-IsOrderly s t cancels i = record {
  room = i.room;
  stopped = i.stopped;
  cause = i.cause;
  told = λ h. refl;
  queued = i.queued;
}
Step-IsOrderly s t (takes_done p c) i =
    unfold shutdown in
    record {
      room = i.room;
      stopped = inr (refl, refl);
      cause = λ e h. absurd (cc h);
      told = λ h. c;
      queued = i.queued;
    }
Step-IsOrderly s t (takes_error e rest p c) i =
    unfold shutdown in
    record {
      room = ground (arith, i.room, c);
      stopped = inr (refl, refl);
      cause = λ e' h. elim i.queued [ inl n ↦ absurd (cc (n, c)) | inr q ↦ q ];
      told = λ h. absurd (cc h);
      queued = elim i.queued [ inl n ↦ absurd (cc (n, c)) | inr q ↦ inr q ];
    }

pub Reachable-IsOrderly : (s : Server) → Reachable s → IsOrderly s
Reachable-IsOrderly s start =
    unfold started in
    record {
      room = omega arith;
      stopped = inl refl;
      cause = λ e h. absurd (cc h);
      told = λ h. absurd (cc h);
      queued = inl refl;
    }
Reachable-IsOrderly t (then_step s u r st) = Step-IsOrderly s t st (Reachable-IsOrderly s r)

-- What holds of `Run` where it is: nothing at its `select`; back from it, both listeners have been
-- told to shut down, and the context is done, or a listener has returned and sent its value.
abbrev pub IsOver : Phase → Server → Type 0
IsOver selecting s = Unit
IsOver by_context s = (s.udp_stopped ≡ true) × (s.tcp_stopped ≡ true) × (s.cancelled ≡ true)
IsOver (by_listener e) s =
    (s.udp_stopped ≡ true) × (s.tcp_stopped ≡ true) × ((s.udp ≡ sent) ⊎ (s.tcp ≡ sent))

IsOrderly-IsOver : (s : Server) (p : Phase) → s.phase ≡ p → IsOrderly s → IsOver p s
IsOrderly-IsOver s selecting h i = tt
IsOrderly-IsOver s by_context h i = elim i.stopped [
  | inl e ↦ absurd (cc (e, h))
  | inr (u, t) ↦ (u, t, i.told h)
]
IsOrderly-IsOver s (by_listener e) h i = elim i.stopped [
  | inl q ↦ absurd (cc (q, h))
  | inr (u, t) ↦ (u, t, i.cause e h)
]

-- In every state that `Run` reaches, whatever the order of its steps and of those of its goroutines:
-- where it is back, both listeners have been told to shut down; it is back with `ctx.Err()` only
-- where the context is done, and with a value of the channel only where a listener has sent one; and
-- the channel has room for all that is still to be sent, so no goroutine is kept waiting at it.
pub run_ends :
    (s : Server)
    → Reachable s
    → IsOver s.phase s × (length s.err_ch + (unsent s.udp + unsent s.tcp) ≤ err_ch_capacity)
run_ends s r = let i = Reachable-IsOrderly s r in (IsOrderly-IsOver s s.phase refl i, i.room)
