-- ===== src/Remote/Goroutines/Orderly.antt =====
-- No wake-up is lost, and no transition is lost or reported twice.
use mathlib.Core.Path.{subst}
use mathlib.Core.List.{append-nil, append_assoc}
use zeus_gslb.Prelude.{
  ℕ, Text, ◌≡◌, ◌≢◌, ◌⊎◌, refl, sym, ap, ◌∙◌, inl, inr, true, false, some, List, [], ◌∷◌, ◌++◌,
}
use zeus_gslb.Remote.Reporter.{Transition, report_of}
use zeus_gslb.Remote.Reporter.Rounds.{reported}
use zeus_gslb.Remote.Goroutines.{
  outside, entered, prepared, appended, Sender, starting, selecting, due, taken, sending, stopped,
  Goroutines, ensure_init, Step, calls, prepares, appends, wakes, starts, heartbeats, receives,
  takes, reports, finishes, stops, Reachable, start, then_step,
}
use zeus_gslb.Remote.Goroutines.Steps.{
  in_hand, is_made, is_prepared, moved, update-ready, update_self, in_turn, prepared-made,
  prepared-wake, offer-made, offer-wake, reported-append,
}

-- The queue will be taken: the channel holds a value, or `sendNow` is about to take the queue, or a
-- goroutine is about to send on the channel.
abbrev pub IsAwake : Goroutines → Type 0
IsAwake s = (s.wake ≡ some true) ⊎ (s.sender ≡ due) ⊎ ((i : ℕ) × (s.callers i ≡ appended))

record IsOrderly (s : Goroutines) : Type 0 where
  made : is_made s.wake ≡ s.initialized
  ready : (i : ℕ) → is_prepared (s.callers i) ≡ true → s.initialized ≡ true
  awake : s.pending ≢ [] → IsAwake s
  counted : reported s.sent ++ in_hand s.sender ++ s.pending ≡ s.notified

counted_at :
    (s : Goroutines) (p : Sender)
    → s.sender ≡ p
    → IsOrderly s
    → reported s.sent ++ in_hand p ++ s.pending ≡ s.notified
counted_at s p h o =
    subst (λ (q : Sender). reported s.sent ++ in_hand q ++ s.pending ≡ s.notified) h o.counted

-- A step of `Run` that leaves the queue and is not at the start of `sendNow`.
elsewhere :
    (s : Goroutines) (p q : Sender)
    → s.sender ≡ p
    → p ≢ due
    → s.pending ≢ []
    → IsOrderly s
    → (s.wake ≡ some true) ⊎ (q ≡ due) ⊎ ((i : ℕ) × (s.callers i ≡ appended))
elsewhere s p q h n full o = in_turn (λ e. absurd (n (sym h ∙ e))) (λ c. c) (o.awake full)

Step-IsOrderly : (cluster : Text) (s t : Goroutines) → Step cluster s t → IsOrderly s → IsOrderly t
unfolding ensure_init
Step-IsOrderly cluster s t (calls i x h) o = record {
  made = o.made;
  ready =
      update-ready s.callers i (entered x) s.initialized s.initialized (λ q. absurd (cc q)) (λ q. q)
        o.ready;
  awake = λ p. in_turn (λ q. q) (moved s.callers i (entered x) (λ q. cc (h, q))) (o.awake p);
  counted = o.counted;
}
Step-IsOrderly cluster s t (prepares i x h) o = record {
  made = prepared-made s.wake s.initialized o.made;
  ready = λ j q. refl;
  awake = λ p. elim (o.awake p) [
    | inl w ↦ inl (prepared-wake s.wake s.initialized o.made w)
    | inr (inl d) ↦ inr (inl d)
    | inr (inr c) ↦ inr (inr (moved s.callers i (prepared x) (λ q. cc (h, q)) c))
  ];
  counted = o.counted;
}
Step-IsOrderly cluster s t (appends i x h) o = record {
  made = o.made;
  ready =
      update-ready s.callers i appended s.initialized s.initialized (λ q. o.ready i (rw h refl))
        (λ q. q) o.ready;
  awake = λ p. inr (inr (i, update_self s.callers i appended));
  counted =
      sym (append_assoc (reported s.sent ++ in_hand s.sender) s.pending (x ∷ []))
      ∙ ap (λ l. l ++ x ∷ []) o.counted;
}
Step-IsOrderly cluster s t (wakes i h) o = record {
  made = offer-made s.wake (o.made ∙ o.ready i (rw h refl)) ∙ sym (o.ready i (rw h refl));
  ready =
      update-ready s.callers i outside s.initialized s.initialized (λ q. absurd (cc q)) (λ q. q)
        o.ready;
  awake = λ p. inl (offer-wake s.wake (o.made ∙ o.ready i (rw h refl)));
  counted = o.counted;
}
Step-IsOrderly cluster s t (starts h) o = record {
  made = prepared-made s.wake s.initialized o.made;
  ready = λ j q. refl;
  awake = λ p. elim (elsewhere s starting selecting h (λ q. cc q) p o) [
    | inl w ↦ inl (prepared-wake s.wake s.initialized o.made w)
    | inr later ↦ inr later
  ];
  counted = counted_at s starting h o;
}
Step-IsOrderly cluster s t (heartbeats h) o = record {
  made = o.made;
  ready = o.ready;
  awake = λ p. inr (inl refl);
  counted = counted_at s selecting h o;
}
Step-IsOrderly cluster s t (receives h w) o = record {
  made = ap is_made (sym w) ∙ o.made;
  ready = o.ready;
  awake = λ p. inr (inl refl);
  counted = counted_at s selecting h o;
}
Step-IsOrderly cluster s t (takes h) o = record {
  made = o.made;
  ready = o.ready;
  awake = λ p. absurd (p refl);
  counted =
      append-nil (reported s.sent ++ s.pending)
      ∙ ap (λ l. l ++ s.pending) (sym (append-nil (reported s.sent)))
      ∙ counted_at s due h o;
}
Step-IsOrderly cluster s t (reports ts states h) o = record {
  made = o.made;
  ready = o.ready;
  awake = λ p.
      elsewhere s (taken ts)
        (sending (report_of cluster states (record { pending = ts; woken = false }))) h (λ q. cc q)
        p o;
  counted = counted_at s (taken ts) h o;
}
Step-IsOrderly cluster s t (finishes r h) o = record {
  made = o.made;
  ready = o.ready;
  awake = λ p. elsewhere s (sending r) selecting h (λ q. cc q) p o;
  counted =
      ap (λ l. l ++ s.pending) (append-nil (reported (s.sent ++ r ∷ [])) ∙ reported-append s.sent r)
      ∙ counted_at s (sending r) h o;
}
Step-IsOrderly cluster s t (stops h) o = record {
  made = o.made;
  ready = o.ready;
  awake = λ p. elsewhere s selecting stopped h (λ q. cc q) p o;
  counted = counted_at s selecting h o;
}

Reachable-IsOrderly : (cluster : Text) (s : Goroutines) → Reachable cluster s → IsOrderly s
Reachable-IsOrderly cluster s start = record {
  made = refl;
  ready = λ j q. absurd (cc q);
  awake = λ p. absurd (p refl);
  counted = refl;
}
Reachable-IsOrderly cluster t (then_step s u r st) =
    Step-IsOrderly cluster s t st (Reachable-IsOrderly cluster s r)

-- No wake-up is lost: whatever the order of the steps of the goroutines that notify and of `Run`,
-- while a transition waits in the queue, the channel holds a value, or `sendNow` is about to take the
-- queue, or a goroutine that has appended is about to send on the channel.
pub pending-IsAwake :
    (cluster : Text) (s : Goroutines) → Reachable cluster s → s.pending ≢ [] → IsAwake s
pending-IsAwake cluster s r p = (Reachable-IsOrderly cluster s r).awake p

-- In every such state the reports whose rounds are over, what `sendNow` has in hand and the queue
-- carry each transition that the mutex has admitted exactly once, in that order.
pub reported-notified :
    (cluster : Text) (s : Goroutines)
    → Reachable cluster s
    → reported s.sent ++ in_hand s.sender ++ s.pending ≡ s.notified
reported-notified cluster s r = (Reachable-IsOrderly cluster s r).counted

empty_or : (l : List Transition) → (l ≡ []) ⊎ (l ≢ [])
empty_or [] = inl refl
empty_or (t ∷ l) = inr (λ q. cc q)

asleep :
    (s : Goroutines)
    → s.sender ≡ selecting
    → s.wake ≢ some true
    → ((i : ℕ) → s.callers i ≡ outside)
    → ¬ IsAwake s
asleep s h empty quiet (inl w) = empty w
asleep s h empty quiet (inr (inl d)) = cc (h, d)
asleep s h empty quiet (inr (inr (i, c))) = cc (quiet i, c)

-- Where `Run` waits at its `select` and could not go on by the channel, and no goroutine is in a
-- call, every transition has been in exactly one report, in the order of the mutex: none waits for
-- the next heartbeat.
pub quiet-reported :
    (cluster : Text) (s : Goroutines)
    → Reachable cluster s
    → s.sender ≡ selecting
    → s.wake ≢ some true
    → ((i : ℕ) → s.callers i ≡ outside)
    → reported s.sent ≡ s.notified
quiet-reported cluster s r at_select empty quiet =
    let o = Reachable-IsOrderly cluster s r in
    elim (empty_or s.pending) [
      | inl none_waits ↦
          sym (append-nil (reported s.sent))
          ∙ sym (append-nil (reported s.sent ++ []))
          ∙ ap (λ l. reported s.sent ++ [] ++ l) (sym none_waits)
          ∙ counted_at s selecting at_select o
      | inr waits ↦ absurd (asleep s at_select empty quiet (o.awake waits))
    ]
