-- ===== src/Dns/Damper/Tracks.antt =====
-- The log of changes that an entry of the damper keeps, against the moves of its name.
use zeus_gslb.Prelude.{
  Time, ℕ, ◌+◌, ◌≤◌, ◌≡◌, ◌⊎◌, refl, Bool, true, false, not, ◌&&◌, some, List, [], ◌∷◌, ◌++◌,
  length, filter, All, leb, if◌then◌else◌, arith, inl, inr, Bool-cases,
}
use zeus_gslb.Bundle.{Answer}
use zeus_gslb.Dns.Answers.{answer_set_equal}
use zeus_gslb.Dns.Answers.Multiset.{answer_set_equal_refl}
use zeus_gslb.Dns.Damper.{
  RecordDampState, damp_window, is_recent, evaluate_entry, decide_move, maybe_auto_unfreeze,
  prune_window,
}
use zeus_gslb.Dns.Damper.Moves.{unfreeze-served}

-- How many of the times lie within the window that ends at `w`.
abbrev pub in_window : Time → List Time → ℕ
in_window w ts = length (filter (λ t. leb t w && is_recent w t) ts)

-- How many of the times lie less than a window before `w`.
abbrev pub count : Time → List Time → ℕ
count w ts = length (filter (is_recent w) ts)

count-append : (w : Time) (ts : List Time) (t : Time) → count w (ts ++ t ∷ []) ≡ count w (t ∷ ts)
count-append w [] t = refl
count-append w (s ∷ ts) t = ground (arith, count-append w ts t)

count-prune : (w now : Time) (ts : List Time) → now ≤ w → count w (prune_window ts now) ≡ count w ts
unfolding prune_window
count-prune w now [] h = refl
count-prune w now (t ∷ ts) h = ground (arith, count-prune w now ts)

pub count_antitone : (v w : Time) (ts : List Time) → v ≤ w → count w ts ≤ count v ts
count_antitone v w [] h = omega arith
count_antitone v w (t ∷ ts) h = ground (arith, count_antitone v w ts)

count_old :
    (b w : Time) (ts : List Time) → All (λ t. t ≤ b) ts → b + damp_window ≤ w → count w ts ≡ 0
count_old b w [] h old = refl
count_old b w (t ∷ ts) h old = ground (arith, count_old b w ts h.1 old)

pub in_window-le : (w : Time) (ts : List Time) → in_window w ts ≤ count w ts
in_window-le w [] = omega arith
in_window-le w (t ∷ ts) = ground (arith, in_window-le w ts)

All-mono : (a b : Time) (ts : List Time) → a ≤ b → All (λ t. t ≤ a) ts → All (λ t. t ≤ b) ts
All-mono a b [] h old = tt
All-mono a b (t ∷ ts) h old = (omega arith, All-mono a b ts h old.1)

-- An entry's log of changes counts the moves of its name, at every time from the last call on.
pub record Tracks (ts : List Time) (last : Time) (rs : RecordDampState) : Type 0 where
  pub past : All (λ t. t ≤ last) ts
  pub counts : (w : Time) → last ≤ w → count w ts ≡ count w rs.change_log
  pub quiet : rs.frozen ≡ true → All (λ t. t ≤ rs.last_suppressed) ts

unfreeze-Tracks :
    (ts : List Time) (last now : Time) (rs : RecordDampState)
    → last ≤ now
    → Tracks ts last rs
    → Tracks ts now (maybe_auto_unfreeze rs now)
unfreeze-Tracks ts last now rs h t = record {
  past = All-mono last now ts h t.past;
  counts = λ w k.
      unfold maybe_auto_unfreeze in
      elim (Bool-cases rs.frozen) [
        | inl f ↦ ground (arith, t.counts w, count_old rs.last_suppressed w ts (t.quiet f))
        | inr f ↦ ground (arith, t.counts w)
      ];
  quiet = λ f. unfold maybe_auto_unfreeze in ground (arith, t.quiet);
}

pub and_false : (b : Bool) → (b && false) ≡ false
and_false true = refl
and_false false = refl

-- The moves of a name once one more call has led from one entry to the next.
abbrev pub noted : Bool → Time → RecordDampState → RecordDampState → List Time → List Time
noted forced now rs rs' ts =
    if not (answer_set_equal rs.served rs'.served) && not forced then now ∷ ts else ts

module _ (ts : List Time) (rs : RecordDampState) (c : List Answer) (forced : Bool)
    (now : Time) where
  abbrev next : RecordDampState
  next = (decide_move rs c forced now).0

  decide_move-past : All (λ t. t ≤ now) ts → All (λ t. t ≤ now) (noted forced now rs next ts)
  decide_move-past h = ground arith

  decide_move-counts :
      Tracks ts now rs
      → (w : Time) → now ≤ w
      → count w (noted forced now rs next ts) ≡ count w next.change_log
  unfolding decide_move
  decide_move-counts t w h = ground (
    arith,
    t.counts w,
    answer_set_equal_refl rs.served,
    count-prune w now (rs.change_log ++ now ∷ []) h,
    count-append w rs.change_log now,
  )

  -- Kept, moved by force, suppressed, or moved and logged.
  decide_move_outcomes :
      (next ≡ rs)
      ⊎ ((forced ≡ true) × (next ≡ record rs { served = c }))
      ⊎ (next ≡ record rs { frozen = true; last_suppressed = now })
      ⊎ ((rs.frozen ≡ false)
          × (next ≡ record rs {
            change_log = prune_window (rs.change_log ++ now ∷ []) now;
            served = c;
          }))
  unfolding decide_move
  decide_move_outcomes = ground arith

  decide_move-quiet :
      Tracks ts now rs
      → next.frozen ≡ true
      → All (λ t. t ≤ next.last_suppressed) (noted forced now rs next ts)
  decide_move-quiet t = elim decide_move_outcomes [
    | inl e ↦ rw (e, answer_set_equal_refl rs.served) t.quiet
    | inr (inl (u, e)) ↦ rw (e, u, and_false) t.quiet
    | inr (inr (inl e)) ↦ rw (e, answer_set_equal_refl rs.served) (λ f. t.past)
    | inr (inr (inr (z, e))) ↦ rw (e, z) (λ f. cc)
  ]

  decide_move-Tracks : Tracks ts now rs → Tracks (noted forced now rs next ts) now next
  decide_move-Tracks t = record {
    past = decide_move-past t.past;
    counts = decide_move-counts t;
    quiet = decide_move-quiet t;
  }

  -- A call that moves the name without being forced leaves at most three moves in its window.
  decide_move-bound :
      Tracks ts now rs
      → forced ≡ false
      → answer_set_equal rs.served next.served ≡ false
      → count now (now ∷ ts) ≤ 3
  unfolding decide_move
  decide_move-bound t u m =
      ground
        (arith, t.counts now, answer_set_equal_refl rs.served, count-append now rs.change_log now)

-- One call on the entry of its name keeps the log of changes and the moves in step.
pub evaluate_entry-Tracks :
    (ts : List Time) (last now : Time) (rs : RecordDampState) (c : List Answer) (forced : Bool)
    → last ≤ now
    → Tracks ts last rs
    → Tracks
        (noted forced now rs (evaluate_entry (some rs) c forced now).0 ts)
        now
        (evaluate_entry (some rs) c forced now).0
evaluate_entry-Tracks ts last now rs c forced h t =
    unfold evaluate_entry in
    let r = maybe_auto_unfreeze rs now in
    rw unfreeze-served at
      (decide_move-Tracks ts r c forced now (unfreeze-Tracks ts last now rs h t))

pub evaluate_entry-bound :
    (ts : List Time) (last now : Time) (rs : RecordDampState) (c : List Answer)
    → last ≤ now
    → Tracks ts last rs
    → answer_set_equal rs.served (evaluate_entry (some rs) c false now).0.served ≡ false
    → count now (now ∷ ts) ≤ 3
evaluate_entry-bound ts last now rs c h t =
    unfold evaluate_entry in
    λ m.
      decide_move-bound ts (maybe_auto_unfreeze rs now) c false now
        (unfreeze-Tracks ts last now rs h t) refl (rw unfreeze-served m)

pub Tracks-later :
    (ts : List Time) (last now : Time) (rs : RecordDampState)
    → last ≤ now
    → Tracks ts last rs
    → Tracks ts now rs
Tracks-later ts last now rs h t = record {
  past = All-mono last now ts h t.past;
  counts = λ w k. t.counts w (omega arith);
  quiet = t.quiet;
}
