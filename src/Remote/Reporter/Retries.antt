-- ===== src/Remote/Reporter/Retries.antt =====
-- When a round of sending delivers its report.
use mathlib.Core.Path.{subst}
use zeus_gslb.Prelude.{
  ℕ, zero, suc, Text, ◌+◌, ◌≤◌, ◌<◌, ◌≡◌, ◌≢◌, ◌⊎◌, ◌↔◌, refl, sym, ◌∙◌, inl, inr, Option, ◌==◌,
  arith, Bool-cases,
}
use zeus_gslb.Prelude.Dict.{Dict}
use zeus_gslb.Remote.Reporter.{
  HealthReporter, delivered, Send, succeeds, fails, fails_done, fails_then_done, send_loop,
  send_now,
}

-- Send number `n` succeeds, and the sends from number `a` on fail before it while the context lives.
pub record FirstSuccess (sends : ℕ → Send) (a n : ℕ) : Type 0 where
  pub from : a ≤ n
  pub before : (j : ℕ) → a ≤ j → j < n → sends j ≡ fails
  pub success : sends n ≡ succeeds

abbrev Delivers : (ℕ → Send) → ℕ → ℕ → ℕ → Type 0
Delivers sends left a n = FirstSuccess sends a n × (n ≤ a + left)

FirstSuccess-here : (sends : ℕ → Send) (a : ℕ) → sends a ≡ succeeds → FirstSuccess sends a a
FirstSuccess-here sends a h = record {
  from = omega arith;
  before = λ j l u. absurd (omega arith);
  success = h;
}

send-cases :
    (s : Send) → (s ≡ succeeds) ⊎ ((s ≡ fails) ⊎ ((s ≡ fails_done) ⊎ (s ≡ fails_then_done)))
send-cases succeeds = inl refl
send-cases fails = inr (inl refl)
send-cases fails_done = inr (inr (inl refl))
send-cases fails_then_done = inr (inr (inr refl))

delivered-injective : {m n : ℕ} → delivered m ≡ delivered n → m ≡ n
delivered-injective h = ground arith

module _ (sends : ℕ → Send) where
  send_loop_here : (left a : ℕ) → sends a ≡ succeeds → send_loop sends left a ≡ delivered a
  unfolding send_loop
  send_loop_here zero a h = ground (arith, h)
  send_loop_here (suc left) a h = ground (arith, h)

  send_loop_next :
      (left a : ℕ) → sends a ≡ fails → send_loop sends (suc left) a ≡ send_loop sends left (a + 1)
  unfolding send_loop
  send_loop_next left a h = ground (arith, h)

  send_loop_cut :
      (left a n : ℕ)
      → (sends a ≡ fails_done) ⊎ (sends a ≡ fails_then_done)
      → send_loop sends left a ≢ delivered n
  unfolding send_loop
  send_loop_cut zero a n (inl h) e = ground arith
  send_loop_cut zero a n (inr h) e = ground arith
  send_loop_cut (suc left) a n (inl h) e = ground arith
  send_loop_cut (suc left) a n (inr h) e = ground arith

  send_loop_last : (a n : ℕ) → sends a ≡ fails → send_loop sends zero a ≢ delivered n
  unfolding send_loop
  send_loop_last a n h e = ground arith

  Delivers-here :
      (left a n : ℕ)
      → sends a ≡ succeeds
      → send_loop sends left a ≡ delivered n
      → Delivers sends left a n
  Delivers-here left a n h e =
      subst (λ k. Delivers sends left a k) (delivered-injective (sym (send_loop_here left a h) ∙ e))
        (FirstSuccess-here sends a h, omega arith)

  send_loop-delivered :
      (left a n : ℕ) → Delivers sends left a n → send_loop sends left a ≡ delivered n
  send_loop-delivered zero a n (f, hi) =
      subst (λ k. send_loop sends zero k ≡ delivered n) (ground (arith, f.from))
        (send_loop_here zero n f.success)
  send_loop-delivered (suc left) a n (f, hi) = elim (Bool-cases (n == a)) [
    | inl here ↦
        subst (λ k. send_loop sends (suc left) k ≡ delivered n) (ground arith)
          (send_loop_here (suc left) n f.success)
    | inr later ↦
        send_loop_next left a (f.before a (omega arith) (ground (arith, f.from)))
        ∙ send_loop-delivered left (a + 1) n (
          record {
            from = ground (arith, f.from);
            before = λ j l u. f.before j (omega arith) u;
            success = f.success;
          },
          omega arith,
        )
  ]

  Delivers-next :
      (left a n : ℕ)
      → sends a ≡ fails
      → Delivers sends left (a + 1) n
      → Delivers sends (suc left) a n
  Delivers-next left a n h (f, hi) = (
    record {
      from = ground (arith, f.from);
      before = λ j l u. elim (Bool-cases (a == j)) [
        | inl same ↦ subst (λ k. sends k ≡ fails) (ground arith) h
        | inr other ↦ f.before j (ground arith) u
      ];
      success = f.success;
    },
    omega arith,
  )

  Delivers-send_loop :
      (left a n : ℕ) → send_loop sends left a ≡ delivered n → Delivers sends left a n
  Delivers-send_loop zero a n e = elim (send-cases (sends a)) [
    | inl h ↦ Delivers-here zero a n h e
    | inr r ↦ elim r [
      | inl h ↦ absurd (send_loop_last a n h e)
      | inr c ↦ absurd (send_loop_cut zero a n c e)
    ]
  ]
  Delivers-send_loop (suc left) a n e = elim (send-cases (sends a)) [
    | inl h ↦ Delivers-here (suc left) a n h e
    | inr r ↦ elim r [
      | inl h ↦
          Delivers-next left a n h
            (Delivers-send_loop left (a + 1) n (sym (send_loop_next left a h) ∙ e))
      | inr c ↦ absurd (send_loop_cut (suc left) a n c e)
    ]
  ]

-- `sendNow` delivers its report with send number `n`, counted from 0, exactly when that send is the
-- first that succeeds, is one of the first six, and the context lives until then.
pub send_now_delivers :
    (cluster : Text) (states : Option (Dict Text)) (sends : ℕ → Send) (r : HealthReporter) (n : ℕ)
    → ((send_now cluster states sends r).2 ≡ delivered n) ↔ (FirstSuccess sends 0 n × (n ≤ 5))
unfolding send_now
send_now_delivers cluster states sends r n =
    (λ e. Delivers-send_loop sends 5 0 n e, λ d. send_loop-delivered sends 5 0 n d)
