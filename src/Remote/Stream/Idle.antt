-- ===== src/Remote/Stream/Idle.antt =====
-- The idle timer ends a stream that falls silent, and no other.
use zeus_gslb.Prelude.{
  ℕ, ◌≤◌, ◌<◌, ◌≡◌, ◌≢◌, ◌↔◌, refl, sym, ap, ◌∙◌, arith, ltb, Bool, List, [], ◌∷◌, ◌++◌, All,
  Bool-cases, inl, inr, Text, true, false,
}
use zeus_gslb.Remote.Sse.{
  Signal, cancelled, idle, closed, line, Ending, on_idle, read_line, subscribe,
}
use zeus_gslb.Remote.Stream.{run_timer, with_timer}

-- What comes from the context and from the stream, and not from the timer.
abbrev pub IsOuter : ℕ × Signal → Type 0
IsOuter (wait, s) = s ≢ idle

-- A line that comes no later than the timeout behind what was before it.
abbrev pub IsTimely : ℕ → ℕ × Signal → Type 0
IsTimely timeout (wait, s) = (wait ≤ timeout) × ((text : Text) × (s ≡ line text))

-- Nothing comes within the timeout.
abbrev pub IsSilent : ℕ → List (ℕ × Signal) → Type 0
IsSilent timeout [] = Unit
IsSilent timeout ((wait, s) ∷ rest) = timeout < wait

-- The stream falls silent behind lines that came in time.
pub record FallsSilent (timeout : ℕ) (arrivals : List (ℕ × Signal)) : Type 0 where
  pub before : List (ℕ × Signal)
  pub rest : List (ℕ × Signal)
  pub split : arrivals ≡ before ++ rest
  pub timely : All (IsTimely timeout) before
  pub silent : IsSilent timeout rest

-- How the loop ends with the timer.
abbrev ending : ℕ → Bool → List (ℕ × Signal) → Ending
ending timeout saw arrivals = (subscribe saw (run_timer timeout timeout arrivals)).1

at_once :
    (timeout : ℕ) (rest : List (ℕ × Signal)) → IsSilent timeout rest → FallsSilent timeout rest
at_once timeout rest h = record { before = []; rest = rest; split = refl; timely = tt; silent = h }

next :
    (timeout wait : ℕ) (text : Text) (rest : List (ℕ × Signal))
    → wait ≤ timeout
    → FallsSilent timeout rest
    → FallsSilent timeout ((wait, line text) ∷ rest)
next timeout wait text rest h f = record {
  before = (wait, line text) ∷ f.before;
  rest = f.rest;
  split = ap (λ l. (wait, line text) ∷ l) f.split;
  timely = ((h, (text, refl)), f.timely);
  silent = f.silent;
}

timely_taken :
    (timeout left wait : ℕ) (s : Signal) (rest : List (ℕ × Signal))
    → ltb left wait ≡ false
    → run_timer timeout left ((wait, s) ∷ rest) ≡ s ∷ run_timer timeout timeout rest
unfolding run_timer
timely_taken timeout left wait s rest h = rw h refl

late_fires :
    (timeout left wait : ℕ) (s : Signal) (rest : List (ℕ × Signal))
    → ltb left wait ≡ true
    → run_timer timeout left ((wait, s) ∷ rest) ≡ idle ∷ []
unfolding run_timer
late_fires timeout left wait s rest h = rw h refl

-- How the loop ends on what it takes.
abbrev ends : Bool → List Signal → Ending
ends saw signals = (subscribe saw signals).1

not_late : (timeout wait : ℕ) → ltb timeout wait ≡ false → wait ≤ timeout
not_late timeout wait h = ground arith

late_of : (timeout wait : ℕ) → ltb timeout wait ≡ true → timeout < wait
late_of timeout wait h = ground arith

-- The loop on a signal that comes in time, and what comes behind it.
behind :
    (timeout wait : ℕ) (saw : Bool) (x : Signal) (rest : List (ℕ × Signal))
    → ((saw' : Bool) → ending timeout saw' rest ≡ on_idle → FallsSilent timeout rest)
    → x ≢ idle
    → wait ≤ timeout
    → (subscribe saw (x ∷ run_timer timeout timeout rest)).1 ≡ on_idle
    → FallsSilent timeout ((wait, x) ∷ rest)
unfolding subscribe
behind timeout wait saw cancelled rest ih n h q = absurd (cc q)
behind timeout wait saw idle rest ih n h q = absurd (n refl)
behind timeout wait saw closed rest ih n h q = absurd (cc q)
behind timeout wait saw (line text) rest ih n h q =
    next timeout wait text rest h (ih (read_line saw text).0 q)

idle_falls :
    (timeout : ℕ) (saw : Bool) (arrivals : List (ℕ × Signal))
    → All IsOuter arrivals
    → ending timeout saw arrivals ≡ on_idle
    → FallsSilent timeout arrivals
idle_falls timeout saw [] o e = at_once timeout [] tt
idle_falls timeout saw ((wait, s) ∷ rest) (outer, o) e =
    let ih : (saw' : Bool) → ending timeout saw' rest ≡ on_idle → FallsSilent timeout rest =
      λ saw' q. idle_falls timeout saw' rest o q in
    elim (Bool-cases (ltb timeout wait)) [
      | inl late ↦ at_once timeout ((wait, s) ∷ rest) (late_of timeout wait late)
      | inr early ↦
          behind timeout wait saw s rest ih outer (not_late timeout wait early)
            (ap (ends saw) (sym (timely_taken timeout timeout wait s rest early)) ∙ e)
    ]

falls_idle :
    (timeout : ℕ) (saw : Bool) (before rest : List (ℕ × Signal))
    → All (IsTimely timeout) before
    → IsSilent timeout rest
    → ending timeout saw (before ++ rest) ≡ on_idle
unfolding run_timer subscribe
falls_idle timeout saw [] [] t h = refl
falls_idle timeout saw [] ((wait, s) ∷ rest) t h =
    ap (ends saw) (late_fires timeout timeout wait s rest (ground (arith, h)))
falls_idle timeout saw ((wait, s) ∷ before) rest ((early, (text, is_line)), t) h =
    ap (ends saw) (timely_taken timeout timeout wait s (before ++ rest) (ground (arith, early)))
    ∙ ap (λ x. ends saw (x ∷ run_timer timeout timeout (before ++ rest))) is_line
    ∙ falls_idle timeout (read_line saw text).0 before rest t h

-- The idle timer. For finitely many signals of the context and of the stream, behind which nothing
-- more comes, the loop of `Subscribe` ends with the idle timeout exactly when lines that each come
-- within the timeout behind the one before are followed by nothing within the timeout. So silence
-- ends a stream, even one that is half open; and while lines come in time, be they keepalives, the
-- timer does not end it.
pub subscribe-on_idle :
    (timeout : ℕ) (saw : Bool) (arrivals : List (ℕ × Signal))
    → All IsOuter arrivals
    → ((subscribe saw (with_timer timeout arrivals)).1 ≡ on_idle) ↔ FallsSilent timeout arrivals
unfolding with_timer
subscribe-on_idle timeout saw arrivals o = (
  idle_falls timeout saw arrivals o,
  λ f. ap (ending timeout saw) f.split ∙ falls_idle timeout saw f.before f.rest f.timely f.silent,
)
