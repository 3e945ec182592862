-- ===== src/Remote/Sse/Blocks.antt =====
-- When `Subscribe` calls `onEvent`, by the blocks between the blank lines.
use zeus_gslb.Prelude.{
  ℕ, suc, Text, text, has_prefix, ◌+◌, ◌≡◌, ◌≢◌, refl, ap, ◌∙◌, Bool, true, false, not, ◌||◌, ◌&&◌,
  List, [], ◌∷◌, map, length, filter, any, All, if◌then◌else◌, arith, Bool-cases, inl, inr,
}
use zeus_gslb.Bundle.Validate.Valid.{length-ne-zero}
use zeus_gslb.Remote.Sse.{Signal, line, Ending, waiting, read_line, subscribe}

-- A line that is neither blank nor a comment, and sets an event or data field.
abbrev pub is_field : Text → Bool
is_field s =
    not (has_prefix s (text ":")) && (has_prefix s (text "event:") || has_prefix s (text "data:"))

-- The lines of blocks, each with a blank line behind it, and then those of an unfinished block.
abbrev pub lines_of : List (List Text) → List Text → List Signal
lines_of [] tail = map line tail
lines_of ([] ∷ blocks) tail = line [] ∷ lines_of blocks tail
lines_of ((s ∷ block) ∷ blocks) tail = line s ∷ lines_of (block ∷ blocks) tail

abbrev pub IsFilled : List Text → Type 0
IsFilled = All (λ (s : Text). s ≢ [])

read_filled : (saw : Bool) (s : Text) → s ≢ [] → read_line saw s ≡ (saw || is_field s, false)
unfolding read_line
read_filled saw s ne = rw (length-ne-zero s ne) (ground arith)

subscribe_filled :
    (saw : Bool) (s : Text) (rest : List Signal)
    → s ≢ []
    → subscribe saw (line s ∷ rest) ≡ subscribe (saw || is_field s) rest
unfolding subscribe
subscribe_filled saw s rest ne = rw (read_filled saw s ne) refl

subscribe_blank :
    (saw : Bool) (rest : List Signal)
    → subscribe saw (line [] ∷ rest) ≡ (
      (if saw then suc (subscribe false rest).0 else (subscribe false rest).0),
      (subscribe false rest).1,
    )
unfolding subscribe read_line
subscribe_blank saw rest = refl

subscribe_tail :
    (saw : Bool) (tail : List Text) → IsFilled tail → subscribe saw (map line tail) ≡ (0, waiting)
subscribe_tail saw [] f = unfold subscribe in refl
subscribe_tail saw (s ∷ tail) f =
    subscribe_filled saw s (map line tail) f.0 ∙ subscribe_tail (saw || is_field s) tail f.1

-- The calls for blocks of which the first has been read in part.
abbrev calls : Bool → List (List Text) → ℕ
calls saw [] = 0
calls saw (block ∷ blocks) =
    (if saw || any is_field block then 1 else 0) + length (filter (any is_field) blocks)

once_assoc :
    (a b c : Bool) (n : ℕ)
    → ((if (a || b) || c then 1 else 0) + n) ≡ ((if a || (b || c) then 1 else 0) + n)
once_assoc true b c n = refl
once_assoc false b c n = refl

calls-false :
    (blocks : List (List Text)) → calls false blocks ≡ length (filter (any is_field) blocks)
calls-false [] = refl
calls-false (block ∷ blocks) = elim (Bool-cases (any is_field block)) [
  | inl h ↦ rw h (omega arith)
  | inr h ↦ rw h (omega arith)
]

add_once :
    (saw : Bool) (blocks : List (List Text))
    → (if saw then suc (calls false blocks) else calls false blocks) ≡ calls saw ([] ∷ blocks)
add_once true blocks = rw (calls-false blocks) (omega arith)
add_once false blocks = rw (calls-false blocks) (omega arith)

pair_waiting : {m n : ℕ} {e : Ending} → m ≡ n → e ≡ waiting → Path (ℕ × Ending) (m, e) (n, waiting)
pair_waiting p q = rw (p, q) refl

blank_calls : Bool → ℕ × Ending → ℕ
blank_calls saw out = if saw then suc out.0 else out.0

ending_blank :
    (saw : Bool) (blocks : List (List Text)) (out : ℕ × Ending)
    → out ≡ (calls false blocks, waiting)
    → Path
        (ℕ × Ending)
        ((if saw then suc out.0 else out.0), out.1)
        (calls saw ([] ∷ blocks), waiting)
unfolding blank_calls
ending_blank saw blocks out h =
    pair_waiting (ap (blank_calls saw) h ∙ add_once saw blocks) (ap (λ x. x.1) h)

subscribe_blocks :
    (saw : Bool) (blocks : List (List Text)) (tail : List Text)
    → All IsFilled blocks
    → IsFilled tail
    → subscribe saw (lines_of blocks tail) ≡ (calls saw blocks, waiting)
subscribe_blocks saw [] tail f g = subscribe_tail saw tail g
subscribe_blocks saw ([] ∷ blocks) tail f g =
    subscribe_blank saw (lines_of blocks tail)
    ∙ ending_blank saw blocks (subscribe false (lines_of blocks tail))
        (subscribe_blocks false blocks tail f.1 g)
subscribe_blocks saw ((s ∷ block) ∷ blocks) tail f g =
    subscribe_filled saw s (lines_of (block ∷ blocks) tail) f.0.0
    ∙ subscribe_blocks (saw || is_field s) (block ∷ blocks) tail (f.0.1, f.1) g
    ∙ pair_waiting
        (once_assoc saw (is_field s) (any is_field block) (length (filter (any is_field) blocks)))
        refl

-- On the lines of whole blocks, each ended by a blank line, and of an unfinished one, `Subscribe`
-- calls `onEvent` once for each whole block with an event or data field, so not for blocks of
-- keepalive comments, and goes on waiting.
pub subscribe_calls :
    (blocks : List (List Text)) (tail : List Text)
    → All IsFilled blocks
    → IsFilled tail
    → subscribe false (lines_of blocks tail) ≡ (length (filter (any is_field) blocks), waiting)
subscribe_calls blocks tail f g =
    subscribe_blocks false blocks tail f g ∙ pair_waiting (calls-false blocks) refl
