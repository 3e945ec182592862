-- ===== src/Remote/Sse.antt =====
-- `Subscribe` of internal/remote/sse.go, from the open stream on: the loop over what the stream, the
-- idle timer and the context deliver.
pub mod Blocks
mod Examples
use zeus_gslb.Prelude.{
  ℕ, suc, Text, text, has_prefix, ◌+◌, Bool, true, false, ◌||◌, List, [], ◌∷◌, length, ◌==◌,
  if◌then◌else◌,
}

-- What the `select` takes: the context is done, the idle timer fires, a line, or the end of the
-- stream.
pub data Signal : Type 0 where
  cancelled idle closed : Signal
  line : Text → Signal

-- How `Subscribe` returns, or that it still waits.
pub data Ending : Type 0 where
  on_cancel on_idle on_close waiting : Ending

-- The body of the `line` case: whether an event field has been seen since the last boundary, and
-- whether `onEvent` is called.
unfoldable pub read_line : Bool → Text → Bool × Bool
read_line saw_event_field s =
    if length s == 0
    then (false, saw_event_field)
    else if has_prefix s (text ":")
    then (saw_event_field, false)
    else if has_prefix s (text "event:") || has_prefix s (text "data:")
    then (true, false)
    else (saw_event_field, false)

-- How often `onEvent` is called, and how the loop ends.
unfoldable pub subscribe : Bool → List Signal → ℕ × Ending
subscribe saw_event_field [] = (0, waiting)
subscribe saw_event_field (cancelled ∷ rest) = (0, on_cancel)
subscribe saw_event_field (idle ∷ rest) = (0, on_idle)
subscribe saw_event_field (closed ∷ rest) = (0, on_close)
subscribe saw_event_field (line s ∷ rest) =
    let (saw', fires) = read_line saw_event_field s in
    let (calls, ending) = subscribe saw' rest in ((if fires then suc calls else calls), ending)
