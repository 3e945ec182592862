-- ===== src/Remote/Stream.antt =====
-- `Subscribe` of internal/remote/sse.go as a whole: the request, the lines that `bufio.Scanner`
-- makes of the body, and the idle timer.
pub mod Lines
pub mod Events
pub mod Idle
mod Examples
use zeus_gslb.Prelude.{
  ℕ, Text, text, length, ◌+◌, ◌^◌, leb, ltb, Bool, true, false, Option, none, some, List, [], ◌∷◌,
  ◌++◌, ◌==◌, if◌then◌else◌,
}
use zeus_gslb.Prelude.Result.{Result, ok, err, ◌>>=◌}
use zeus_gslb.Remote.Client.{
  Client, Request, Response, Net, ClientError, marshal_report, build_request, transport, read_body,
  unexpected_status, headers_with, events_url, send, read_excerpt,
}
use zeus_gslb.Remote.Sse.{Signal, cancelled, idle, closed, line, Ending, subscribe}

-- The greatest size of the scanner's buffer.
unfoldable pub max_token_size : ℕ
max_token_size = 2 ^ 20

-- `bufio.ScanLines` drops one carriage return at the end of a line.
unfoldable pub drop_cr : Text → Text
drop_cr [] = []
drop_cr (c ∷ []) = if c == 13 then [] else c ∷ []
drop_cr (c ∷ d ∷ s) = c ∷ drop_cr (d ∷ s)

-- Whether more of the body may come, or it has ended, be it by an error.
pub data Tail : Type 0 where
  open_end ended : Tail

-- What is left of the scan at the end of the bytes: a line without its end is one where the body has
-- ended.
unfoldable pub last_line : Tail → Text → List Signal
last_line open_end held = []
last_line ended [] = closed ∷ []
last_line ended (c ∷ held) = line (drop_cr (c ∷ held)) ∷ closed ∷ []

-- The goroutine that reads the stream. `held` are the bytes behind the last line's end; where they
-- fill the buffer, the scanner ends with `ErrTooLong`.
unfoldable pub scan : Tail → Text → Text → List Signal
scan tail held [] = last_line tail held
scan tail held (c ∷ s) =
    let rest = scan tail (if c == 10 then [] else held ++ c ∷ []) s in
    if c == 10
    then line (drop_cr held) ∷ rest
    else if leb max_token_size (length held + 1)
    then closed ∷ []
    else rest

unfoldable pub events_request : Client → Request
events_request c = record {
  method = text "GET";
  url = events_url c;
  headers = headers_with c (text "Accept") (text "text/event-stream");
  content = [];
}

-- How a call of `Subscribe` goes: it is refused with an error, returns `ctx.Err()` since the context
-- is done when `Do` fails, or reads the stream.
pub data Subscription : Type 0 where
  refused : ClientError → Subscription
  stopped : Subscription
  streamed : ℕ × Ending → Subscription

-- The check of the status and the loop over what the stream gives, while the context lives and the
-- timer does not fire.
unfoldable pub read_events : Tail → Response → Subscription
read_events tail a =
    if a.status == 200
    then streamed (subscribe false (scan tail [] a.body))
    else refused (unexpected_status a.status (read_excerpt a))

-- `Subscribe` behind `Do`; `done` says whether the context is done when that fails.
abbrev pub on_response : Bool → Tail → Result ClientError Response → Subscription
on_response done tail (ok a) = read_events tail a
on_response done tail (err transport) = if done then stopped else refused transport
on_response done tail (err marshal_report) = refused marshal_report
on_response done tail (err build_request) = refused build_request
on_response done tail (err read_body) = refused read_body
on_response done tail (err (unexpected_status n s)) = refused (unexpected_status n s)

unfoldable pub subscribe_to : Net → Client → Bool → Tail → Subscription
subscribe_to net c done tail = on_response done tail (send net c.stream_client (events_request c))

-- What the `select` takes when each signal comes so long behind the one before, while the timer has
-- `left` to run: the timer fires where the wait is longer, and at the end where nothing more comes. A
-- line resets it.
unfoldable pub run_timer : ℕ → ℕ → List (ℕ × Signal) → List Signal
run_timer timeout left [] = idle ∷ []
run_timer timeout left ((wait, s) ∷ rest) =
    let others = run_timer timeout timeout rest in if ltb left wait then idle ∷ [] else s ∷ others

-- `time.NewTimer(idleTimeout)`, and what the loop takes from there on.
unfoldable pub with_timer : ℕ → List (ℕ × Signal) → List Signal
with_timer timeout arrivals = run_timer timeout timeout arrivals
