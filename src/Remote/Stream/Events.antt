-- ===== src/Remote/Stream/Events.antt =====
-- `Subscribe` on a stream of printed blocks.
use zeus_gslb.Prelude.{
  Text, length, filter, any, ◌≡◌, refl, ap, Bool, false, List, [], ◌∷◌, ◌++◌, map, All,
}
use zeus_gslb.Remote.Client.{Client, Net, Response}
use zeus_gslb.Remote.Client.Fetching.{Answered, send_sent}
use zeus_gslb.Remote.Sse.{line, Ending, on_close, waiting, read_line, subscribe}
use zeus_gslb.Remote.Sse.Blocks.{is_field, lines_of, IsFilled, subscribe_calls}
use zeus_gslb.Remote.Stream.{
  Tail, open_end, ended, last_line, events_request, streamed, read_events, subscribe_to,
}
use zeus_gslb.Remote.Stream.Lines.{IsLine, print, scan-print}

-- The lines of blocks, a blank one behind each, and those of an unfinished block.
abbrev pub flat : List (List Text) → List Text → List Text
flat [] tail = tail
flat ([] ∷ blocks) tail = [] ∷ flat blocks tail
flat ((s ∷ block) ∷ blocks) tail = s ∷ flat (block ∷ blocks) tail

lines_of-flat :
    (blocks : List (List Text)) (tail : List Text)
    → map line (flat blocks tail) ≡ lines_of blocks tail
lines_of-flat [] tail = refl
lines_of-flat ([] ∷ blocks) tail = ap (◌∷◌ (line [])) (lines_of-flat blocks tail)
lines_of-flat ((s ∷ block) ∷ blocks) tail = ap (◌∷◌ (line s)) (lines_of-flat (block ∷ blocks) tail)

-- How the loop stands at the end of the bytes.
abbrev pub ending_of : Tail → Ending
ending_of open_end = waiting
ending_of ended = on_close

subscribe_last :
    (tail : Tail) (saw : Bool) → subscribe saw (last_line tail []) ≡ (0, ending_of tail)
unfolding subscribe last_line
subscribe_last open_end saw = refl
subscribe_last ended saw = refl

subscribe_end :
    (tail : Tail) (saw : Bool) (lines : List Text)
    → subscribe saw (map line lines ++ last_line tail [])
      ≡ ((subscribe saw (map line lines)).0, ending_of tail)
unfolding subscribe
subscribe_end tail saw [] = subscribe_last tail saw
subscribe_end tail saw (s ∷ lines) = rw (subscribe_end tail (read_line saw s).0 lines) refl

-- `Subscribe` on a server that answers with status 200 and prints its blocks, with either line end:
-- it calls `onEvent` once for each whole block with an event or data field, so not for blocks of
-- keepalive comments, and goes on waiting while the body may go on, and returns when the body ends.
pub subscribe_to_calls :
    (net : Net) (c : Client) (done : Bool) (a : Response) (tail : Tail) (crlf : Bool)
    (blocks : List (List Text)) (rest : List Text)
    → Answered net c.stream_client (events_request c) a
    → a.status ≡ 200
    → a.body ≡ print crlf (flat blocks rest)
    → All IsLine (flat blocks rest)
    → All IsFilled blocks
    → IsFilled rest
    → subscribe_to net c done tail
      ≡ streamed (length (filter (any is_field) blocks), ending_of tail)
unfolding subscribe_to read_events
subscribe_to_calls net c done a tail crlf blocks rest m s b l f g =
    rw
      (
        send_sent net c.stream_client (events_request c) a m,
        s,
        b,
        scan-print tail crlf (flat blocks rest) l,
        subscribe_end tail false (flat blocks rest),
        lines_of-flat blocks rest,
        subscribe_calls blocks rest f g,
      )
      refl
