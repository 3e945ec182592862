-- ===== src/Remote/Sse/Examples.antt =====
-- A keepalive block, an event block and the beginning of another.
use zeus_gslb.Prelude.{Text, text, has_prefix, false, ◌≡◌, refl, List, [], ◌∷◌}
use zeus_gslb.Remote.Sse.{waiting, read_line, subscribe}
use zeus_gslb.Remote.Sse.Blocks.{lines_of}

abbrev blocks : List (List Text)
blocks = (text ":" ∷ []) ∷ (text "id:1" ∷ text "data:" ∷ []) ∷ []

keepalives_are_silent : subscribe false (lines_of blocks (text "event:" ∷ [])) ≡ (1, waiting)
unfolding subscribe read_line has_prefix
keepalives_are_silent = refl
