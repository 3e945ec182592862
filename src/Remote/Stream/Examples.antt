-- ===== src/Remote/Stream/Examples.antt =====
-- A stream of a keepalive, an event and the beginning of another event.
use zeus_gslb.Prelude.{
  ℕ, Text, text, length, filter, any, ◌≡◌, refl, arith, true, false, some, List, [], ◌∷◌, All, ◌↔◌,
}
use zeus_gslb.Remote.Client.{Client, Net, Response, new_client}
use zeus_gslb.Remote.Sse.{Signal, idle, on_idle, line, closed, subscribe}
use zeus_gslb.Remote.Sse.Blocks.{is_field}
use zeus_gslb.Remote.Stream.{max_token_size, ended, streamed, subscribe_to, with_timer, run_timer}
use zeus_gslb.Remote.Stream.Lines.{print}
use zeus_gslb.Remote.Stream.Events.{flat, ending_of, subscribe_to_calls}
use zeus_gslb.Remote.Stream.Idle.{subscribe-on_idle, IsOuter, FallsSilent}

abbrev blocks : List (List Text)
blocks = (text ":" ∷ []) ∷ (text "id:1" ∷ text "data:" ∷ []) ∷ []

abbrev begun : List Text
begun = text "event:" ∷ []

abbrev client : Client
client = new_client (text "http://zeus") (text "c") (text "t")

abbrev response : Response
response = record { status = 200; body = print true (flat blocks begun); broken = false }

abbrev net : Net
net = record { builds = λ m u. true; exchange = λ h r. some response }

subscribe_to_calls_example :
    subscribe_to net client false ended
    ≡ streamed (length (filter (any is_field) blocks), ending_of ended)
unfolding max_token_size
subscribe_to_calls_example =
    subscribe_to_calls net client false response ended true blocks begun
      record { built = refl; answer = refl } refl refl
      (
        record { one = refl; bare = refl; short = omega arith },
        (
          record { one = refl; bare = refl; short = omega arith },
          (
            record { one = refl; bare = refl; short = omega arith },
            (
              record { one = refl; bare = refl; short = omega arith },
              (
                record { one = refl; bare = refl; short = omega arith },
                (record { one = refl; bare = refl; short = omega arith }, tt),
              ),
            ),
          ),
        ),
      )
      ((λ h. ground arith, tt), ((λ h. ground arith, (λ h. ground arith, tt)), tt))
      (λ h. ground arith, tt)

-- A keepalive after 30 seconds and another after 100, with an idle timeout of 90.
abbrev arrivals : List (ℕ × Signal)
arrivals = (30, line (text ":")) ∷ (100, line (text ":")) ∷ []

times_out : with_timer 90 arrivals ≡ line (text ":") ∷ idle ∷ []
unfolding with_timer run_timer
times_out = refl

arrivals-IsOuter : All IsOuter arrivals
arrivals-IsOuter = ((λ q. cc q), ((λ q. cc q), tt))

subscribe-on_idle_example :
    ((subscribe false (with_timer 90 arrivals)).1 ≡ on_idle) ↔ FallsSilent 90 arrivals
subscribe-on_idle_example = subscribe-on_idle 90 false arrivals arrivals-IsOuter

abbrev steady : List (ℕ × Signal)
steady = (30, line (text ":")) ∷ (90, line (text ":")) ∷ (5, closed) ∷ []
