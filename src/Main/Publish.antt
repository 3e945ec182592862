-- ===== src/Main/Publish.antt =====
-- cmd/zeus-gslb/main.go: what a bundle that zeus publishes takes to reach the answers: the event
-- stream, the refetch of `Run` in internal/remote/runner.go, the store, and the handler.
pub mod Reaches
mod Examples
use zeus_gslb.Prelude.{ℕ, zero, suc, Text, Bool, Option, List, [], ◌∷◌}
use zeus_gslb.Bundle.{Bundle}
use zeus_gslb.Bundle.Cache.{Dir}
use zeus_gslb.Bundle.Store.{Store}
use zeus_gslb.Remote.Client.{Client, Net, fetch_bundle}
use zeus_gslb.Remote.Refetch.{Fetch}
use zeus_gslb.Remote.Reconnect.{refetch_each}
use zeus_gslb.Remote.Stream.{Tail, Subscription, refused, stopped, streamed, subscribe_to}
use zeus_gslb.Main.Boot.{Meeting, bytes_of}

-- `r.Client.FetchBundle(ctx)`, on the network as it is then.
unfoldable pub fetch_by : Client → Meeting → Fetch
fetch_by client m = record {
  fetched = bytes_of (fetch_bundle m.net client);
  now = m.now;
  plan = m.plan;
}

-- What so many events fetch, from number `i` on.
unfoldable pub fetches : Client → (ℕ → Meeting) → ℕ → ℕ → List Fetch
fetches client world i zero = []
fetches client world i (suc n) = fetch_by client (world i) ∷ fetches client world (suc i) n

module _ (unmarshal : Text → Option Bundle) where
  -- What `onEvent` has done once `Subscribe` has taken what the stream has.
  unfoldable pub on_subscription : Client → (ℕ → Meeting) → Subscription → Store × Dir → Store × Dir
  on_subscription client world (refused e) x = x
  on_subscription client world stopped x = x
  on_subscription client world (streamed (n, ending)) x =
      refetch_each unmarshal (fetches client world 0 n) x

  -- A round of `Run` up to there.
  unfoldable pub follow : Client → Net → Bool → Tail → (ℕ → Meeting) → Store × Dir → Store × Dir
  follow client net done tail world x =
      on_subscription client world (subscribe_to net client done tail) x
