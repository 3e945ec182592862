-- ===== src/Remote/Reconnect/Fallback.antt =====
-- What the polls behind a lost stream bring.
use zeus_gslb.Prelude.{
  ℕ, suc, Text, Time, ◌-◌, ◌≤◌, ◌<◌, ◌≡◌, ltb, lt→ltb, Bool-cases, inl, inr, Option, some, List, [],
  ◌∷◌, All,
}
use zeus_gslb.Prelude.Result.{ok}
use zeus_gslb.Bundle.{Bundle}
use zeus_gslb.Bundle.Validate.{parse_and_validate}
use zeus_gslb.Bundle.Cache.{Dir}
use zeus_gslb.Bundle.Store.{Store}
use zeus_gslb.Remote.Refetch.{Fetch, refetch_and_apply}
use zeus_gslb.Remote.Refetch.Serving.{Serves, refetch-Serves}
use zeus_gslb.Remote.Reconnect.{
  poll_fallback_interval, reconnect_backoff, refetch_each, poll_until, run_round,
}
use zeus_gslb.Remote.Reconnect.Gaps.{long_wait}

module _ (unmarshal : Text → Option Bundle) (raw : Text) where
  -- The server answers each poll with the same bytes.
  abbrev pub AllBring : List Fetch → Type 0
  AllBring fs = All (λ (f : Fetch). f.fetched ≡ some raw) fs

  module _ (b : Bundle) (valid : parse_and_validate unmarshal raw ≡ ok b) where
    kept :
        (interval left : Time) (fs : List Fetch) (s : Store) (d : Dir)
        → AllBring fs
        → Serves unmarshal b s
        → Serves unmarshal b (poll_until unmarshal interval left fs (s, d)).0
    unfolding poll_until
    kept interval left [] s d hs served = served
    kept interval left (f ∷ fs) s d (h, hs) served = elim (Bool-cases (ltb interval left)) [
      | inl tick ↦ rw tick (
          kept interval (left - interval) fs (refetch_and_apply unmarshal f s d).0
            (refetch_and_apply unmarshal f s d).1 hs (refetch-Serves unmarshal f raw b s d h valid))
      | inr over ↦ rw over served
    ]

    polled :
        (interval left : Time) (f : Fetch) (fs : List Fetch) (x : Store × Dir)
        → interval < left
        → AllBring (f ∷ fs)
        → Serves unmarshal b (poll_until unmarshal interval left (f ∷ fs) x).0
    unfolding poll_until
    polled interval left f fs (s, d) long (h, hs) = rw (lt→ltb interval left long) (
        kept interval (left - interval) fs (refetch_and_apply unmarshal f s d).0
          (refetch_and_apply unmarshal f s d).1 hs (refetch-Serves unmarshal f raw b s d h valid))

  -- Behind the end of every subscription from the fourth on, a valid bundle that the server brings
  -- to each poll is served, or one with the same content hash, before the next subscription,
  -- whatever the events brought and whatever was served.
  run_round-Serves :
      (n : ℕ) (events : List Fetch) (f : Fetch) (fs : List Fetch) (b : Bundle) (x : Store × Dir)
      → 3 ≤ n
      → parse_and_validate unmarshal raw ≡ ok b
      → AllBring (f ∷ fs)
      → Serves unmarshal b
          (run_round unmarshal (suc n) (record { events = events; polls = f ∷ fs }) x).0
  unfolding run_round
  run_round-Serves n events f fs b x late valid h =
      polled b valid poll_fallback_interval (reconnect_backoff (suc n)) f fs
        (refetch_each unmarshal events x) (long_wait n late) h
