-- ===== src/Remote/Reconnect/Gaps.antt =====
-- What a lost stream costs.
use zeus_gslb.Prelude.{
  ℕ, zero, suc, Text, Time, second, ◌*◌, ◌^◌, ◌≤◌, ◌<◌, ◌≡◌, refl, ap, ◌∙◌, arith, Option, List, [],
  ◌∷◌, All,
}
use zeus_gslb.Prelude.Int.{pos_part}
use zeus_gslb.Bundle.{Bundle}
use zeus_gslb.Bundle.Cache.{Dir}
use zeus_gslb.Bundle.Store.{Store}
use zeus_gslb.Remote.Backoff.Capped.{at_most, double_first, grows, exponential_backoff_closed}
use zeus_gslb.Remote.Refetch.{Fetch}
use zeus_gslb.Remote.Reconnect.{
  poll_fallback_interval, reconnect_backoff, Session, refetch_each, poll_until, run_round, waits_of,
}

backoff_closed : (n : ℕ) → reconnect_backoff (suc n) ≡ at_most (30 * second) (1 * second * 2 ^ n)
unfolding reconnect_backoff
backoff_closed n =
    ap pos_part (exponential_backoff_closed (1 * second) (30 * second) n (omega arith))

-- The waits behind the first three subscriptions.
first_waits :
    (reconnect_backoff 1 ≡ 1 * second)
    × (reconnect_backoff 2 ≡ 2 * second)
    × (reconnect_backoff 3 ≡ 4 * second)
first_waits = (backoff_closed 0, backoff_closed 1, backoff_closed 2)

later_waits : (reconnect_backoff 4 ≡ 8 * second) × (reconnect_backoff 5 ≡ 16 * second)
later_waits = (backoff_closed 3, backoff_closed 4)

short_wait : (n : ℕ) → n < 3 → reconnect_backoff (suc n) ≤ poll_fallback_interval
short_wait zero h = omega (arith, first_waits.0)
short_wait (suc zero) h = omega (arith, first_waits.1)
short_wait (suc (suc zero)) h = omega (arith, first_waits.2)
short_wait (suc (suc (suc n))) h = absurd (omega arith)

doubled : (k : ℕ) → 30 * second < 1 * second * 2 ^ suc (suc (suc (suc (suc k))))
doubled k = omega (
  arith,
  double_first (1 * second) (suc (suc (suc (suc k)))),
  double_first (1 * second * 2) (suc (suc (suc k))),
  double_first (1 * second * 2 * 2) (suc (suc k)),
  double_first (1 * second * 2 * 2 * 2) (suc k),
  double_first (1 * second * 2 * 2 * 2 * 2) k,
  grows (1 * second * 2 * 2 * 2 * 2 * 2) k,
)

capped : (k : ℕ) → reconnect_backoff (suc (suc (suc (suc (suc (suc k)))))) ≡ 30 * second
capped k = backoff_closed (suc (suc (suc (suc (suc k))))) ∙ ground (arith, doubled k)

-- The waits behind the others are above the interval of the polls.
pub long_wait : (n : ℕ) → 3 ≤ n → poll_fallback_interval < reconnect_backoff (suc n)
long_wait zero h = absurd (omega arith)
long_wait (suc zero) h = absurd (omega arith)
long_wait (suc (suc zero)) h = absurd (omega arith)
long_wait (suc (suc (suc zero))) h = omega (arith, later_waits.0)
long_wait (suc (suc (suc (suc zero)))) h = omega (arith, later_waits.1)
long_wait (suc (suc (suc (suc (suc n))))) h = omega (arith, capped n)

-- From the sixth end of a subscription on every wait is the cap of 30 s, however long the
-- subscriptions before it held.
waits_of-capped :
    (k : ℕ) (sessions : List Session)
    → All (λ (w : Time). w ≡ 30 * second) (waits_of (suc (suc (suc (suc (suc k))))) sessions)
unfolding waits_of
waits_of-capped k [] = tt
waits_of-capped k (session ∷ sessions) = (capped k, waits_of-capped (suc k) sessions)

module _ (unmarshal : Text → Option Bundle) where
  no_tick :
      (interval left : Time) (fs : List Fetch) (x : Store × Dir)
      → left ≤ interval
      → poll_until unmarshal interval left fs x ≡ x
  unfolding poll_until
  no_tick interval left [] x h = refl
  no_tick interval left (f ∷ fs) (s, d) h = ground arith

  -- Each of the first three subscriptions that end is followed by no poll: the round does what the
  -- events of the subscription did, whatever a fetch would have brought.
  pub run_round-unpolled :
      (n : ℕ) (session : Session) (x : Store × Dir)
      → n < 3
      → run_round unmarshal (suc n) session x ≡ refetch_each unmarshal session.events x
  unfolding run_round
  run_round-unpolled n session x h =
      no_tick poll_fallback_interval (reconnect_backoff (suc n)) session.polls
        (refetch_each unmarshal session.events x) (short_wait n h)
