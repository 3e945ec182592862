-- ===== src/Bundle/Boot.antt =====
-- `BootFromFetch` of internal/bundle/boot_fetch.go. What the context, the fetch function and the
-- clock return is an argument, attempt by attempt; so is what happens to each save of the cache.
pub mod Outcomes
use zeus_gslb.Prelude.{
  ℕ, zero, suc, Text, Time, zero_time, ◌+◌, Bool, true, false, Option, none, some, ◌==◌,
  if◌then◌else◌,
}
use zeus_gslb.Prelude.Result.{Result, ok, err, ◌>>=◌}
use zeus_gslb.Prelude.Int.{ℤ, pos, negsuc}
use zeus_gslb.Bundle.{Bundle}
use zeus_gslb.Bundle.Validate.{LoadError}
use zeus_gslb.Bundle.Cache.{Dir, Plan}
use zeus_gslb.Bundle.Store.{Store, no_bundle, load_cache, apply_bundle}

-- What one attempt meets: whether the context is done before the backoff has passed, what `fetch`
-- returns, the time, and how the saving ends.
pub record Attempt : Type 0 where
  pub cancelled : Bool
  pub fetched : Option Text
  pub now : Time
  pub plan : Plan

-- How many times the loop's condition `attempt <= retries` holds, for `retries` below the largest
-- `int`.
unfoldable pub attempts_of : ℤ → ℕ
attempts_of (pos n) = suc n
attempts_of (negsuc n) = 0

-- One attempt behind the wait: the store and the cache after a bundle that is taken.
unfoldable pub try_fetch : (Text → Option Bundle) → Attempt → Dir → Option (Store × Dir)
try_fetch unmarshal a d = elim a.fetched [
  | none ↦ none
  | some raw ↦
      let (s', d', result) = apply_bundle unmarshal a.plan raw a.now no_bundle d in
      elim result [ ok b ↦ some (s', d') | err e ↦ none ]
]

module _ (unmarshal : Text → Option Bundle) (backoff_is_nil : Bool) (world : ℕ → Attempt) where
  -- Whether the loop ends before attempt number `i` fetches.
  unfoldable pub gives_up : ℕ → Bool
  gives_up zero = false
  gives_up (suc i) = if backoff_is_nil then true else (world (suc i)).cancelled

  -- The loop, from attempt number `i` on, with `left` attempts to go. A failed attempt leaves the
  -- store empty and the cache as it was.
  unfoldable pub boot_loop : ℕ → ℕ → Dir → Option (Store × Dir)
  boot_loop zero i d = none
  boot_loop (suc left) i d =
      let rest = boot_loop left (i + 1) d in
      if gives_up i
      then none
      else elim (try_fetch unmarshal (world i) d) [ some x ↦ some x | none ↦ rest ]

  unfoldable pub boot_from_fetch : ℤ → Dir → Dir × Result LoadError Store
  boot_from_fetch retries d = elim (boot_loop (attempts_of retries) 0 d) [
    | some (s, d') ↦ (d', ok s)
    | none ↦
        (d, load_cache unmarshal d >>= λ b. ok (record { current = some b; mod_time = zero_time }))
  ]
