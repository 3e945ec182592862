-- ===== src/Bundle/Boot/Outcomes.antt =====
-- What `BootFromFetch` returns: the first valid bundle that is fetched, or else the cache.
use mathlib.Core.Path.{subst}
use mathlib.Core.Option.{some-injective, none-ne-some}
use zeus_gslb.Prelude.{
  ℕ, zero, suc, Text, zero_time, ◌+◌, ◌<◌, ◌≤◌, ◌≡◌, ◌⊎◌, refl, sym, ap, ◌∙◌, Bool, true, false,
  Option, none, some, ◌==◌, arith, Bool-cases, Option-cases, inl, inr,
}
use zeus_gslb.Prelude.Result.{Result, ok, err, ◌>>=◌, Result-cases, ok-injective}
use zeus_gslb.Prelude.Int.{ℤ, pos}
use zeus_gslb.Bundle.{Bundle}
use zeus_gslb.Bundle.Validate.{LoadError, parse_and_validate}
use zeus_gslb.Bundle.Cache.{Dir, save_cache}
use zeus_gslb.Bundle.Store.{Store, no_bundle, load_cache}
use zeus_gslb.Bundle.Store.Loaded.{
  IsLoaded, IsValid-of_cache, IsValid-of_parse, apply_bundle_refused, apply_bundle_taken,
}
use zeus_gslb.Bundle.Store.Reloads.{IsUsable}
use zeus_gslb.Bundle.Boot.{Attempt, attempts_of, gives_up, try_fetch, boot_loop, boot_from_fetch}

module _ (unmarshal : Text → Option Bundle) where
  -- The attempt fetches nothing, or bytes that `ParseAndValidate` refuses.
  abbrev pub Fails : Attempt → Type 0
  Fails a =
      (a.fetched ≡ none)
      ⊎ ((raw : Text) × (e : LoadError) × (a.fetched ≡ some raw)
          × (parse_and_validate unmarshal raw ≡ err e))

  try_fetch-Fails : (a : Attempt) (d : Dir) → Fails a → try_fetch unmarshal a d ≡ none
  unfolding try_fetch
  try_fetch-Fails a d (inl h) = ground arith
  try_fetch-Fails a d (inr (raw, e, f, h)) =
      ground (arith, apply_bundle_refused unmarshal a.plan raw a.now no_bundle d e h)

  -- The store and the cache behind an attempt that fetched the bytes `raw` of the bundle `b`.
  abbrev pub booted : Attempt → Text → Bundle → Dir → Store × Dir
  booted a raw b d = (record { current = some b; mod_time = a.now }, (save_cache a.plan raw d).0)

  -- The attempt fetches the bytes `raw` of the valid bundle `b`.
  abbrev pub Fetches : Attempt → Text → Bundle → Type 0
  Fetches a raw b = (a.fetched ≡ some raw) × (parse_and_validate unmarshal raw ≡ ok b)

  try_fetch_takes :
      (a : Attempt) (raw : Text) (b : Bundle) (d : Dir)
      → Fetches a raw b
      → try_fetch unmarshal a d ≡ some (booted a raw b d)
  unfolding try_fetch
  try_fetch_takes a raw b d (f, h) =
      ground (arith, apply_bundle_taken unmarshal a.plan raw a.now no_bundle d b h)

  Fetches-or-Fails : (a : Attempt) → Fails a ⊎ ((raw : Text) × (b : Bundle) × Fetches a raw b)
  Fetches-or-Fails a = elim (Option-cases a.fetched) [
    | inl h ↦ inl (inl h)
    | inr (raw, f) ↦ elim (Result-cases (parse_and_validate unmarshal raw)) [
      | inl (e, h) ↦ inl (inr (raw, e, f, h))
      | inr (b, h) ↦ inr (raw, b, (f, h))
    ]
  ]

  IsLoaded-booted :
      (a : Attempt) (raw : Text) (b : Bundle) (d : Dir) (x : Store × Dir)
      → Fetches a raw b
      → some (booted a raw b d) ≡ some x
      → IsLoaded x.0
  IsLoaded-booted a raw b d x f h = (
    b,
    ap (λ y. y.0.current) (some-injective x (booted a raw b d) (sym h)),
    IsValid-of_parse unmarshal raw b f.1,
  )

  module _ (backoff_is_nil : Bool) (world : ℕ → Attempt) where
    -- Attempt number `n` is reached from number `i` on, and fetches the bytes of a valid bundle.
    pub record Reached (i n : ℕ) (raw : Text) (b : Bundle) : Type 0 where
      pub failed_before : (j : ℕ) → i ≤ j → j < n → Fails (world j)
      pub waited : (j : ℕ) → i ≤ j → j ≤ n → gives_up unmarshal backoff_is_nil world j ≡ false
      pub fetches : Fetches (world n) raw b

    n_is_i : {n i : ℕ} → (n == i) ≡ true → n ≡ i
    n_is_i h = ground arith

    boot_loop-zero : (i : ℕ) (d : Dir) → boot_loop unmarshal backoff_is_nil world zero i d ≡ none
    unfolding boot_loop
    boot_loop-zero i d = refl

    boot_loop_here :
        (left i : ℕ) (d : Dir) (x : Store × Dir)
        → gives_up unmarshal backoff_is_nil world i ≡ false
        → try_fetch unmarshal (world i) d ≡ some x
        → boot_loop unmarshal backoff_is_nil world (suc left) i d ≡ some x
    unfolding boot_loop
    boot_loop_here left i d x g t = rw g (rw t refl)

    boot_loop_next :
        (left i : ℕ) (d : Dir)
        → gives_up unmarshal backoff_is_nil world i ≡ false
        → Fails (world i)
        → boot_loop unmarshal backoff_is_nil world (suc left) i d
          ≡ boot_loop unmarshal backoff_is_nil world left (i + 1) d
    unfolding boot_loop
    boot_loop_next left i d g f = rw g (rw (try_fetch-Fails (world i) d f) refl)

    boot_loop_end :
        (left i : ℕ) (d : Dir)
        → gives_up unmarshal backoff_is_nil world i ≡ true
        → boot_loop unmarshal backoff_is_nil world left i d ≡ none
    unfolding boot_loop
    boot_loop_end zero i d g = refl
    boot_loop_end (suc left) i d g = rw g refl

    boot_loop-Reached :
        (left i n : ℕ) (raw : Text) (b : Bundle) (d : Dir)
        → i ≤ n
        → n < i + left
        → Reached i n raw b
        → boot_loop unmarshal backoff_is_nil world left i d ≡ some (booted (world n) raw b d)
    boot_loop-Reached zero i n raw b d lo hi r = absurd (omega arith)
    boot_loop-Reached (suc left) i n raw b d lo hi r = elim (Bool-cases (n == i)) [
      | inl here ↦
          boot_loop_here left i d (booted (world n) raw b d) (r.waited i (omega arith) lo) (
            subst (λ j. try_fetch unmarshal (world j) d ≡ some (booted (world n) raw b d))
              (n_is_i here) (try_fetch_takes (world n) raw b d r.fetches))
      | inr later ↦
          boot_loop_next left i d (r.waited i (omega arith) lo)
            (r.failed_before i (omega arith) (ground arith))
          ∙ boot_loop-Reached left (i + 1) n raw b d (ground arith) (omega arith) (record {
            failed_before = λ j l h. r.failed_before j (omega arith) h;
            waited = λ j l h. r.waited j (omega arith) h;
            fetches = r.fetches;
          })
    ]

    boot_wins :
        (retries : ℤ) (d : Dir) (x : Store × Dir)
        → boot_loop unmarshal backoff_is_nil world (attempts_of retries) 0 d ≡ some x
        → boot_from_fetch unmarshal backoff_is_nil world retries d ≡ (x.1, ok x.0)
    unfolding boot_from_fetch
    boot_wins retries d x h = rw (h, boot_from_fetch) refl

    boot_falls_back :
        (retries : ℤ) (d : Dir)
        → boot_loop unmarshal backoff_is_nil world (attempts_of retries) 0 d ≡ none
        → boot_from_fetch unmarshal backoff_is_nil world retries d ≡ (
          d,
          load_cache unmarshal d >>= λ b. ok (record { current = some b; mod_time = zero_time }),
        )
    unfolding boot_from_fetch
    boot_falls_back retries d h = rw (h, boot_from_fetch) refl

    -- The first attempt that fetches a valid bundle decides the boot, if it is within the retries and
    -- the loop does not end in a wait before it: its bundle is served and given to `SaveCache`, and
    -- what earlier attempts fetched leaves no trace.
    pub boot_first_valid :
        (retries n : ℕ) (raw : Text) (b : Bundle) (d : Dir)
        → n ≤ retries
        → Reached 0 n raw b
        → boot_from_fetch unmarshal backoff_is_nil world (pos retries) d
          ≡ ((booted (world n) raw b d).1, ok (booted (world n) raw b d).0)
    unfolding attempts_of
    boot_first_valid retries n raw b d le r =
        boot_wins (pos retries) d (booted (world n) raw b d)
          (boot_loop-Reached (suc retries) 0 n raw b d (omega arith) (omega arith) r)

    boot_loop-IsLoaded :
        (left i : ℕ) (d : Dir) (x : Store × Dir)
        → boot_loop unmarshal backoff_is_nil world left i d ≡ some x
        → IsLoaded x.0
    boot_loop-IsLoaded zero i d x h = absurd (none-ne-some x (sym (boot_loop-zero i d) ∙ h))
    boot_loop-IsLoaded (suc left) i d x h =
        elim (Bool-cases (gives_up unmarshal backoff_is_nil world i)) [
          | inl g ↦ absurd (none-ne-some x (sym (boot_loop_end (suc left) i d g) ∙ h))
          | inr g ↦ elim (Fetches-or-Fails (world i)) [
            | inl f ↦ boot_loop-IsLoaded left (i + 1) d x (sym (boot_loop_next left i d g f) ∙ h)
            | inr (raw, b, fe) ↦ IsLoaded-booted (world i) raw b d x fe (
                sym (
                  boot_loop_here left i d (booted (world i) raw b d) g
                    (try_fetch_takes (world i) raw b d fe))
                ∙ h)
          ]
        ]

    -- What a boot promises of what it returns.
    pub record Booted (d : Dir) (out : Dir × Result LoadError Store) : Type 0 where
      pub serves : (s : Store) → out.1 ≡ ok s → IsLoaded s
      pub survives : IsUsable unmarshal d → (s : Store) × (out.1 ≡ ok s)

    cached-Booted :
        (d : Dir)
        → Booted d (
          d,
          load_cache unmarshal d >>= λ b. ok (record { current = some b; mod_time = zero_time }),
        )
    cached-Booted d = elim (Result-cases (load_cache unmarshal d)) [
      | inl (e, h) ↦ rw h (record { serves = λ s q. ground arith; survives = λ u. ground arith })
      | inr (b, h) ↦ rw h (record {
        serves = λ s q. subst IsLoaded (ok-injective q) (b, refl, IsValid-of_cache unmarshal d b h);
        survives = λ u. (record { current = some b; mod_time = zero_time }, refl);
      })
    ]

    -- A boot that returns a store returns one that serves a valid bundle, whatever was fetched and
    -- whatever the cache holds; and a boot with a usable cache returns a store.
    pub boot_from_fetch-Booted :
        (retries : ℤ) (d : Dir)
        → Booted d (boot_from_fetch unmarshal backoff_is_nil world retries d)
    boot_from_fetch-Booted retries d =
        elim (Option-cases (boot_loop unmarshal backoff_is_nil world (attempts_of retries) 0 d)) [
          | inl h ↦ rw (boot_falls_back retries d h) (cached-Booted d)
          | inr (x, h) ↦ rw (boot_wins retries d x h) (record {
            serves = λ s e.
                subst IsLoaded (ok-injective e) (boot_loop-IsLoaded (attempts_of retries) 0 d x h);
            survives = λ u. (x.0, refl);
          })
        ]
