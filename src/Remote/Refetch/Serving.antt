-- ===== src/Remote/Refetch/Serving.antt =====
-- What a refetch and a run of the steady state leave served.
use zeus_gslb.Prelude.{
  Text, text_eq_iff, Time, ◌≡◌, ◌≢◌, ◌⊎◌, ℕ, length, ap, refl, inl, inr, true, Option, none, some,
  List, [], ◌∷◌, arith, Bool-cases, Option-cases,
}
use zeus_gslb.Prelude.Result.{ok}
use zeus_gslb.Bundle.{Bundle}
use zeus_gslb.Bundle.Validate.{parse_and_validate}
use zeus_gslb.Bundle.Cache.{Dir, Plan}
use zeus_gslb.Bundle.Store.{Store, apply_if_changed, same_hash, offered, handle}
use zeus_gslb.Bundle.Store.Loaded.{IsLoaded, apply_if_changed_same, apply_if_changed_taken}
use zeus_gslb.Bundle.Store.Reloads.{IsUsable, handle-IsLoaded, handle-IsUsable}
use zeus_gslb.Remote.Refetch.{
  Fetch, RunnerSignal, event, poll, stream_down, deadline, done, Phase, subscribed, down, stopped,
  refetch_and_apply, step, run_signals,
}

module _ (unmarshal : Text → Option Bundle) where
  -- A store serves a bundle, or one with the same hash, which is not empty then.
  pub record Serves (b : Bundle) (s : Store) : Type 0 where
    pub served : Bundle
    pub current : s.current ≡ some served
    pub same : (served ≡ b) ⊎ ((served.content_hash ≡ b.content_hash) × (b.content_hash ≢ []))

  same_hash_cases :
      (c : Option Bundle) (b : Bundle)
      → same_hash c b ≡ true
      → (a : Bundle) × (c ≡ some a) × (a.content_hash ≡ b.content_hash) × (b.content_hash ≢ [])
  unfolding same_hash
  same_hash_cases none b h = ground arith
  same_hash_cases (some a) b h = (
    a,
    refl,
    (text_eq_iff a.content_hash b.content_hash).0 (ground arith),
    λ z. absurd (ground (arith, h, ap (length {A = ℕ}) z)),
  )

  refetch_none :
      (f : Fetch) (s : Store) (d : Dir)
      → f.fetched ≡ none
      → refetch_and_apply unmarshal f s d ≡ (s, d)
  unfolding refetch_and_apply
  refetch_none f s d h = rw h refl

  refetch_some :
      (f : Fetch) (raw : Text) (s : Store) (d : Dir)
      → f.fetched ≡ some raw
      → refetch_and_apply unmarshal f s d ≡ handle unmarshal (offered f.plan raw f.now) (s, d)
  unfolding refetch_and_apply handle
  refetch_some f raw s d h = rw h refl

  handle_offered :
      (plan : Plan) (raw : Text) (now : Time) (s : Store) (d : Dir)
      → (handle unmarshal (offered plan raw now) (s, d)).0
        ≡ (apply_if_changed unmarshal plan raw now s d).0
  unfolding handle
  handle_offered plan raw now s d = refl

  apply-Serves :
      (plan : Plan) (raw : Text) (now : Time) (b : Bundle) (s : Store) (d : Dir)
      → parse_and_validate unmarshal raw ≡ ok b
      → Serves b (apply_if_changed unmarshal plan raw now s d).0
  apply-Serves plan raw now b s d q = elim (Bool-cases (same_hash s.current b)) [
    | inl same ↦
        let (a, c, h, full) = same_hash_cases s.current b same in
        rw (apply_if_changed_same unmarshal plan raw now s d b q same)
          (record { served = a; current = c; same = inr (h, full) })
    | inr other ↦
        rw (apply_if_changed_taken unmarshal plan raw now s d b q other)
          (record { served = b; current = refl; same = inl refl })
  ]

  -- A refetch that brings a valid bundle leaves that bundle served, or one with the same content
  -- hash, where that is not empty, whatever was served before.
  pub refetch-Serves :
      (f : Fetch) (raw : Text) (b : Bundle) (s : Store) (d : Dir)
      → f.fetched ≡ some raw
      → parse_and_validate unmarshal raw ≡ ok b
      → Serves b (refetch_and_apply unmarshal f s d).0
  refetch-Serves f raw b s d h q =
      rw (refetch_some f raw s d h, handle_offered f.plan raw f.now s d)
        (apply-Serves f.plan raw f.now b s d q)

  -- What a responder in its steady state must not lose: a valid bundle to serve, and a cache that
  -- loads.
  abbrev pub IsSafe : Phase × Store × Dir → Type 0
  IsSafe (p, s, d) = IsLoaded s × IsUsable unmarshal d

  refetch-IsSafe :
      (f : Fetch) (p : Phase) (s : Store) (d : Dir)
      → IsSafe (p, s, d)
      → IsSafe (p, (refetch_and_apply unmarshal f s d).0, (refetch_and_apply unmarshal f s d).1)
  refetch-IsSafe f p s d h = elim (Option-cases f.fetched) [
    | inl n ↦ rw (refetch_none f s d n) h
    | inr (raw, q) ↦ rw (refetch_some f raw s d q) (
      handle-IsLoaded unmarshal (offered f.plan raw f.now) (s, d) h.0,
      handle-IsUsable unmarshal (offered f.plan raw f.now) (s, d) h.1,
    )
  ]

  step-IsSafe :
      (g : RunnerSignal) (x : Phase × Store × Dir) → IsSafe x → IsSafe (step unmarshal g x)
  unfolding step
  step-IsSafe (event f) (subscribed, s, d) h = refetch-IsSafe f subscribed s d h
  step-IsSafe (event f) (down, s, d) h = h
  step-IsSafe (event f) (stopped, s, d) h = h
  step-IsSafe (poll f) (subscribed, s, d) h = h
  step-IsSafe (poll f) (down, s, d) h = refetch-IsSafe f down s d h
  step-IsSafe (poll f) (stopped, s, d) h = h
  step-IsSafe stream_down (subscribed, s, d) h = h
  step-IsSafe stream_down (down, s, d) h = h
  step-IsSafe stream_down (stopped, s, d) h = h
  step-IsSafe deadline (subscribed, s, d) h = h
  step-IsSafe deadline (down, s, d) h = h
  step-IsSafe deadline (stopped, s, d) h = h
  step-IsSafe done (p, s, d) h = h

  -- Whatever the stream, the timers and the fetches deliver to `Run`, in whatever order, a responder
  -- that serves a valid bundle and has a cache that loads keeps both.
  pub run_signals-IsSafe :
      (gs : List RunnerSignal) (x : Phase × Store × Dir)
      → IsSafe x
      → IsSafe (run_signals unmarshal gs x)
  unfolding run_signals
  run_signals-IsSafe [] x h = h
  run_signals-IsSafe (g ∷ gs) x h = run_signals-IsSafe gs (step unmarshal g x) (step-IsSafe g x h)
