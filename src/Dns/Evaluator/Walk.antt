-- ===== src/Dns/Evaluator/Walk.antt =====
-- The loop over the candidates in evaluate.go, against a description of what it selects.
use mathlib.Core.List.{append_assoc, append-nil}
use zeus_gslb.Prelude.{
  ◌≡◌, refl, Bool, true, false, not, ◌&&◌, ◌||◌, Option, List, [], ◌∷◌, ◌++◌, map, length, filter,
  any, ◌==◌, if◌then◌else◌, arith,
}
use zeus_gslb.Prelude.Dict.{Dict}
use zeus_gslb.Bundle.{Candidate}
use zeus_gslb.Dns.Evaluator.{LocalHealth, Walked, viable, walk, flag}

or_false : (b : Bool) → (b || false) ≡ b
or_false true = refl
or_false false = refl

-- The first element, as a list of at most one.
abbrev pub first {ℓ} : {A : Type ℓ} → List A → List A
first [] = []
first (x ∷ xs) = x ∷ []

-- The list up to and with the first element that passes the test.
abbrev pub through {ℓ} : {A : Type ℓ} → (A → Bool) → List A → List A
through p [] = []
through p (x ∷ xs) = if p x then x ∷ [] else x ∷ through p xs

module _ (machine : Option LocalHealth) (locals : Dict Bool) where
  -- Viable, and with an address to serve.
  abbrev pub servable : Candidate → Bool
  servable c = (viable machine c locals).0 && not (length c.answers == 0)

  -- All servable candidates, or the first one.
  abbrev pub chosen : Bool → List Candidate → List Candidate
  chosen all cs = if all then filter servable cs else first (filter servable cs)

  -- The candidates that the loop looks at.
  abbrev pub visited : Bool → List Candidate → List Candidate
  visited all cs = if all then cs else through servable cs

module _ (machine : Option LocalHealth) (locals prev : Dict Bool) where
  -- Active before, and unhealthy now.
  abbrev pub lost : Candidate → Bool
  lost c = flag c.target_key prev && (viable machine c locals).1

  abbrev pub with_chosen : Walked → List Candidate → List Candidate → Walked
  with_chosen w cs vs = record {
    viable_keys = w.viable_keys ++ map (λ (c : Candidate). c.target_key) cs;
    groups = w.groups ++ map (λ (c : Candidate). c.answers) cs;
    forced = w.forced || any lost vs;
  }

  -- The loop gathers the keys and the answers of the chosen candidates in their order: in mode
  -- "all" every servable candidate, otherwise the first one. It sets `forced` exactly when one of
  -- the candidates that it visits was active and is unhealthy.
  pub walk-chosen :
      (all : Bool) (cs : List Candidate) (w : Walked)
      → walk machine locals prev all cs w
        ≡ with_chosen w (chosen machine locals all cs) (visited machine locals all cs)
  unfolding walk
  walk-chosen true [] w = simp (append-nil, or_false)
  walk-chosen false [] w = simp (append-nil, or_false)
  walk-chosen true (c ∷ cs) w =
      let (v, u) = viable machine c locals in
      let forced = if flag c.target_key prev && u then true else w.forced in
      let taken : Walked = record {
        viable_keys = w.viable_keys ++ c.target_key ∷ [];
        groups = w.groups ++ c.answers ∷ [];
        forced = forced;
      } in
      ground (
        arith,
        walk-chosen true cs (record w { forced = forced }),
        walk-chosen true cs taken,
        append_assoc w.viable_keys (c.target_key ∷ [])
            (map (λ (d : Candidate). d.target_key) (chosen machine locals true cs)),
        append_assoc w.groups (c.answers ∷ [])
            (map (λ (d : Candidate). d.answers) (chosen machine locals true cs)),
      )
  walk-chosen false (c ∷ cs) w =
      let (v, u) = viable machine c locals in
      let forced = if flag c.target_key prev && u then true else w.forced in
      ground (arith, walk-chosen false cs (record w { forced = forced }))
