-- ===== src/Dns/Queries/Branches.antt =====
-- One round of the loop of `Resolve`, and its start, by their branches.
use zeus_gslb.Prelude.{
  ◌==◌, ◌≡◌, refl, arith, Bool, true, false, not, ◌&&◌, Option, none, some, List, [], ◌∷◌, ◌++◌,
  length, if◌then◌else◌, Bool-cases, inl, inr, Text,
}
use zeus_gslb.Prelude.Dict.{Dict}
use zeus_gslb.Bundle.{Candidate, Bundle, Record}
use zeus_gslb.Dns.Evaluator.{LocalHealth, Walked, viable, flag, walk, legacy_answers}
use zeus_gslb.Dns.Handler.{Library, fill_answer, Msg, type_a, lookup, set_nxdomain}
use zeus_gslb.Dns.Queries.{Job, reading, written, begin_resolve, begin_query}

if_not : (b : Bool) (x y : Walked) → b ≡ true → (if not b then x else y) ≡ y
if_not b x y h = rw h refl

-- The rounds of the loop by their branches.
module _ (health : Option LocalHealth) (locals prev : Dict Bool) (all : Bool) (cand : Candidate)
    (rest : List Candidate) (w : Walked) where
  abbrev pub is_viable : Bool
  is_viable = (viable health cand locals).0

  abbrev pub skipped : Walked
  skipped = record w {
    forced = if flag cand.target_key prev && (viable health cand locals).1 then true else w.forced;
  }

  abbrev pub taken : Walked
  taken = record skipped {
    viable_keys = w.viable_keys ++ cand.target_key ∷ [];
    groups = w.groups ++ cand.answers ∷ [];
  }

  pub walk_unviable :
      is_viable ≡ false
      → walk health locals prev all (cand ∷ rest) w ≡ walk health locals prev all rest skipped
  unfolding walk
  walk_unviable n = rw n refl

  pub walk_unaddressed :
      length cand.answers == 0 ≡ true
      → walk health locals prev all (cand ∷ rest) w ≡ walk health locals prev all rest skipped
  unfolding walk
  walk_unaddressed z = elim (Bool-cases is_viable) [ inl y ↦ rw (y, z) refl | inr n ↦ rw n refl ]

  pub walk_more :
      is_viable ≡ true
      → length cand.answers == 0 ≡ false
      → all ≡ true
      → walk health locals prev all (cand ∷ rest) w ≡ walk health locals prev all rest taken
  unfolding walk
  walk_more y z a = rw (y, z) (if_not all taken (walk health locals prev all rest taken) a)

  pub walk_last :
      is_viable ≡ true
      → length cand.answers == 0 ≡ false
      → all ≡ false
      → walk health locals prev all (cand ∷ rest) w ≡ taken
  unfolding walk
  walk_last y z a = rw (y, z, a) refl

module _ (lib : Library) where
  pub begin_legacy :
      (job : Job)
      → job.rec.candidates ≡ none
      → begin_resolve lib job
        ≡ written (fill_answer lib job.msg job.name job.rec (legacy_answers job.rec))
  unfolding begin_resolve
  begin_legacy job n = ground arith

  pub begin_reading :
      (job : Job) (cs : List Candidate)
      → job.rec.candidates ≡ some cs
      → begin_resolve lib job ≡ reading job cs
  unfolding begin_resolve
  begin_reading job cs h = ground arith

  module _ (b : Bundle) (msg : Msg) (zone name : Text) where
    pub type_a_unknown :
        lookup lib b name ≡ none
        → begin_query lib msg b zone name type_a ≡ written (set_nxdomain lib msg zone)
    unfolding begin_query
    type_a_unknown n = ground arith

    pub type_a_known :
        (rec : Record)
        → lookup lib b name ≡ some rec
        → begin_query lib msg b zone name type_a
          ≡ begin_resolve lib (record { msg = msg; name = name; rec = rec })
    unfolding begin_query
    type_a_known rec h = ground arith
