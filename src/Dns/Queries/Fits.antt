-- ===== src/Dns/Queries/Fits.antt =====
-- What a goroutine has at each point of `ServeDNS`: answers that some bundle lists for its name.
use mathlib.Core.Path.{subst}
use zeus_gslb.Prelude.{
  Text, text_eq, to_lower, All, Any, All-map, All-append, ◌==◌, ◌≡◌, refl, sym, ap, ◌∙◌, Bool,
  Option, none, some, List, [], ◌∷◌, ◌++◌, length, Bool-cases, Option-cases, inl, inr,
}
use zeus_gslb.Prelude.Dict.{Dict}
use zeus_gslb.Bundle.{Answer, Bundle, Candidate, Record, mode_all}
use zeus_gslb.Dns.Evaluator.{LocalHealth, Walked, viable, local_targets, legacy_answers}
use zeus_gslb.Dns.Evaluator.Source.{Lists, IsIn, All-Any, legacy_own, IsAmong, candidates-IsAmong}
use zeus_gslb.Dns.Handler.{Library, ARecord, Msg, fill_answer}
use zeus_gslb.Dns.Handler.Records.{address_records, fill_answer_lem}
use zeus_gslb.Dns.Handler.Addresses.{IsAddressOf, address_records-IsAddressOf}
use zeus_gslb.Dns.Queries.Branches.{begin_legacy, begin_reading}
use zeus_gslb.Dns.Queries.{
  Job, Query, idle, asked, reading, walking, deciding, recording, written, begin_resolve, gathered,
  look_at,
}

module _ (lib : Library) (bundles : List Bundle) where
  -- One of the bundles.
  abbrev pub IsTaken : Bundle → Type 0
  IsTaken b = Any (λ (x : Bundle). x ≡ b) bundles

  -- One of the bundles lists the answer in a record of that name.
  pub record IsListed (fqdn : Text) (a : Answer) : Type 0 where
    pub bundle : Bundle
    pub taken : IsTaken bundle
    pub rec : Record
    pub among : Any (λ (r : Record). r ≡ rec) bundle.records
    pub named : rec.fqdn ≡ fqdn
    pub listed : Lists rec a

  -- The address of such an answer, under the name of the record up to the case of letters.
  pub record IsSourced (r : ARecord) : Type 0 where
    pub fqdn : Text
    pub named : to_lower (lib.fqdn fqdn) ≡ to_lower r.name
    pub answer : Answer
    pub listed : IsListed fqdn answer
    pub address : lib.parse_ip4 answer.ip ≡ some r.ip

  -- What a goroutine has at its call of `Resolve`.
  pub record IsJob (job : Job) : Type 0 where
    pub own : (a : Answer) → Lists job.rec a → IsListed job.rec.fqdn a
    pub named : to_lower (lib.fqdn job.rec.fqdn) ≡ to_lower job.name
    pub fresh : job.msg.answer ≡ []

  abbrev pub AreListed : Job → List Answer → Type 0
  AreListed job s = All (IsListed job.rec.fqdn) s

  abbrev pub AreGathered : Job → Walked → Type 0
  AreGathered job w = All (AreListed job) w.groups

  abbrev pub AreFit : Job → List Candidate → Type 0
  AreFit job cs = All (λ (c : Candidate). AreListed job c.answers) cs

  -- What a goroutine has, where it is.
  abbrev pub Fits : Query → Type 0
  Fits idle = Unit
  Fits (asked qs) = Unit
  Fits (reading job cs) = IsJob job × AreFit job cs
  Fits (walking job prev rest w) = IsJob job × AreFit job rest × AreGathered job w
  Fits (deciding job w) = IsJob job × AreGathered job w
  Fits (recording job w served) = IsJob job × AreListed job served
  Fits (written msg) = All IsSourced msg.answer

  filled_answer :
      (m : Msg) (name : Text) (rec : Record) (answers : List Answer)
      → m.answer ≡ []
      → (fill_answer lib m name rec (some answers)).answer
        ≡ address_records lib name rec.ttl answers
  filled_answer m name rec answers h =
      rw (fill_answer_lem lib m name rec answers h)
        (elim (Bool-cases (length (address_records lib name rec.ttl answers) == 0)) [
          | inl z ↦ rw z refl
          | inr z ↦ rw z refl
        ])

  IsAddressOf-IsSourced :
      (job : Job)
      → IsJob job
      → (r : ARecord) → IsAddressOf lib job.name (IsListed job.rec.fqdn) r
      → IsSourced r
  IsAddressOf-IsSourced job j r (n, (a, l, y)) = record {
    fqdn = job.rec.fqdn;
    named = j.named ∙ ap to_lower (sym n);
    answer = a;
    listed = l;
    address = y;
  }

  -- The response on answers that are listed.
  pub filled-Fits :
      (job : Job) (s : List Answer)
      → IsJob job
      → AreListed job s
      → Fits (written (fill_answer lib job.msg job.name job.rec (some s)))
  filled-Fits job s j l = rw (filled_answer job.msg job.name job.rec s j.fresh) (
      All-map (IsAddressOf lib job.name (IsListed job.rec.fqdn)) IsSourced
        (IsAddressOf-IsSourced job j) (address_records lib job.name job.rec.ttl s)
        (address_records-IsAddressOf lib job.name job.rec.ttl (IsListed job.rec.fqdn) s l))

  failed-Fits :
      (job : Job) → IsJob job → Fits (written (fill_answer lib job.msg job.name job.rec none))
  unfolding fill_answer
  failed-Fits job j = rw j.fresh tt

  pub gathered-Fits :
      (job : Job) (w : Walked) → IsJob job → AreGathered job w → Fits (gathered lib job w)
  unfolding gathered
  gathered-Fits job w j g = elim (Bool-cases (length w.groups == 0)) [
    | inl z ↦ rw z (failed-Fits job j)
    | inr z ↦ rw z (j, g)
  ]

  pub look_at-Fits :
      (health : Option LocalHealth) (job : Job) (prev : Dict Bool) (cand : Candidate)
      (rest : List Candidate) (w : Walked)
      → Fits (walking job prev (cand ∷ rest) w)
      → Fits (look_at lib health job prev cand rest w)
  unfolding look_at
  look_at-Fits health job prev cand rest w (j, f, g) =
      let (v, u) = viable health cand (local_targets job.rec.local_checks) in
      let more : All (AreListed job) (w.groups ++ cand.answers ∷ []) =
        All-append (AreListed job) w.groups (cand.answers ∷ []) g (f.0, tt) in
      elim (Bool-cases v) [
        | inr n ↦ rw n (j, f.1, g)
        | inl y ↦ elim (Bool-cases (length cand.answers == 0)) [
          | inl z ↦ rw (y, z) (j, f.1, g)
          | inr z ↦ elim (Bool-cases (text_eq job.rec.mode mode_all)) [
            | inl a ↦ rw (y, z, a) (j, f.1, more)
            | inr a ↦ rw (y, z, a) (gathered-Fits job _ j more)
          ]
        ]
      ]

  -- The candidates of a record list what is theirs.
  candidates-AreFit :
      (job : Job) (cs : List Candidate) → job.rec.candidates ≡ some cs → IsJob job → AreFit job cs
  candidates-AreFit job cs h j =
      All-map (λ (c : Candidate). All (IsAmong cs) c.answers)
        (λ (c : Candidate). AreListed job c.answers)
        (λ c l.
          All-map (IsAmong cs) (IsListed job.rec.fqdn) (λ a k. j.own a (inl (cs, h, k))) c.answers
            l)
        cs (candidates-IsAmong cs)

  own-AreListed :
      (job : Job) → job.rec.candidates ≡ none → IsJob job → AreListed job job.rec.answers
  own-AreListed job h j =
      All-map (λ (a : Answer). IsIn a job.rec.answers) (IsListed job.rec.fqdn)
        (λ a k. j.own a (inr (h, k))) job.rec.answers (All-Any job.rec.answers)

  legacy-Fits :
      (job : Job) (o : Option (List Answer))
      → ((s : List Answer) → o ≡ some s → AreListed job s)
      → IsJob job
      → Fits (written (fill_answer lib job.msg job.name job.rec o))
  legacy-Fits job none f j = failed-Fits job j
  legacy-Fits job (some s) f j = filled-Fits job s j (f s refl)

  pub begin_resolve-Fits : (job : Job) → IsJob job → Fits (begin_resolve lib job)
  begin_resolve-Fits job j = elim (Option-cases job.rec.candidates) [
    | inl n ↦ rw (begin_legacy lib job n) (
        legacy-Fits job (legacy_answers job.rec)
          (λ s e. subst (AreListed job) (legacy_own job.rec s e) (own-AreListed job n j)) j)
    | inr (cs, h) ↦ rw (begin_reading lib job cs h) (j, candidates-AreFit job cs h j)
  ]
