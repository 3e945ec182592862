-- ===== src/Main/Publish/Reaches.antt =====
-- A published bundle reaches the answers.
use mathlib.Core.Path.{subst}
use zeus_gslb.Prelude.{
  ℕ, zero, suc, Text, text_eq, Time, length, filter, any, ◌+◌, ◌≡◌, ◌≢◌, ◌⊎◌, refl, ap, ◌∙◌, arith,
  Bool, true, ◌||◌, Option, none, some, List, [], ◌∷◌, All,
}
use zeus_gslb.Prelude.Result.{ok}
use zeus_gslb.Bundle.{Answer, Bundle, Record, state_ok, state_degraded}
use zeus_gslb.Bundle.Validate.{parse_and_validate}
use zeus_gslb.Bundle.Cache.{Dir}
use zeus_gslb.Bundle.Store.{Store}
use zeus_gslb.Remote.Client.{Client, Net, Response}
use zeus_gslb.Remote.Client.Fetching.{Answered, Fetched, fetch_bundle-ok}
use zeus_gslb.Remote.Refetch.{refetch_and_apply}
use zeus_gslb.Remote.Refetch.Serving.{Serves, refetch-Serves}
use zeus_gslb.Remote.Reconnect.{refetch_each}
use zeus_gslb.Remote.Sse.Blocks.{is_field, IsFilled}
use zeus_gslb.Remote.Stream.{Tail, events_request}
use zeus_gslb.Remote.Stream.Lines.{IsLine, print}
use zeus_gslb.Remote.Stream.Events.{flat, subscribe_to_calls}
use zeus_gslb.Dns.Evaluator.{Evaluator, legacy_answers, resolve}
use zeus_gslb.Dns.Evaluator.Source.{resolve_legacy}
use zeus_gslb.Dns.Handler.{Library, Question, type_a, lookup, serve_dns}
use zeus_gslb.Dns.Handler.Records.{address_records}
use zeus_gslb.Dns.Handler.Rcodes.{in_zone, known_address, Reports}
use zeus_gslb.Main.Boot.{Meeting, bytes_of}
use zeus_gslb.Main.Publish.{fetch_by, fetches, on_subscription, follow}

module _ (unmarshal : Text → Option Bundle) (client : Client) (world : ℕ → Meeting) (raw : Text)
    (b : Bundle) (valid : parse_and_validate unmarshal raw ≡ ok b) where
  fetch_by-fetched :
      (m : Meeting) (a : Response)
      → Fetched m.net client raw a
      → (fetch_by client m).fetched ≡ some raw
  unfolding fetch_by
  fetch_by-fetched m a h = ap bytes_of ((fetch_bundle-ok m.net client raw).1 (a, h))

  -- The last of so many refetches brings the bundle, whatever the others bring.
  fetches-Serves :
      (n i : ℕ) (a : Response) (s : Store) (d : Dir)
      → Fetched (world (i + n)).net client raw a
      → Serves unmarshal b (refetch_each unmarshal (fetches client world i (suc n)) (s, d)).0
  unfolding refetch_each fetches
  fetches-Serves zero i a s d h =
      refetch-Serves unmarshal (fetch_by client (world i)) raw b s d
        (fetch_by-fetched (world i) a (let z : i + 0 ≡ i = omega arith in rw z at h)) valid
  fetches-Serves (suc n) i a s d h =
      let (s', d') = refetch_and_apply unmarshal (fetch_by client (world i)) s d in
      fetches-Serves n (suc i) a s' d' (let z : i + suc n ≡ suc i + n = omega arith in rw z at h)

legacy_given :
    (rec : Record)
    → text_eq rec.state state_ok || text_eq rec.state state_degraded ≡ true
    → legacy_answers rec ≡ some rec.answers
unfolding legacy_answers
legacy_given rec h = rw h refl

-- The answer of a question about a record without candidates that a bundle serves.
module _ (lib : Library) (e : Evaluator) (b : Bundle) (q : Question) (rec : Record)
    (now : Time) where
  answered-own :
      in_zone lib b (q ∷ []) ≡ true
      → lookup lib b (lib.fqdn q.name) ≡ some rec
      → q.qtype ≡ type_a
      → rec.candidates ≡ none
      → text_eq rec.state state_ok || text_eq rec.state state_degraded ≡ true
      → (serve_dns lib e (some b) (q ∷ []) now).1.answer
        ≡ address_records lib (lib.fqdn q.name) rec.ttl rec.answers
  answered-own inside found type legacy state =
      let (reports, same) = known_address lib e b q now inside rec found type in
      let own : (resolve e rec now).1 ≡ some rec.answers =
        ap (λ (x : Evaluator × Option (List Answer)). x.1) (resolve_legacy e rec now legacy)
        ∙ legacy_given rec state in
      (subst (λ o. Reports lib (lib.fqdn q.name) rec o (serve_dns lib e (some b) (q ∷ []) now).1)
        own reports).0

-- A stream that zeus prints: blocks, and the beginning of another one.
pub record Prints (net : Net) (client : Client) (blocks : List (List Text)) : Type 0 where
  pub response : Response
  pub answered : Answered net client.stream_client (events_request client) response
  pub status : response.status ≡ 200
  pub crlf : Bool
  pub rest : List Text
  pub body : response.body ≡ print crlf (flat blocks rest)
  pub lines : All IsLine (flat blocks rest)
  pub filled : All IsFilled blocks
  pub begun : IsFilled rest

-- How many of the blocks are events.
abbrev pub events_of : List (List Text) → ℕ
events_of blocks = length (filter (any is_field) blocks)

follow-Serves :
    (unmarshal : Text → Option Bundle) (client : Client) (net : Net) (done : Bool) (tail : Tail)
    (blocks : List (List Text)) (world : ℕ → Meeting) (n : ℕ) (a : Response) (raw : Text)
    (b : Bundle) (s : Store) (d : Dir)
    → Prints net client blocks
    → events_of blocks ≡ suc n
    → Fetched (world n).net client raw a
    → parse_and_validate unmarshal raw ≡ ok b
    → Serves unmarshal b (follow unmarshal client net done tail world (s, d)).0
unfolding follow on_subscription
follow-Serves unmarshal client net done tail blocks world n a raw b s d p count f valid =
    rw
      (
        subscribe_to_calls net client done p.response tail p.crlf blocks p.rest p.answered p.status
            p.body p.lines p.filled p.begun,
        count,
      )
      (fetches-Serves unmarshal client world raw b valid n 0 a s d
        (let z : 0 + n ≡ n = omega arith in rw z f))

-- When zeus prints events on the stream and answers the refetch of the last one with a valid bundle,
-- then whatever the refetches before it met, the store serves that bundle, or one with the same
-- content hash where that hash is not empty; and a question of type A about a record of the bundle
-- that is served is answered with the addresses of that record, in order, whatever the evaluator
-- holds, if the record has no candidates and its state is "ok" or "degraded".
pub publish_reaches :
    (unmarshal : Text → Option Bundle) (lib : Library) (client : Client) (net : Net) (done : Bool)
    (tail : Tail) (blocks : List (List Text)) (world : ℕ → Meeting) (n : ℕ) (a : Response)
    (raw : Text) (b c : Bundle) (s : Store) (d : Dir) (e : Evaluator) (q : Question) (rec : Record)
    (now : Time)
    → Prints net client blocks
    → events_of blocks ≡ suc n
    → Fetched (world n).net client raw a
    → parse_and_validate unmarshal raw ≡ ok b
    → (follow unmarshal client net done tail world (s, d)).0.current ≡ some c
    → in_zone lib c (q ∷ []) ≡ true
    → lookup lib c (lib.fqdn q.name) ≡ some rec
    → q.qtype ≡ type_a
    → rec.candidates ≡ none
    → text_eq rec.state state_ok || text_eq rec.state state_degraded ≡ true
    → ((c ≡ b) ⊎ ((c.content_hash ≡ b.content_hash) × (b.content_hash ≢ [])))
      × ((serve_dns lib e
            (follow unmarshal client net done tail world (s, d)).0.current
            (q ∷ [])
            now).1.answer
          ≡ address_records lib (lib.fqdn q.name) rec.ttl rec.answers)
publish_reaches unmarshal lib client net done tail blocks world n a raw b c s d e q rec now p count
      f valid current inside found type legacy state =
    let serves =
      follow-Serves unmarshal client net done tail blocks world n a raw b s d p count f valid in
    let same : serves.served ≡ c = cc (serves.current, current) in
    (
      subst (λ (x : Bundle). (x ≡ b) ⊎ ((x.content_hash ≡ b.content_hash) × (b.content_hash ≢ [])))
          same serves.same,
      rw current (answered-own lib e c q rec now inside found type legacy state),
    )
