-- ===== src/Checks/Endpoints/Count.antt =====
-- When the count of ready addresses is positive, which is what the k8s probe asks.
use zeus_gslb.Prelude.{
  text_eq_ne, ℕ, Text, text_eq, text_eq_iff, ◌≡◌, ◌↔◌, ◌⊎◌, ◌<◌, ◌+◌, inl, inr, true, not, Option,
  none, some, List, [], ◌∷◌, length, Any, if◌then◌else◌, arith, Bool-cases,
}
use zeus_gslb.Checks.Endpoints.{Endpoint, Slice, add_endpoints, count_slices, ready_count}

-- An endpoint that is ready and has an address.
abbrev pub IsUp : Endpoint → Type 0
IsUp ep = (ep.is_ready ≡ some true) × (0 < length ep.addresses)

-- A slice of the service with an endpoint that is up.
abbrev pub Serves : Text → Text → Option Slice → Type 0
Serves namespace service none = ⊥
Serves namespace service (some es) =
    (es.namespace ≡ namespace) × (es.service_label ≡ service) × Any IsUp es.endpoints

-- One more element of a loop: `B` holds behind it.
and_then : {P A B C D : Type 0} → (P ↔ (B ⊎ D)) → (B ↔ (A ⊎ C)) → (P ↔ (A ⊎ (C ⊎ D)))
and_then p b = (
  λ h. elim (p.0 h) [
    | inl x ↦ elim (b.0 x) [ inl a ↦ inl a | inr c ↦ inr (inl c) ]
    | inr d ↦ inr (inr d)
  ],
  λ h. elim h [
    | inl a ↦ p.1 (inl (b.1 (inl a)))
    | inr r ↦ elim r [ inl c ↦ p.1 (inl (b.1 (inr c))) | inr d ↦ p.1 (inr d) ]
  ],
)

one_endpoint :
    (ep : Endpoint) (n : ℕ)
    → (0 < (elim ep.is_ready [
      | none ↦ n
      | some is_ready ↦ if is_ready then n + length ep.addresses else n
    ]))
      ↔ ((0 < n) ⊎ IsUp ep)
one_endpoint ep n = (λ h. ground arith, λ h. ground arith)

add_endpoints_positive :
    (eps : List Endpoint) (n : ℕ) → (0 < add_endpoints eps n) ↔ ((0 < n) ⊎ Any IsUp eps)
unfolding add_endpoints
add_endpoints_positive [] n = (λ h. inl h, λ h. elim h [ inl p ↦ p | inr e ↦ absurd e ])
add_endpoints_positive (ep ∷ eps) n =
    and_then
      (add_endpoints_positive eps (elim ep.is_ready [
        | none ↦ n
        | some is_ready ↦ if is_ready then n + length ep.addresses else n
      ]))
      (one_endpoint ep n)

one_slice :
    (namespace service : Text) (es : Slice) (n : ℕ)
    → (0 < (
        if not (text_eq es.namespace namespace)
        then n
        else if not (text_eq es.service_label service)
        then n
        else add_endpoints es.endpoints n))
      ↔ ((0 < n) ⊎ Serves namespace service (some es))
one_slice namespace service es n = elim (Bool-cases (text_eq es.namespace namespace)) [
  | inr h ↦ rw h (λ p. inl p, λ p. elim p [ inl q ↦ q | inr q ↦ absurd (text_eq_ne h q.0) ])
  | inl h ↦ elim (Bool-cases (text_eq es.service_label service)) [
    | inr l ↦ rw (h, l) (λ p. inl p, λ p. elim p [ inl q ↦ q | inr q ↦ absurd (text_eq_ne l q.1) ])
    | inl l ↦
        rw (h, l)
          (
            λ p. elim ((add_endpoints_positive es.endpoints n).0 p) [
              | inl q ↦ inl q
              | inr q ↦ inr (
                (text_eq_iff es.namespace namespace).0 h,
                (text_eq_iff es.service_label service).0 l,
                q,
              )
            ],
            λ p. elim p [
              | inl q ↦ (add_endpoints_positive es.endpoints n).1 (inl q)
              | inr q ↦ (add_endpoints_positive es.endpoints n).1 (inr q.2)
            ],
          )
  ]
]

count_slices_positive :
    (namespace service : Text) (store : List (Option Slice)) (n : ℕ)
    → (0 < count_slices namespace service store n)
      ↔ ((0 < n) ⊎ Any (Serves namespace service) store)
unfolding count_slices
count_slices_positive namespace service [] n =
    (λ h. inl h, λ h. elim h [ inl p ↦ p | inr e ↦ absurd e ])
count_slices_positive namespace service (none ∷ store) n =
    and_then (count_slices_positive namespace service store n)
      (λ h. inl h, λ h. elim h [ inl p ↦ p | inr e ↦ absurd e ])
count_slices_positive namespace service (some es ∷ store) n =
    and_then
      (count_slices_positive namespace service store (
        if not (text_eq es.namespace namespace)
        then n
        else if not (text_eq es.service_label service)
        then n
        else add_endpoints es.endpoints n))
      (one_slice namespace service es n)

-- `ReadyCount` of a service is positive, so that the k8s probe reports it up, exactly when some
-- slice in its namespace with its label has an endpoint that is marked ready and has an address.
pub ready_count_positive :
    (namespace service : Text) (store : List (Option Slice))
    → (0 < ready_count namespace service store) ↔ Any (Serves namespace service) store
unfolding ready_count
ready_count_positive namespace service store =
    let both = count_slices_positive namespace service store 0 in
    (λ h. elim (both.0 h) [ inl z ↦ absurd (omega arith) | inr a ↦ a ], λ a. both.1 (inr a))
