-- ===== src/Checks/Endpoints.antt =====
-- internal/checks/k8s.go: the start of the lister, on what client-go returns, and `ReadyCount` on what
-- the informer's store lists.
pub mod Count
mod Examples
use zeus_gslb.Prelude.{
  ℕ, Text, text_eq, ◌+◌, Bool, true, false, Option, none, some, List, [], ◌∷◌, length, ◌==◌, not,
  ◌||◌, ◌&&◌, if◌then◌else◌,
}
use zeus_gslb.Prelude.Result.{Result, ok, err}

-- An endpoint of a slice: `Conditions.Ready` and the addresses.
pub record Endpoint : Type 0 where
  pub is_ready : Option Bool
  pub addresses : List Text

-- An `EndpointSlice`, with the value of its service label, which is "" where it has none.
pub record Slice : Type 0 where
  pub namespace : Text
  pub service_label : Text
  pub endpoints : List Endpoint

unfoldable pub add_endpoints : List Endpoint → ℕ → ℕ
add_endpoints [] count = count
add_endpoints (ep ∷ eps) count = add_endpoints eps (elim ep.is_ready [
  | none ↦ count
  | some is_ready ↦ if is_ready then count + length ep.addresses else count
])

-- The loop over the store, whose entries of another type are `none`.
unfoldable pub count_slices : Text → Text → List (Option Slice) → ℕ → ℕ
count_slices namespace service [] count = count
count_slices namespace service (none ∷ store) count = count_slices namespace service store count
count_slices namespace service (some es ∷ store) count = count_slices namespace service store (
    if not (text_eq es.namespace namespace)
    then count
    else if not (text_eq es.service_label service)
    then count
    else add_endpoints es.endpoints count)

unfoldable pub ready_count : Text → Text → List (Option Slice) → ℕ
ready_count namespace service store = count_slices namespace service store 0

-- What the start of a lister meets: whether the process is in a cluster, whether client-go builds a
-- clientset, and whether the informer's cache is filled before the context is done.
pub record Cluster : Type 0 where
  pub in_cluster : Bool
  pub builds_clientset : Bool
  pub syncs : Bool

pub data ListerError : Type 0 where
  in_cluster_config build_clientset cache_sync : ListerError

-- A lister by its informer, which is client-go's.
pub data K8sLister : Type 0 where
  with_informer : K8sLister

unfoldable pub new_k8s_lister_for_clientset : Cluster → Result ListerError K8sLister
new_k8s_lister_for_clientset c = if not c.syncs then err cache_sync else ok with_informer

unfoldable pub new_k8s_lister : Cluster → Result ListerError K8sLister
new_k8s_lister c =
    if not c.in_cluster
    then err in_cluster_config
    else if not c.builds_clientset
    then err build_clientset
    else new_k8s_lister_for_clientset c

-- `kerr == nil`
abbrev pub is_started : Result ListerError K8sLister → Bool
is_started (ok l) = true
is_started (err e) = false
