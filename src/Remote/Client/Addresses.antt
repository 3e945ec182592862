-- ===== src/Remote/Client/Addresses.antt =====
-- The URLs of the client, as the server reads them.
use zeus_gslb.Prelude.{
  ℕ, Text, text, ◌≡◌, refl, ap, ◌∙◌, sym, arith, false, some, [], ◌∷◌, ◌++◌, All,
}
use mathlib.Core.List.{append_assoc}
use zeus_gslb.Remote.Url.{query_escape}
use zeus_gslb.Remote.Url.Escape.{IsByte}
use zeus_gslb.Remote.Url.Query.{has, has-append, first_value, first_value-query_escape}
use zeus_gslb.Remote.Client.{trim_slashes, new_client, bundle_url, events_url}

url_reads_back :
    (base path cluster : Text)
    → has b'#' base ≡ false
    → has b'?' base ≡ false
    → has b'#' path ≡ false
    → has b'?' path ≡ false
    → All IsByte cluster
    → first_value (text "cluster") (base ++ (path ++ (text "?cluster=" ++ query_escape cluster)))
      ≡ some cluster
url_reads_back base path cluster p q k l v =
    ap (first_value (text "cluster"))
      (sym (append_assoc base path (text "?cluster=" ++ query_escape cluster)))
    ∙ first_value-query_escape (text "cluster") (base ++ path) cluster
        (ground (arith, has-append b'#' base path)) (ground (arith, has-append b'?' base path)) refl
        refl refl v

has-trim_slashes : (d : ℕ) (s : Text) → has d s ≡ false → has d (trim_slashes s) ≡ false
unfolding trim_slashes
has-trim_slashes d [] h = refl
has-trim_slashes d (c ∷ s) h = ground (arith, has-trim_slashes d s (ground arith))

-- A server reads the cluster of the client out of the URL of the bundle and out of that of the
-- events, whatever bytes its name has, where the base URL has no query and no fragment.
pub new_client-urls :
    (base cluster token : Text)
    → has b'#' base ≡ false
    → has b'?' base ≡ false
    → All IsByte cluster
    → (first_value (text "cluster") (bundle_url (new_client base cluster token)) ≡ some cluster)
      × (first_value (text "cluster") (events_url (new_client base cluster token)) ≡ some cluster)
unfolding bundle_url events_url new_client
new_client-urls base cluster token p q v = (
  url_reads_back (trim_slashes base) (text "/api/global-endpoints/bundle") cluster
      (has-trim_slashes b'#' base p) (has-trim_slashes b'?' base q) refl refl v,
  url_reads_back (trim_slashes base) (text "/api/global-endpoints/events") cluster
      (has-trim_slashes b'#' base p) (has-trim_slashes b'?' base q) refl refl v,
)
