-- ===== src/Bundle/Index.antt =====
-- `ByFQDN` and `normalizeFQDN` of internal/bundle/bundle.go.
use zeus_gslb.Prelude.{
  Text, text_eq, ◌≡◌, refl, Bool, true, false, Option, none, some, List, [], ◌∷◌, ◌++◌, ◌==◌,
  if◌then◌else◌, arith, ap, ◌∙◌,
}
use zeus_gslb.Prelude.Dict
use zeus_gslb.Prelude.Dict.{Dict, get-put}
use zeus_gslb.Bundle.{Bundle, Record}

-- Whether the text is not empty and its last byte is a dot.
unfoldable pub ends_in_dot : Text → Bool
ends_in_dot [] = false
ends_in_dot (c ∷ []) = c == b'.'
ends_in_dot (c ∷ d ∷ s) = ends_in_dot (d ∷ s)

unfoldable pub normalize_fqdn : Text → Text
normalize_fqdn s = if ends_in_dot s then s else s ++ b'.' ∷ []

-- The loop over the records.
unfoldable pub index_records : List Record → Dict Record → Dict Record
index_records [] m = m
index_records (r ∷ rs) m = index_records rs (Dict.put (normalize_fqdn r.fqdn) r m)

unfoldable pub by_fqdn : Bundle → Dict Record
by_fqdn b = index_records b.records []

-- The last record with the name, or else what is given.
abbrev pub last_named : Text → List Record → Option Record → Option Record
last_named k [] found = found
last_named k (r ∷ rs) found =
    last_named k rs (if text_eq (normalize_fqdn r.fqdn) k then some r else found)

get-index_records :
    (k : Text) (rs : List Record) (m : Dict Record)
    → Dict.get k (index_records rs m) ≡ last_named k rs (Dict.get k m)
unfolding index_records
get-index_records k [] m = refl
get-index_records k (r ∷ rs) m =
    rw (← get-put (normalize_fqdn r.fqdn) k r m)
      (get-index_records k rs (Dict.put (normalize_fqdn r.fqdn) r m))

-- The index finds under a name the last record of the bundle that bears it, with the dot at its end
-- and with its letters as they are written.
pub get-by_fqdn : (b : Bundle) (k : Text) → Dict.get k (by_fqdn b) ≡ last_named k b.records none
unfolding by_fqdn
get-by_fqdn b k =
    get-index_records k b.records [] ∙ ap (last_named k b.records) (unfold Dict.get in refl)

ends_in_dot-append : (s : Text) → ends_in_dot (s ++ b'.' ∷ []) ≡ true
unfolding ends_in_dot
ends_in_dot-append [] = refl
ends_in_dot-append (c ∷ []) = refl
ends_in_dot-append (c ∷ d ∷ s) = ends_in_dot-append (d ∷ s)

pub normalize_fqdn_idem : (s : Text) → normalize_fqdn (normalize_fqdn s) ≡ normalize_fqdn s
unfolding normalize_fqdn
normalize_fqdn_idem s = ground (arith, ends_in_dot-append s)
