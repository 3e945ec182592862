-- ===== src/Remote/Url/Query.antt =====
-- How a server of package net/http reads the value of a query's first key.
use zeus_gslb.Prelude.{
  ℕ, ◌/◌, ◌%◌, Text, text_eq, text_eq_refl, ◌≡◌, refl, arith, Bool, true, false, ◌||◌, Bool-cases,
  inl, inr, ==_iff, Option, none, some, [], ◌∷◌, ◌++◌, ◌==◌, if◌then◌else◌, All, any,
}
use zeus_gslb.Remote.Url.{is_unreserved, hex_digit, escape_byte, query_escape, nothing, unescape}
use zeus_gslb.Remote.Url.Escape.{IsByte, hex_digit-is_unreserved, unescape-query_escape}

-- Whether a text has the byte.
abbrev pub has : ℕ → Text → Bool
has d = any (λ c. c == d)

-- The two sides of `strings.Cut` at a byte, the whole and nothing where it is not there.
unfoldable pub before : ℕ → Text → Text
before d [] = []
before d (c ∷ s) = if c == d then [] else c ∷ before d s

unfoldable pub after : ℕ → Text → Text
after d [] = []
after d (c ∷ s) = if c == d then s else after d s

-- The value of a key that stands first in the query of a URL: the fragment is cut off, then the
-- query is what follows the first '?', then its first pair is split at the '='.
unfoldable pub first_value : Text → Text → Option Text
first_value key url =
    let pair = before b'&' (after b'?' (before b'#' url)) in
    if text_eq (before b'=' pair) key then unescape nothing (after b'=' pair) else none

pub has-append : (d : ℕ) (s t : Text) → has d (s ++ t) ≡ (has d s || has d t)
has-append d [] t = refl
has-append d (c ∷ s) t = ground (arith, has-append d s t)

before_absent : (d : ℕ) (s : Text) → has d s ≡ false → before d s ≡ s
unfolding before
before_absent d [] h = refl
before_absent d (c ∷ s) h = ground (arith, before_absent d s (ground arith))

before-append : (d : ℕ) (s t : Text) → has d s ≡ false → before d (s ++ d ∷ t) ≡ s
unfolding before
before-append d [] t h = ground arith
before-append d (c ∷ s) t h = ground (arith, before-append d s t (ground arith))

after-append : (d : ℕ) (s t : Text) → has d s ≡ false → after d (s ++ d ∷ t) ≡ t
unfolding after
after-append d [] t h = ground arith
after-append d (c ∷ s) t h = ground (arith, after-append d s t (ground arith))

-- The bytes by which a URL is taken apart.
pub data IsMark : ℕ → Type 0 where
  mark : {d : ℕ} → is_unreserved d ≡ false → (b'+' == d) ≡ false → (b'%' == d) ≡ false → IsMark d

unreserved_differs : (d c : ℕ) → is_unreserved c ≡ true → is_unreserved d ≡ false → (c == d) ≡ false
unreserved_differs d c h u = elim (Bool-cases (c == d)) [
  | inl e ↦ absurd (cc (h, u, (==_iff c d).0 e))
  | inr e ↦ e
]

escape_byte-has : (d c : ℕ) → IsMark d → IsByte c → has d (escape_byte c) ≡ false
unfolding escape_byte
escape_byte-has d c (mark u p q) h =
    let high =
      unreserved_differs d (hex_digit (c / 16)) (hex_digit-is_unreserved (c / 16) (omega arith))
        u in
    let low =
      unreserved_differs d (hex_digit (c % 16)) (hex_digit-is_unreserved (c % 16) (omega arith))
        u in
    elim (Bool-cases (is_unreserved c)) [
      | inl v ↦ ground (arith, unreserved_differs d c v u)
      | inr v ↦ ground (arith, high, low)
    ]

pub query_escape-has : (d : ℕ) (s : Text) → IsMark d → All IsByte s → has d (query_escape s) ≡ false
unfolding query_escape
query_escape-has d [] m h = refl
query_escape-has d (c ∷ s) m h = ground (
  arith,
  has-append d (escape_byte c) (query_escape s),
  escape_byte-has d c m h.0,
  query_escape-has d s m h.1,
)

-- What `first_value` finds of an escaped value.
pub first_value-query_escape :
    (key path value : Text)
    → has b'#' path ≡ false
    → has b'?' path ≡ false
    → has b'#' key ≡ false
    → has b'&' key ≡ false
    → has b'=' key ≡ false
    → All IsByte value
    → first_value key (path ++ b'?' ∷ (key ++ b'=' ∷ query_escape value)) ≡ some value
unfolding first_value is_unreserved
first_value-query_escape key path value p q k l m v =
    let e = query_escape value in
    let pair : Text = key ++ b'=' ∷ e in
    let e_mark : has b'#' e ≡ false = query_escape-has b'#' value (mark refl refl refl) v in
    let e_and : has b'&' e ≡ false = query_escape-has b'&' value (mark refl refl refl) v in
    let whole : has b'#' (path ++ b'?' ∷ pair) ≡ false =
      ground
        (arith, p, k, e_mark, has-append b'#' path (b'?' ∷ pair), has-append b'#' key (b'=' ∷ e)) in
    let one : has b'&' pair ≡ false = ground (arith, l, e_and, has-append b'&' key (b'=' ∷ e)) in
    rw
      (
        before_absent b'#' (path ++ b'?' ∷ pair) whole,
        after-append b'?' path pair q,
        before_absent b'&' pair one,
        before-append b'=' key e m,
        text_eq_refl key,
        after-append b'=' key e m,
      )
      (unescape-query_escape value v)
