-- ===== src/Remote/Url.antt =====
-- The part of Go's net/url that internal/remote/client.go writes by, and what a server reads by.
pub mod Escape
pub mod Query
use zeus_gslb.Prelude.{
  ℕ, Text, text, ◌+◌, ◌-◌, ◌*◌, ◌/◌, ◌%◌, leb, ltb, Bool, true, false, ◌&&◌, ◌||◌, Option, none,
  some, List, [], ◌∷◌, ◌++◌, ◌==◌, if◌then◌else◌,
}

abbrev pub within : ℕ → ℕ → ℕ → Bool
within lo hi c = leb lo c && leb c hi

-- The bytes that stand for themselves in a query.
unfoldable pub is_unreserved : ℕ → Bool
is_unreserved c =
    within b'a' b'z' c
    || within b'A' b'Z' c
    || within b'0' b'9' c
    || c == b'-'
    || c == b'_'
    || c == b'.'
    || c == b'~'

-- The digit of "0123456789ABCDEF" at that place.
unfoldable pub hex_digit : ℕ → ℕ
hex_digit n = if ltb n 10 then b'0' + n else (b'A' + n) - 10

unfoldable pub escape_byte : ℕ → Text
escape_byte c =
    if c == b' '
    then b'+' ∷ []
    else if is_unreserved c
    then c ∷ []
    else b'%' ∷ hex_digit (c / 16) ∷ hex_digit (c % 16) ∷ []

-- `url.QueryEscape`.
unfoldable pub query_escape : Text → Text
query_escape [] = []
query_escape (c ∷ s) = escape_byte c ++ query_escape s

-- The value of a hexadecimal digit.
unfoldable pub unhex : ℕ → Option ℕ
unhex c =
    if within b'0' b'9' c
    then some (c - b'0')
    else if within b'A' b'F' c
    then some ((c - b'A') + 10)
    else if within b'a' b'f' c
    then some ((c - b'a') + 10)
    else none

-- What a reader of an escaped value still waits for: nothing, or one or both digits of a byte.
pub data Pending : Type 0 where
  nothing both : Pending
  second : ℕ → Pending

abbrev pub prepend : ℕ → Option Text → Option Text
prepend c none = none
prepend c (some s) = some (c ∷ s)

-- `url.QueryUnescape`, by which a server reads a value.
unfoldable pub unescape : Pending → Text → Option Text
unescape nothing [] = some []
unescape both [] = none
unescape (second v) [] = none
unescape nothing (c ∷ s) =
    let escaped = unescape both s in
    let plain = unescape nothing s in
    if c == b'%' then escaped else prepend (if c == b'+' then b' ' else c) plain
unescape both (c ∷ s) = elim (unhex c) [ none ↦ none | some v ↦ unescape (second v) s ]
unescape (second v) (c ∷ s) = elim (unhex c) [
  | none ↦ none
  | some w ↦ prepend (v * 16 + w) (unescape nothing s)
]
