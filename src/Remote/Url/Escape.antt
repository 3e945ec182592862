-- ===== src/Remote/Url/Escape.antt =====
-- What is escaped for a query is read back, and has no byte with a meaning in a URL.
use zeus_gslb.Prelude.{
  ℕ, Text, ◌+◌, ◌*◌, ◌/◌, ◌%◌, ◌<◌, ◌≡◌, refl, ap, ◌∙◌, arith, true, false, sym, Bool-cases, inl,
  inr, ==_iff, some, [], ◌∷◌, ◌++◌, ◌==◌, All,
}
use mathlib.Core.Path.{subst}
use zeus_gslb.Remote.Url.{
  is_unreserved, hex_digit, escape_byte, query_escape, unhex, nothing, prepend, unescape,
}

abbrev pub IsByte : ℕ → Type 0
IsByte c = c < 256

unhex-hex_digit : (n : ℕ) → n < 16 → unhex (hex_digit n) ≡ some n
unfolding unhex hex_digit
unhex-hex_digit n h = ground arith

pub hex_digit-is_unreserved : (n : ℕ) → n < 16 → is_unreserved (hex_digit n) ≡ true
unfolding is_unreserved hex_digit
hex_digit-is_unreserved n h = ground arith

-- A byte that stands for itself is no sign of the escapes.
is_unreserved-plain :
    (c : ℕ)
    → is_unreserved c ≡ true
    → (c == b'%') ≡ false × (c == b'+') ≡ false × (c == b' ') ≡ false
unfolding is_unreserved
is_unreserved-plain c h = (ground arith, ground arith, ground arith)

unescape-percent :
    (h l : ℕ) (v w : ℕ) (rest : Text)
    → unhex h ≡ some v
    → unhex l ≡ some w
    → unescape nothing (b'%' ∷ h ∷ l ∷ rest) ≡ prepend (v * 16 + w) (unescape nothing rest)
unfolding unescape
unescape-percent h l v w rest p q = ground arith

unescape-plain :
    (c : ℕ) (rest : Text)
    → (c == b'%') ≡ false
    → (c == b'+') ≡ false
    → unescape nothing (c ∷ rest) ≡ prepend c (unescape nothing rest)
unfolding unescape
unescape-plain c rest p q = rw (p, q) refl

unescape-plus :
    (rest : Text) → unescape nothing (b'+' ∷ rest) ≡ prepend b' ' (unescape nothing rest)
unfolding unescape
unescape-plus rest = refl

escaped :
    (c : ℕ) (rest : Text)
    → IsByte c
    → unescape nothing (b'%' ∷ hex_digit (c / 16) ∷ hex_digit (c % 16) ∷ rest)
      ≡ prepend c (unescape nothing rest)
escaped c rest h =
    subst
      (λ d.
        unescape nothing (b'%' ∷ hex_digit (c / 16) ∷ hex_digit (c % 16) ∷ rest)
        ≡ prepend d (unescape nothing rest))
      (omega arith)
      (unescape-percent (hex_digit (c / 16)) (hex_digit (c % 16)) (c / 16) (c % 16) rest
        (unhex-hex_digit (c / 16) (omega arith)) (unhex-hex_digit (c % 16) (omega arith)))

unescape-escape_byte :
    (c : ℕ) (rest : Text)
    → IsByte c
    → unescape nothing (escape_byte c ++ rest) ≡ prepend c (unescape nothing rest)
unfolding escape_byte
unescape-escape_byte c rest h = elim (Bool-cases (c == b' ')) [
  | inl y ↦
      subst (λ d. unescape nothing (escape_byte d ++ rest) ≡ prepend d (unescape nothing rest))
        (sym ((==_iff c b' ').0 y)) (unescape-plus rest)
  | inr n ↦ elim (Bool-cases (is_unreserved c)) [
    | inl u ↦
        rw (n, u) (unescape-plain c rest (is_unreserved-plain c u).0 (is_unreserved-plain c u).1)
    | inr u ↦ rw (n, u) (escaped c rest h)
  ]
]

pub unescape-query_escape : (s : Text) → All IsByte s → unescape nothing (query_escape s) ≡ some s
unfolding query_escape
unescape-query_escape [] h = unfold unescape in refl
unescape-query_escape (c ∷ s) h =
    unescape-escape_byte c (query_escape s) h.0 ∙ ap (prepend c) (unescape-query_escape s h.1)
