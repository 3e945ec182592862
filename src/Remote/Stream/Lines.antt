-- ===== src/Remote/Stream/Lines.antt =====
-- The lines that the scanner makes of printed lines.
use zeus_gslb.Prelude.{
  ℕ, Text, length, length-append, ◌+◌, ◌<◌, ◌≡◌, refl, ap, ◌∙◌, sym, arith, Bool, true, false, List,
  [], ◌∷◌, ◌++◌, ◌==◌, map, All, if◌then◌else◌,
}
use mathlib.Core.List.{append-nil, append_assoc}
use zeus_gslb.Remote.Url.Query.{has}
use zeus_gslb.Remote.Sse.{line}
use zeus_gslb.Remote.Stream.{max_token_size, drop_cr, Tail, last_line, scan}

abbrev pub ends_in_cr : Text → Bool
ends_in_cr [] = false
ends_in_cr (c ∷ []) = c == 13
ends_in_cr (c ∷ d ∷ s) = ends_in_cr (d ∷ s)

-- A line that the scanner can hold with either line end, and that no line end is part of.
pub record IsLine (s : Text) : Type 0 where
  pub one : has 10 s ≡ false
  pub bare : ends_in_cr s ≡ false
  pub short : length s + 1 < max_token_size

-- The line end, "\n" or "\r\n".
abbrev pub eol : Bool → Text
eol crlf = if crlf then 13 ∷ 10 ∷ [] else 10 ∷ []

abbrev pub print : Bool → List Text → Text
print crlf [] = []
print crlf (s ∷ lines) = s ++ (eol crlf ++ print crlf lines)

drop_cr_bare : (s : Text) → ends_in_cr s ≡ false → drop_cr s ≡ s
unfolding drop_cr
drop_cr_bare [] h = refl
drop_cr_bare (c ∷ []) h = ground arith
drop_cr_bare (c ∷ d ∷ s) h = ap (◌∷◌ c) (drop_cr_bare (d ∷ s) h)

drop_cr-append : (s : Text) → drop_cr (s ++ 13 ∷ []) ≡ s
unfolding drop_cr
drop_cr-append [] = refl
drop_cr-append (c ∷ []) = refl
drop_cr-append (c ∷ d ∷ s) = ap (◌∷◌ c) (drop_cr-append (d ∷ s))

scan_more :
    (tail : Tail) (held : Text) (c : ℕ) (s : Text)
    → (c == 10) ≡ false
    → length held + 1 < max_token_size
    → scan tail held (c ∷ s) ≡ scan tail (held ++ c ∷ []) s
unfolding scan
scan_more tail held c s n h = ground arith

scan_through :
    (tail : Tail) (held s rest : Text)
    → has 10 s ≡ false
    → length held + length s < max_token_size
    → scan tail held (s ++ 10 ∷ rest) ≡ line (drop_cr (held ++ s)) ∷ scan tail [] rest
scan_through tail held [] rest n h =
    unfold scan in ap (λ t. line (drop_cr t) ∷ scan tail [] rest) (sym (append-nil held))
scan_through tail held (c ∷ s) rest n h =
    scan_more tail held c (s ++ 10 ∷ rest) (ground arith) (omega arith)
    ∙ scan_through tail (held ++ c ∷ []) s rest (ground arith)
        (omega (arith, length-append held (c ∷ [])))
    ∙ ap (λ t. line (drop_cr t) ∷ scan tail [] rest) (append_assoc held (c ∷ []) s)

has_cr : (s : Text) → has 10 s ≡ false → has 10 (s ++ 13 ∷ []) ≡ false
has_cr [] h = refl
has_cr (c ∷ s) h = ground (arith, has_cr s (ground arith))

scan_line :
    (tail : Tail) (crlf : Bool) (s rest : Text)
    → IsLine s
    → scan tail [] (s ++ (eol crlf ++ rest)) ≡ line s ∷ scan tail [] rest
scan_line tail false s rest h =
    scan_through tail [] s rest h.one (omega (arith, h.short))
    ∙ ap (λ t. line t ∷ scan tail [] rest) (drop_cr_bare s h.bare)
scan_line tail true s rest h =
    ap (scan tail []) (sym (append_assoc s (13 ∷ []) (10 ∷ rest)))
    ∙ scan_through tail [] (s ++ 13 ∷ []) rest (has_cr s h.one)
        (omega (arith, h.short, length-append s (13 ∷ [])))
    ∙ ap (λ t. line t ∷ scan tail [] rest) (drop_cr-append s)

-- Printed lines are scanned to the same lines, with either line end.
pub scan-print :
    (tail : Tail) (crlf : Bool) (lines : List Text)
    → All IsLine lines
    → scan tail [] (print crlf lines) ≡ map line lines ++ last_line tail []
scan-print tail crlf [] h = unfold scan in refl
scan-print tail crlf (s ∷ lines) h =
    scan_line tail crlf s (print crlf lines) h.0
    ∙ ap (◌∷◌ (line s)) (scan-print tail crlf lines h.1)
