-- ===== src/Dns/Answers/Examples.antt =====
-- Tests of the comparison of answer sets, and its theorem at a concrete input.
use mathlib.Core.List.{Perm}
use zeus_gslb.Prelude.{text, text_eq, ◌≡◌, ◌↔◌, refl, true, false, [], ◌∷◌}
use zeus_gslb.Prelude.Int.{pos, negsuc}
use zeus_gslb.Prelude.Decimal.{itoa}
use zeus_gslb.Prelude.Dict
use zeus_gslb.Bundle.{Answer}
use zeus_gslb.Dns.Answers.{answer_key, count_of, tally, spend, answer_set_equal}
use zeus_gslb.Dns.Answers.Multiset.{answer_set_equal_iff}

abbrev first : Answer
first = record { ip = text "10.0.0.1"; port = pos 80 }

abbrev second : Answer
second = record { ip = text "fd00::2"; port = pos 443 }

keys :
    (answer_key first ≡ text "10.0.0.1:80")
    × (answer_key (record second { port = negsuc 11 }) ≡ text "fd00::2:-12")
unfolding answer_key itoa
keys = (refl, refl)

reordered : answer_set_equal (first ∷ second ∷ []) (second ∷ first ∷ []) ≡ true
unfolding answer_set_equal answer_key count_of tally spend itoa text_eq Dict.get Dict.put
reordered = refl

repeated : answer_set_equal (first ∷ first ∷ []) (second ∷ first ∷ []) ≡ false
unfolding answer_set_equal answer_key count_of tally spend itoa text_eq Dict.get Dict.put
repeated = refl

answer_set_equal_iff_example :
    (answer_set_equal (first ∷ second ∷ []) (second ∷ first ∷ []) ≡ true)
    ↔ Perm (first ∷ second ∷ []) (second ∷ first ∷ [])
answer_set_equal_iff_example = answer_set_equal_iff (first ∷ second ∷ []) (second ∷ first ∷ [])
