-- ===== src/Dns/Answers.antt =====
-- The comparison of answer sets in internal/dnsserver/damper.go.
pub mod Multiset
mod Examples
use zeus_gslb.Prelude.{
  ℕ, Text, ◌+◌, ◌-◌, Bool, true, false, none, some, List, [], ◌∷◌, ◌++◌, length, ◌==◌,
  if◌then◌else◌,
}
use zeus_gslb.Prelude.Decimal.{itoa}
use zeus_gslb.Prelude.Dict
use zeus_gslb.Prelude.Dict.{Dict}
use zeus_gslb.Bundle.{Answer}

unfoldable pub answer_key : Answer → Text
answer_key a = a.ip ++ b':' ∷ itoa a.port

-- `set[k]`: a missing key counts as 0. The counts never pass the length of a slice.
unfoldable pub count_of : Text → Dict ℕ → ℕ
count_of k set = elim (Dict.get k set) [ none ↦ 0 | some n ↦ n ]

-- The first loop, over `a`.
unfoldable pub tally : List Answer → Dict ℕ → Dict ℕ
tally [] set = set
tally (x ∷ xs) set = let k = answer_key x in tally xs (Dict.put k (count_of k set + 1) set)

-- The second loop, over `b`.
unfoldable pub spend : List Answer → Dict ℕ → Bool
spend [] set = true
spend (y ∷ ys) set =
    let k = answer_key y in
    let rest = spend ys (Dict.put k (count_of k set - 1) set) in
    if count_of k set == 0 then false else rest

unfoldable pub answer_set_equal : List Answer → List Answer → Bool
answer_set_equal a b = if length a == length b then spend b (tally a []) else false
