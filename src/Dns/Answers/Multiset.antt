-- ===== src/Dns/Answers/Multiset.antt =====
-- Two answer sets are equal for the code exactly when one is a permutation of the other.
use mathlib.Core.Logic.{∥∥₁_elim}
use mathlib.Core.List.{Perm, Permᴰ}
use mathlib.Core.List.Perm
use native.Mathlib.Nat.{ℕ_set}
use zeus_gslb.Prelude.{
  ℕ, suc, Text, text_eq, text_eq_iff, text_eq_refl, ◌+◌, ◌-◌, ◌≤◌, ◌≡◌, ◌↔◌, refl, sym, ap, ◌∙◌,
  true, false, List, [], ◌∷◌, ◌++◌, length, any, if◌then◌else◌, arith, Bool-cases, inl, inr,
}
use zeus_gslb.Prelude.Decimal.{is_colon, itoa, itoa_no_colon, itoa_injective}
use zeus_gslb.Prelude.Dict
use zeus_gslb.Prelude.Dict.{Dict, get-put}
use zeus_gslb.Bundle.{Answer}
use zeus_gslb.Dns.Answers.{answer_key, count_of, tally, spend, answer_set_equal}

-- The text behind its last colon, and the text before it.
after_colon : Text → Text
after_colon [] = []
after_colon (c ∷ s) = if any is_colon s then after_colon s else s

before_colon : Text → Text
before_colon [] = []
before_colon (c ∷ s) = if any is_colon s then c ∷ before_colon s else []

colon_inside : (s t : Text) → any is_colon (s ++ b':' ∷ t) ≡ true
colon_inside [] t = refl
colon_inside (c ∷ s) t = ground (arith, colon_inside s t)

after_colon-append : (s t : Text) → any is_colon t ≡ false → after_colon (s ++ b':' ∷ t) ≡ t
unfolding after_colon
after_colon-append [] t h = rw h
after_colon-append (c ∷ s) t h = rw (colon_inside s t) (after_colon-append s t h)

before_colon-append : (s t : Text) → any is_colon t ≡ false → before_colon (s ++ b':' ∷ t) ≡ s
unfolding before_colon
before_colon-append [] t h = rw h
before_colon-append (c ∷ s) t h = rw (colon_inside s t, before_colon-append s t h)

-- Different answers have different keys, also where an address has colons of its own.
pub answer_key_injective : (a b : Answer) → answer_key a ≡ answer_key b → a ≡ b
unfolding answer_key
answer_key_injective a b h =
    let ips : a.ip ≡ b.ip =
      sym (before_colon-append a.ip (itoa a.port) (itoa_no_colon a.port))
      ∙ ap before_colon h
      ∙ before_colon-append b.ip (itoa b.port) (itoa_no_colon b.port) in
    let ports : itoa a.port ≡ itoa b.port =
      sym (after_colon-append a.ip (itoa a.port) (itoa_no_colon a.port))
      ∙ ap after_colon h
      ∙ after_colon-append b.ip (itoa b.port) (itoa_no_colon b.port) in
    ground (arith, ips, itoa_injective a.port b.port ports)

-- How many answers of a list have the key.
abbrev occurrences : Text → List Answer → ℕ
occurrences k [] = 0
occurrences k (x ∷ xs) = (if text_eq (answer_key x) k then 1 else 0) + occurrences k xs

count_of-put :
    (k j : Text) (n : ℕ) (set : Dict ℕ)
    → count_of j (Dict.put k n set) ≡ (if text_eq k j then n else count_of j set)
unfolding count_of
count_of-put k j n set = ground (arith, get-put k j n set)

count_of-tally :
    (k : Text) (xs : List Answer) (set : Dict ℕ)
    → count_of k (tally xs set) ≡ occurrences k xs + count_of k set
unfolding tally
count_of-tally k [] set = omega arith
count_of-tally k (x ∷ xs) set =
    let kx = answer_key x in
    let n = count_of kx set + 1 in
    ground
      (arith, count_of-tally k xs (Dict.put kx n set), count_of-put kx k n set, text_eq_iff kx k)

-- `spend` succeeds exactly when no key occurs more often than its count.
spend-le :
    (ys : List Answer) (set : Dict ℕ)
    → spend ys set ≡ true
    → (k : Text) → occurrences k ys ≤ count_of k set
unfolding spend
spend-le [] set h k = omega arith
spend-le (y ∷ ys) set h k =
    let ky = answer_key y in
    let n = count_of ky set - 1 in
    ground (
      arith,
      spend-le ys (Dict.put ky n set) (ground arith) k,
      count_of-put ky k n set,
      text_eq_iff ky k,
    )

spend_of_le :
    (ys : List Answer) (set : Dict ℕ)
    → ((k : Text) → occurrences k ys ≤ count_of k set)
    → spend ys set ≡ true
unfolding spend
spend_of_le [] set h = refl
spend_of_le (y ∷ ys) set h =
    let ky = answer_key y in
    let n = count_of ky set - 1 in
    let rest =
      spend_of_le ys (Dict.put ky n set)
        (λ k. ground (arith, h k, count_of-put ky k n set, text_eq_iff ky k)) in
    ground (arith, rest, h ky, text_eq_refl ky)

-- The list without its first answer of the key.
remove : Text → List Answer → List Answer
remove k [] = []
remove k (x ∷ xs) = if text_eq (answer_key x) k then xs else x ∷ remove k xs

length-remove :
    (k : Text) (xs : List Answer) → 1 ≤ occurrences k xs → length (remove k xs) + 1 ≡ length xs
unfolding remove
length-remove k [] h = absurd (omega arith)
length-remove k (x ∷ xs) h = ground (arith, length-remove k xs)

occurrences-remove :
    (k j : Text) (xs : List Answer)
    → 1 ≤ occurrences k xs
    → occurrences j xs ≡ (if text_eq k j then 1 else 0) + occurrences j (remove k xs)
unfolding remove
occurrences-remove k j [] h = absurd (omega arith)
occurrences-remove k j (x ∷ xs) h = ground (
  arith,
  occurrences-remove k j xs,
  text_eq_iff (answer_key x) k,
  text_eq_iff (answer_key x) j,
  text_eq_iff k j,
)

remove-perm :
    (y : Answer) (xs : List Answer)
    → 1 ≤ occurrences (answer_key y) xs
    → Perm xs (y ∷ remove (answer_key y) xs)
unfolding remove
remove-perm y [] h = absurd (omega arith)
remove-perm y (x ∷ xs) h = elim (Bool-cases (text_eq (answer_key x) (answer_key y))) [
  | inl same ↦
      rw (same, answer_key_injective x y ((text_eq_iff (answer_key x) (answer_key y)).0 same))
        (Perm.refl (y ∷ xs))
  | inr other ↦ rw other (
      Perm.trans (Perm.cons x (remove-perm y xs (ground arith)))
        (Perm.swap y x (remove (answer_key y) xs)))
]

-- Lists of one length, the second with no key more often than the first, are permutations.
perm_of_le :
    (ys xs : List Answer)
    → length xs ≡ length ys
    → ((k : Text) → occurrences k ys ≤ occurrences k xs)
    → Perm xs ys
perm_of_le [] [] e h = Perm.refl []
perm_of_le [] (x ∷ xs) e h = absurd (omega arith)
perm_of_le (y ∷ ys) xs e h =
    let ky = answer_key y in
    let there : 1 ≤ occurrences ky xs = ground (arith, h ky, text_eq_refl ky) in
    Perm.trans (remove-perm y xs there) (
      Perm.cons y (
        perm_of_le ys (remove ky xs) (omega (arith, length-remove ky xs there))
          (λ k. ground (arith, h k, occurrences-remove ky k xs there))))

length-permᴰ : {xs ys : List Answer} → Permᴰ xs ys → length xs ≡ length ys
length-permᴰ Permᴰ.nil = refl
length-permᴰ (Permᴰ.cons e p) = ap suc (length-permᴰ p)
length-permᴰ (Permᴰ.swap e f) = refl
length-permᴰ (Permᴰ.trans p q) = length-permᴰ p ∙ length-permᴰ q

occurrences-permᴰ :
    {xs ys : List Answer} (k : Text) → Permᴰ xs ys → occurrences k xs ≡ occurrences k ys
occurrences-permᴰ k Permᴰ.nil = refl
occurrences-permᴰ k (Permᴰ.cons e p) = ground (arith, ap answer_key e, occurrences-permᴰ k p)
occurrences-permᴰ k (Permᴰ.swap e f) = ground (arith, ap answer_key e, ap answer_key f)
occurrences-permᴰ k (Permᴰ.trans p q) = occurrences-permᴰ k p ∙ occurrences-permᴰ k q

count_of-nil : (k : Text) → count_of k [] ≡ 0
unfolding count_of Dict.get
count_of-nil k = refl

perm_of_equal : (a b : List Answer) → answer_set_equal a b ≡ true → Perm a b
unfolding answer_set_equal
perm_of_equal a b h = perm_of_le b a (ground arith) (λ k.
    ground (arith, spend-le b (tally a []) (ground arith) k, count_of-tally k a [], count_of-nil k))

equal_of_perm : (a b : List Answer) → Perm a b → answer_set_equal a b ≡ true
unfolding answer_set_equal
equal_of_perm a b p =
    let lengths : length a ≡ length b = ∥∥₁_elim p (ℕ_set _ _) length-permᴰ in
    let spends : spend b (tally a []) ≡ true = spend_of_le b (tally a []) (λ k.
      let same : occurrences k a ≡ occurrences k b = ∥∥₁_elim p (ℕ_set _ _) (occurrences-permᴰ k) in
      omega (arith, same, count_of-tally k a [])) in
    ground (arith, lengths, spends)

-- The code finds two answer sets equal exactly when one is a permutation of the other.
pub answer_set_equal_iff : (a b : List Answer) → (answer_set_equal a b ≡ true) ↔ Perm a b
answer_set_equal_iff a b = (perm_of_equal a b, equal_of_perm a b)

pub answer_set_equal_refl : (a : List Answer) → answer_set_equal a a ≡ true
answer_set_equal_refl a = equal_of_perm a a (Perm.refl a)
