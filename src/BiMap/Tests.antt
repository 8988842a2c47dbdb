-- ===== src/BiMap/Tests.antt =====
-- A map of numbers, whose hashes are the numbers themselves.
use alias.Prelude.{ℕ, ◌==◌, ◌≡◌, refl, ◌⊎◌, Bool, true, none, some, arith}
use alias.Outcome.{ok, throws, Returns}
use alias.BiMap.{
  BiMap, empty_map, put, insert, replace_value, find_value, key_replaced, perform_change,
}
use alias.BiMap.Invariant.{
  IsValid, is_taken, empty_map-IsValid, insert-IsValid, perform_change-IsValid,
  replace_value-breaks,
}

abbrev same : ℕ → ℕ → Bool
same a b = a == b

abbrev hash : ℕ → ℕ
hash v = v

same_iff : (a b : ℕ) → same a b ≡ true → a ≡ b
same_iff a b e = ground arith

same_refl : (a : ℕ) → same a a ≡ true
same_refl a = ground arith

-- The pair of 1 and 10.
abbrev pair : BiMap ℕ ℕ
pair = (insert same hash 1 10 (empty_map same hash)).1

pair-IsValid : IsValid same same_iff same_refl hash pair
pair-IsValid =
    insert-IsValid same same_iff same_refl hash 1 10 (empty_map same hash)
      (empty_map-IsValid same same_iff same_refl hash)

perform_change-IsValid_example :
    ((perform_change same hash (key_replaced 10 2) pair ≡ throws)
      × (is_taken same same_iff same_refl hash (key_replaced 10 2) pair ≡ true))
    ⊎ Returns
        (perform_change same hash (key_replaced 10 2) pair)
        (IsValid same same_iff same_refl hash)
perform_change-IsValid_example =
    perform_change-IsValid same same_iff same_refl hash (key_replaced 10 2) pair pair-IsValid

pair_lem : (pair.storage 1 ≡ some 10) × (pair.index_map 20 ≡ none)
unfolding insert put empty_map
pair_lem = (refl, refl)

replace_value-breaks_example : Returns (replace_value same hash 1 20 pair) λ r.
    (r.storage 1 ≡ some 10)
    × (find_value same hash 20 r ≡ ok (some (1, 10)))
    × (¬ IsValid same same_iff same_refl hash r)
replace_value-breaks_example =
    replace_value-breaks same same_iff same_refl hash 1 20 10 pair pair-IsValid pair_lem.0
      pair_lem.1

replace_key_test : find_value same hash 10 pair ≡ ok (some (1, 10))
unfolding find_value insert put empty_map
replace_key_test = refl
