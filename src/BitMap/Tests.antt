-- ===== src/BitMap/Tests.antt =====
-- The bit map of utils/src/bitmap.cpp on small inputs.
use alias.Prelude.{◌≡◌, refl, true, [], ◌∷◌, some, arith}
use alias.Outcome.{ok, crash, Returns}
use alias.BitMap.{BitMap, set, at, copy, count, read_bit, write_bit}
use alias.BitMap.Access.{IsValid, view, SetsBit, set-SetsBit}
use alias.BitMap.Storage.{copy-crash}
use alias.BitMap.Ones.{ones, tally}
use alias.BitMap.Count.{count-view}

abbrev two_bytes : BitMap
two_bytes = record { mem = some (5 ∷ 128 ∷ []); capacity = 16 }

two_bytes-IsValid : IsValid two_bytes
two_bytes-IsValid = record {
  sized = refl;
  small = omega arith;
  are_bytes = (omega arith, (omega arith, tt));
}

set-SetsBit_example : Returns (set two_bytes 9 true) (SetsBit two_bytes 9 true)
set-SetsBit_example = set-SetsBit two_bytes 9 true two_bytes-IsValid

copy-crash_example : copy true two_bytes ≡ crash
copy-crash_example = copy-crash two_bytes two_bytes-IsValid (omega arith) (omega arith)

count-view_example : count (ones 32) two_bytes ≡ ok (tally (view two_bytes) 0 16)
count-view_example = count-view (ones 32) (λ x h. refl) two_bytes two_bytes-IsValid

at_test : at two_bytes 15 ≡ ok true
unfolding at read_bit
at_test = refl

set_test : set two_bytes 9 true ≡ ok (true, record { mem = some (5 ∷ 130 ∷ []); capacity = 16 })
unfolding set write_bit
set_test = refl

count_test : count (ones 32) two_bytes ≡ ok 3
unfolding count ones
count_test = refl
