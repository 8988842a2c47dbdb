-- ===== src/Convert/Tests.antt =====
-- The conversions on small texts.
use alias.Prelude.{ℕ, ◌≡◌, refl, List, [], ◌∷◌, ◌++◌, none, some, arith}
use alias.Outcome.{ok}
use alias.Convert.{Descriptor, get_char, is_ansii, is_2byte, is_3byte, is_4byte, is_extra, extras}
use alias.Convert.Chars.{utf8, get_char-utf8}
use alias.Convert.Texts.{AllKnown}

-- A, e with acute accent, the ideograph "middle"
abbrev points : List ℕ
points = 0x41 ∷ 0xe9 ∷ 0x4e2d ∷ []

points-AllKnown : AllKnown points
points-AllKnown = ((omega arith, refl), ((omega arith, refl), ((omega arith, refl), tt)))

get_char-utf8_example : get_char (utf8 0x4e2d ++ (0x41 ∷ [])) ≡ ok (some 3)
get_char-utf8_example = get_char-utf8 0x4e2d (0x41 ∷ []) (omega arith) (omega arith)

-- A descriptor that changes nothing.
abbrev same : Descriptor
same s = some s

-- The letter a with grave accent, as bytes c3 a0, and the one before it in the same row.
accepted : get_char (0xc3 ∷ 0xa0 ∷ []) ≡ ok (some 2)
unfolding get_char is_ansii is_2byte is_3byte is_4byte is_extra extras
accepted = refl

refused : get_char (0xc3 ∷ 0x80 ∷ []) ≡ ok none
unfolding get_char is_ansii is_2byte is_3byte is_4byte is_extra extras
refused = refl
