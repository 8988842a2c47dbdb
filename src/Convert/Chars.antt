-- ===== src/Convert/Chars.antt =====
-- `getChar` on the UTF-8 encodings of the code points.
use alias.Prelude.{
  ℕ, ◌+◌, ◌/◌, ◌%◌, ◌≤◌, ◌<◌, ◌==◌, leb, ltb, if◌then◌else◌, ◌≡◌, Bool, true, not, ◌&&◌, List, [],
  ◌∷◌, ◌++◌, none, some, arith, Bool-cases, inl, inr,
}
use alias.Outcome.{ok}
use alias.Convert.{is_ansii, is_2byte, is_3byte, is_4byte, is_extra, extras, get_char}

-- The encoding of a code point, below 0x110000.
abbrev pub tail_byte : ℕ → ℕ
tail_byte x = 0x80 + x % 64

abbrev pub utf8 : ℕ → List ℕ
utf8 x =
    if ltb x 0x80
    then x ∷ []
    else if ltb x 0x800
    then (0xc0 + x / 64) ∷ tail_byte x ∷ []
    else if ltb x 0x10000
    then (0xe0 + x / 4096) ∷ tail_byte (x / 64) ∷ tail_byte x ∷ []
    else (0xf0 + x / 262144) ∷ tail_byte (x / 4096) ∷ tail_byte (x / 64) ∷ tail_byte x ∷ []

-- Six bits that are not all zero.
abbrev pub is_some : ℕ → Bool
is_some x = not (x % 64 == 0)

-- The code points that the strict tests of the source let through: no continuation byte is 0x80, and
-- the lead byte is neither 0xe0 nor 0xf0.
abbrev pub is_known : ℕ → Bool
is_known x =
    if ltb x 0x80
    then ltb 0 x
    else if ltb x 0x800
    then is_some x
    else if ltb x 0x10000
    then leb 0x1000 x && is_some (x / 64) && is_some x
    else leb 0x40000 x && is_some (x / 4096) && is_some (x / 64) && is_some x

-- What `getChar` returns for them.
abbrev pub width : ℕ → ℕ
width x = if ltb x 0x80 then 0 else if ltb x 0x800 then 2 else if ltb x 0x10000 then 3 else 4

get_char_one : (x : ℕ) (rest : List ℕ) → 0 < x → x < 0x80 → get_char (x ∷ rest) ≡ ok (some 0)
unfolding get_char is_ansii
get_char_one x rest a b = ground arith

get_char_two :
    (x : ℕ) (rest : List ℕ)
    → 0x80 ≤ x
    → x < 0x800
    → get_char ((0xc0 + x / 64) ∷ tail_byte x ∷ rest) ≡ ok (if is_some x then some 2 else none)
unfolding get_char is_ansii is_2byte is_3byte is_4byte is_extra extras
get_char_two x rest a b = ground arith

get_char_three :
    (x : ℕ) (rest : List ℕ)
    → 0x800 ≤ x
    → x < 0x10000
    → get_char ((0xe0 + x / 4096) ∷ tail_byte (x / 64) ∷ tail_byte x ∷ rest)
      ≡ ok (if leb 0x1000 x && is_some (x / 64) && is_some x then some 3 else none)
unfolding get_char is_ansii is_2byte is_3byte is_4byte is_extra extras
get_char_three x rest a b = ground arith

get_char_four :
    (x : ℕ) (rest : List ℕ)
    → 0x10000 ≤ x
    → x < 0x110000
    → get_char
        ((0xf0 + x / 262144) ∷ tail_byte (x / 4096) ∷ tail_byte (x / 64) ∷ tail_byte x ∷ rest)
      ≡ ok (
          if leb 0x40000 x && is_some (x / 4096) && is_some (x / 64) && is_some x
          then some 4
          else none)
unfolding get_char is_ansii is_2byte is_3byte is_4byte is_extra extras
get_char_four x rest a b = ground arith

-- At the encoding of a code point, `getChar` returns its width (0 for ASCII), if no continuation byte
-- is 0x80 and the lead byte is neither 0xe0 nor 0xf0, and -1 for all others.
pub get_char-utf8 :
    (x : ℕ) (rest : List ℕ)
    → 0 < x
    → x < 0x110000
    → get_char (utf8 x ++ rest) ≡ ok (if is_known x then some (width x) else none)
get_char-utf8 x rest pos bound = elim (Bool-cases (ltb x 0x80)) [
  | inl a ↦
      let b : ltb 0 x ≡ true = ground arith in rw (a, b) (get_char_one x rest pos (ground arith))
  | inr a ↦ elim (Bool-cases (ltb x 0x800)) [
    | inl b ↦ rw (a, b) (get_char_two x rest (ground arith) (ground arith))
    | inr b ↦ elim (Bool-cases (ltb x 0x10000)) [
      | inl c ↦ rw (a, b, c) (get_char_three x rest (ground arith) (ground arith))
      | inr c ↦ rw (a, b, c) (get_char_four x rest (ground arith) bound)
    ]
  ]
]
