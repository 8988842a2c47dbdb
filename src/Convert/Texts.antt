-- ===== src/Convert/Texts.antt =====
-- `isUTF8Encode` and `UTF82GBK` on whole texts.
use alias.Prelude.{
  ℕ, zero, suc, ◌+◌, ◌/◌, ◌≤◌, ◌<◌, leb, ltb, if◌then◌else◌, ◌≡◌, refl, ap, ◌∙◌, Bool, true, false,
  ◌&&◌, ◌||◌, List, [], ◌∷◌, ◌++◌, some, length, drop, take, arith, All, Bool-cases, inl, inr,
  append_assoc, append-nil, length-append,
}
use alias.Outcome.{ok}
use alias.Convert.{
  is_ansii, is_2byte, is_3byte, is_4byte, is_extra, extras, sequence, round, rounds, is_utf8_encode,
  get_char, c_text, Descriptor, convert_chars, utf8_to_gbk,
}
use alias.Convert.Chars.{utf8, tail_byte, is_some, is_known, width, get_char-utf8}

-- The text of a list of code points.
abbrev pub text : List ℕ → List ℕ
text [] = []
text (x ∷ xs) = utf8 x ++ text xs

abbrev pub has_wide : List ℕ → Bool
has_wide [] = false
has_wide (x ∷ xs) = leb 0x80 x || has_wide xs

abbrev pub AllKnown : List ℕ → Type 0
AllKnown xs = All (λ x. (x < 0x110000) × (is_known x ≡ true)) xs

extra_tail : (x : ℕ) → is_extra (tail_byte x) ≡ is_some x
unfolding is_extra
extra_tail x = ground arith

rounds-round :
    (fuel : ℕ) (flag : Bool) (c : ℕ) (cs : List ℕ) {next : Bool} {rest : List ℕ}
    → round flag c cs ≡ some (next, rest)
    → rounds (suc fuel) flag (c ∷ cs) ≡ rounds fuel next rest
unfolding rounds
rounds-round fuel flag c cs e = rw (e, rounds)

module _ (fuel : ℕ) (flag : Bool) (x : ℕ) (rest : List ℕ) where
  rounds_one : 0 < x → x < 0x80 → rounds (suc fuel) flag (x ∷ rest) ≡ rounds fuel flag rest
  unfolding rounds round is_ansii
  rounds_one a b = ground arith

  round_two :
      0x80 ≤ x
      → x < 0x800
      → is_some x ≡ true
      → round flag (0xc0 + x / 64) (tail_byte x ∷ rest) ≡ some (true, rest)
  unfolding round sequence extras
  round_two a b c =
      let p : is_ansii (0xc0 + x / 64) ≡ false = unfold is_ansii in ground arith in
      let q : is_2byte (0xc0 + x / 64) ≡ true = unfold is_2byte in ground arith in
      let fits : leb (length ((0xc0 + x / 64) ∷ tail_byte x ∷ rest)) 1 ≡ false = ground arith in
      rw (p, q, fits, extra_tail x, c)

  round_three :
      0x1000 ≤ x
      → x < 0x10000
      → (is_some (x / 64) && is_some x) ≡ true
      → round flag (0xe0 + x / 4096) (tail_byte (x / 64) ∷ tail_byte x ∷ rest) ≡ some (true, rest)
  unfolding round sequence extras
  round_three a b c =
      let p : is_ansii (0xe0 + x / 4096) ≡ false = unfold is_ansii in ground arith in
      let q : is_2byte (0xe0 + x / 4096) ≡ false = unfold is_2byte in ground arith in
      let r : is_3byte (0xe0 + x / 4096) ≡ true = unfold is_3byte in ground arith in
      let fits : leb (length ((0xe0 + x / 4096) ∷ tail_byte (x / 64) ∷ tail_byte x ∷ rest)) 2
          ≡ false =
        ground arith in
      rw (p, q, r, fits, extra_tail x, extra_tail (x / 64), c)

  round_four :
      0x40000 ≤ x
      → x < 0x110000
      → (is_some (x / 4096) && is_some (x / 64) && is_some x) ≡ true
      → round flag
          (0xf0 + x / 262144)
          (tail_byte (x / 4096) ∷ tail_byte (x / 64) ∷ tail_byte x ∷ rest)
        ≡ some (true, rest)
  unfolding round sequence extras
  round_four a b c =
      let p : is_ansii (0xf0 + x / 262144) ≡ false = unfold is_ansii in ground arith in
      let q : is_2byte (0xf0 + x / 262144) ≡ false = unfold is_2byte in ground arith in
      let r : is_3byte (0xf0 + x / 262144) ≡ false = unfold is_3byte in ground arith in
      let t : is_4byte (0xf0 + x / 262144) ≡ true = unfold is_4byte in ground arith in
      let fits : leb
            (length (
              (0xf0 + x / 262144) ∷ tail_byte (x / 4096) ∷ tail_byte (x / 64) ∷ tail_byte x ∷ rest))
            3
          ≡ false =
        ground arith in
      rw (p, q, r, t, fits, extra_tail x, extra_tail (x / 64), extra_tail (x / 4096), c)

  -- A round takes one character.
  rounds-utf8 :
      x < 0x110000
      → is_known x ≡ true
      → rounds (suc fuel) flag (utf8 x ++ rest) ≡ rounds fuel (leb 0x80 x || flag) rest
  rounds-utf8 bound known = elim (Bool-cases (ltb x 0x80)) [
    | inl a ↦
        let e : leb 0x80 x ≡ false = ground arith in
        rw (a, e) (rounds_one (ground arith) (ground arith))
    | inr a ↦
        let e : leb 0x80 x ≡ true = ground arith in
        elim (Bool-cases (ltb x 0x800)) [
          | inl b ↦
              rw (a, b, e)
                (rounds-round fuel flag _ _
                  (round_two (ground arith) (ground arith) (ground arith)))
          | inr b ↦ elim (Bool-cases (ltb x 0x10000)) [
            | inl c ↦
                rw (a, b, c, e)
                  (rounds-round fuel flag _ _
                    (round_three (ground arith) (ground arith) (ground arith)))
            | inr c ↦
                rw (a, b, c, e)
                  (rounds-round fuel flag _ _ (round_four (ground arith) bound (ground arith)))
          ]
        ]
  ]

length-utf8 : (x : ℕ) → 1 ≤ length (utf8 x)
length-utf8 x = ground arith

or_move : (a b c : Bool) → (b || (a || c)) ≡ ((a || b) || c)
or_move a b c = ground arith

rounds-text :
    (xs : List ℕ) (fuel : ℕ) (flag : Bool)
    → AllKnown xs
    → length xs ≤ fuel
    → rounds fuel flag (text xs) ≡ (has_wide xs || flag)
unfolding rounds
rounds-text [] zero flag all le = refl
rounds-text [] (suc fuel) flag all le = refl
rounds-text (x ∷ xs) zero flag all le = absurd (omega arith)
rounds-text (x ∷ xs) (suc fuel) flag all le =
    rounds-utf8 fuel flag x (text xs) all.0.0 all.0.1
    ∙ rounds-text xs fuel (leb 0x80 x || flag) all.1 (omega arith)
    ∙ or_move (leb 0x80 x) (has_wide xs) flag

length-text : (xs : List ℕ) → length xs ≤ length (text xs)
length-text [] = omega arith
length-text (x ∷ xs) =
    omega (arith, length-append (utf8 x) (text xs), length-utf8 x, length-text xs)

-- Of the UTF-8 texts with no zero, no continuation byte 0x80 and no lead byte 0xe0 or 0xf0,
-- `isUTF8Encode` accepts those that hold a character which is not ASCII.
pub is_utf8_encode-text : (xs : List ℕ) → AllKnown xs → is_utf8_encode (text xs) ≡ has_wide xs
unfolding is_utf8_encode
is_utf8_encode-text xs all =
    rounds-text xs (length (text xs)) false all (length-text xs) ∙ ground arith

-- What the conversion of a text gives, if that of a wide character gives the buffer `gbk x`.
abbrev pub converted : (ℕ → List ℕ) → List ℕ → List ℕ
converted gbk [] = []
converted gbk (x ∷ xs) = (if ltb x 0x80 then x ∷ [] else c_text (gbk x)) ++ converted gbk xs

module _ (fuel : ℕ) (cd : Descriptor) (temp : List ℕ) where
  convert_ascii :
      (c : ℕ) (cs : List ℕ)
      → get_char (c ∷ cs) ≡ ok (some 0)
      → convert_chars (suc fuel) cd temp (c ∷ cs) ≡ convert_chars fuel cd (temp ++ (c ∷ [])) cs
  unfolding convert_chars
  convert_ascii c cs e = rw (e, convert_chars)

  convert_wide :
      (n c : ℕ) (cs : List ℕ) {bytes : List ℕ}
      → get_char (c ∷ cs) ≡ ok (some (suc n))
      → cd (take (suc n) (c ∷ cs)) ≡ some bytes
      → convert_chars (suc fuel) cd temp (c ∷ cs)
        ≡ convert_chars fuel cd (temp ++ c_text bytes) (drop (suc n) (c ∷ cs))
  unfolding convert_chars
  convert_wide n c cs e f = rw (e, f, convert_chars)

  convert-utf8 :
      (x : ℕ) (rest bytes : List ℕ)
      → x < 0x110000
      → is_known x ≡ true
      → cd (utf8 x) ≡ some bytes
      → convert_chars (suc fuel) cd temp (utf8 x ++ rest)
        ≡ convert_chars fuel cd (temp ++ (if ltb x 0x80 then x ∷ [] else c_text bytes)) rest
  convert-utf8 x rest bytes bound known conv =
      let found : get_char (utf8 x ++ rest) ≡ ok (some (width x)) =
        get_char-utf8 x rest (ground arith) bound ∙ rw known in
      elim (Bool-cases (ltb x 0x80)) [
        | inl a ↦ rw a (convert_ascii x rest (rw a at found))
        | inr a ↦ elim (Bool-cases (ltb x 0x800)) [
          | inl b ↦ rw (a, b) (convert_wide 1 _ _ (rw (a, b) at found) (rw (a, b) at conv))
          | inr b ↦ elim (Bool-cases (ltb x 0x10000)) [
            | inl c ↦
                rw (a, b, c) (convert_wide 2 _ _ (rw (a, b, c) at found) (rw (a, b, c) at conv))
            | inr c ↦
                rw (a, b, c) (convert_wide 3 _ _ (rw (a, b, c) at found) (rw (a, b, c) at conv))
          ]
        ]
      ]

module _ (cd : Descriptor) (gbk : ℕ → List ℕ)
    (converts : (x : ℕ) → cd (utf8 x) ≡ some (gbk x)) where
  convert-text :
      (xs : List ℕ) (fuel : ℕ) (temp : List ℕ)
      → AllKnown xs
      → length xs ≤ fuel
      → convert_chars fuel cd temp (text xs) ≡ ok (some (temp ++ converted gbk xs))
  unfolding convert_chars
  convert-text [] zero temp all le = rw append-nil
  convert-text [] (suc fuel) temp all le = rw append-nil
  convert-text (x ∷ xs) zero temp all le = absurd (omega arith)
  convert-text (x ∷ xs) (suc fuel) temp all le =
      let one = if ltb x 0x80 then x ∷ [] else c_text (gbk x) in
      convert-utf8 fuel cd temp x (text xs) (gbk x) all.0.0 all.0.1 (converts x)
      ∙ convert-text xs fuel (temp ++ one) all.1 (omega arith)
      ∙ ap (λ l. ok (some l)) (append_assoc temp one (converted gbk xs))

  -- `UTF82GBK` appends to `out` the conversion of a text with no zero, no continuation byte 0x80 and no
  -- lead byte 0xe0 or 0xf0: its ASCII characters as they are, and for each other one what the descriptor
  -- gives up to the first NUL, if the descriptor converts each.
  pub utf8_to_gbk-text :
      (xs out : List ℕ)
      → AllKnown xs
      → utf8_to_gbk (some cd) out (text xs) ≡ ok (true, out ++ converted gbk xs)
  unfolding utf8_to_gbk
  utf8_to_gbk-text xs out all = rw (convert-text xs (length (text xs)) [] all (length-text xs))
