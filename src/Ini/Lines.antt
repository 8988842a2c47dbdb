-- ===== src/Ini/Lines.antt =====
-- What the reader makes of a line.
use alias.Prelude.{
  ℕ, suc, ◌+◌, ◌-◌, ◌==◌, ◌≤◌, ◌<◌, ltb, ◌≡◌, refl, sym, ap, ◌∙◌, Bool, true, false, not, ◌&&◌, [],
  ◌∷◌, ◌++◌, none, some, length, take, arith, length-append, take-append_eq, All-append,
  append_assoc,
}
use alias.Outcome.{ok}
use alias.Ini.Map.{Text}
use alias.Ini.{
  Line, skip, section, assignment, equals, newline, open_bracket, close_bracket, semicolon, space,
  line_room, is_word, all_of, all_word, c_string, split_on, trim, hide_comment, starts_with,
  drop_blanks, drop_end_blanks, section_name, read_pair, read_item, read_line,
}
use alias.Ini.Texts.{
  Lacks, all_of-Lacks, c_string_lem, hide_comment_lem, split_on_first, split_on-none, IsTrimmed,
  starts_blank, drop_end_blanks-append, trim-line, trim_self, trim-blank, IsTrimmed-word,
}

-- A line of a file, and how it is written.
pub data Item : Type 0 where
  blank_line : Item
  comment name_line : Text → Item
  pair_line : Text → Text → Item

abbrev pub written : Item → Text
written blank_line = []
written (comment t) = semicolon ∷ t
written (name_line n) = open_bracket ∷ n ++ close_bracket ∷ []
written (pair_line k v) = k ++ space ∷ equals ∷ space ∷ v

abbrev pub meaning : Item → Line
meaning blank_line = skip
meaning (comment t) = skip
meaning (name_line n) = section n
meaning (pair_line k v) = assignment k v

-- The bytes of a value.
abbrev pub is_plain : ℕ → Bool
is_plain c =
    not (c == 0) && (not (c == newline) && (not (c == semicolon) && not (c == open_bracket)))

-- Names are words. A value has two bytes or more and no blanks at its ends. A line has room for its
-- end and a zero in 1024 bytes.
abbrev pub IsFit : Item → Type 0
IsFit blank_line = Unit
IsFit (comment t) = (all_of (λ c. not (c == newline)) t ≡ true) × (length t + 1 < line_room)
IsFit (name_line n) = (all_word n ≡ true) × (1 ≤ length n) × (length n + 2 < line_room)
IsFit (pair_line k v) =
    ((all_word k ≡ true) × (1 ≤ length k))
    × ((all_of is_plain v ≡ true) × IsTrimmed v × (2 ≤ length v))
    × (length k + length v + 3 < line_room)

-- A line with no comment, which is not blank.
read_line-item :
    (xs : Text)
    → Lacks 0 xs
    → Lacks semicolon xs
    → IsTrimmed xs
    → 2 ≤ length xs
    → read_line (xs ++ newline ∷ []) ≡ read_item xs
unfolding read_line starts_with
read_line-item [] zero_free comment_free trimmed long = absurd (omega arith)
read_line-item (x ∷ xs) zero_free comment_free trimmed long =
    let text = x ∷ xs in
    let whole : c_string (text ++ newline ∷ []) ≡ text ++ newline ∷ [] =
      c_string_lem (text ++ newline ∷ [])
        (All-append (λ c. (c == 0) ≡ false) text (newline ∷ []) zero_free (refl, tt)) in
    let open_text : hide_comment (text ++ newline ∷ []) ≡ text ++ newline ∷ [] =
      hide_comment_lem (text ++ newline ∷ [])
        (All-append (λ c. (c == semicolon) ≡ false) text (newline ∷ []) comment_free (refl, tt)) in
    rw (whole, comment_free.0, open_text, trim-line text trimmed long, c_string_lem text zero_free)

module _ (n : Text) (word : all_word n ≡ true) (pos : 1 ≤ length n) where
  word_Lacks : (b : ℕ) → is_word b ≡ false → Lacks b n
  word_Lacks b refused = all_of-Lacks is_word b n refused word

  in_brackets_Lacks :
      (b : ℕ)
      → is_word b ≡ false
      → (open_bracket == b) ≡ false
      → (close_bracket == b) ≡ false
      → Lacks b (written (name_line n))
  in_brackets_Lacks b refused l r =
      (l, All-append (λ c. (c == b) ≡ false) n (close_bracket ∷ []) (word_Lacks b refused) (r, tt))

  section_name_lem : section_name (written (name_line n)) ≡ some n
  unfolding section_name
  section_name_lem =
      let opened : split_on open_bracket (written (name_line n))
          ≡ some ([], n ++ close_bracket ∷ []) =
        split_on_first open_bracket [] (n ++ close_bracket ∷ []) tt in
      let closed : split_on close_bracket (written (name_line n)) ≡ some (open_bracket ∷ n, []) =
        split_on_first close_bracket (open_bracket ∷ n) [] (refl, word_Lacks close_bracket refl) in
      let later : ltb 0 (suc (length n)) ≡ true = ground arith in
      rw (opened, closed, later, section_name)

  read_item-name : read_item (written (name_line n)) ≡ ok (section n)
  unfolding read_item
  read_item-name = rw (section_name_lem, trim_self n (IsTrimmed-word n word pos), word, read_item)

  read_line-name : read_line (written (name_line n) ++ newline ∷ []) ≡ ok (section n)
  unfolding drop_end_blanks
  read_line-name =
      read_line-item (written (name_line n)) (in_brackets_Lacks 0 refl refl refl)
        (in_brackets_Lacks semicolon refl refl refl)
        (refl, drop_end_blanks-append (open_bracket ∷ n) (close_bracket ∷ []) (omega arith) refl)
        (omega (arith, length-append n (close_bracket ∷ [])))
      ∙ read_item-name

module _ (k v : Text) (gap : ℕ) (word : all_word k ≡ true) (pos : 1 ≤ length k)
    (ok_gap : is_plain gap ≡ true) (apart : (gap == equals) ≡ false)
    (plain : all_of is_plain v ≡ true) (ends : drop_end_blanks v ≡ v) (long : 1 ≤ length v) where
  gap_Lacks :
      (b : ℕ)
      → is_word b ≡ false
      → is_plain b ≡ false
      → (equals == b) ≡ false
      → Lacks b (k ++ gap ∷ equals ∷ v)
  gap_Lacks b refused rough e =
      let differs : (gap == b) ≡ false =
        (all_of-Lacks is_plain b (gap ∷ []) rough (ground arith)).0 in
      All-append (λ c. (c == b) ≡ false) k (gap ∷ equals ∷ v) (word_Lacks k word pos b refused)
        (differs, (e, all_of-Lacks is_plain b v rough plain))

  split_on-gap : split_on equals (k ++ gap ∷ equals ∷ v) ≡ some (k ++ gap ∷ [], v)
  split_on-gap =
      ap (split_on equals) (sym (append_assoc k (gap ∷ []) (equals ∷ v)))
      ∙ split_on_first equals (k ++ gap ∷ []) v (
          All-append (λ c. (c == equals) ≡ false) k (gap ∷ []) (word_Lacks k word pos equals refl)
            (apart, tt))

  read_pair-gap : read_pair (k ++ gap ∷ equals ∷ v) ≡ ok (assignment k (trim v).1)
  unfolding read_pair
  read_pair-gap =
      let len : length (k ++ gap ∷ []) ≡ length k + 1 = length-append k (gap ∷ []) in
      let some_key : (length k + 1 == 0) ≡ false = ground arith in
      let back : length k + 1 - 1 ≡ length k = omega arith in
      let key : take (length k) (k ++ gap ∷ []) ≡ k = take-append_eq (length k) k (gap ∷ []) refl in
      rw (
        split_on-gap,
        len,
        some_key,
        back,
        key,
        trim_self k (IsTrimmed-word k word pos),
        word,
        read_pair,
      )

  read_item-gap : read_item (k ++ gap ∷ equals ∷ v) ≡ ok (assignment k (trim v).1)
  unfolding read_item section_name
  read_item-gap =
      let bare : split_on open_bracket (k ++ gap ∷ equals ∷ v) ≡ none =
        split_on-none open_bracket (k ++ gap ∷ equals ∷ v)
          (gap_Lacks open_bracket refl refl refl) in
      rw (bare, read_item) read_pair-gap

  drop_end_blanks-gap : drop_end_blanks (k ++ gap ∷ equals ∷ v) ≡ k ++ gap ∷ equals ∷ v
  drop_end_blanks-gap =
      let front = k ++ gap ∷ equals ∷ [] in
      let parts : front ++ v ≡ k ++ gap ∷ equals ∷ v = append_assoc k (gap ∷ equals ∷ []) v in
      ap drop_end_blanks (sym parts) ∙ drop_end_blanks-append front v long ends ∙ parts

  starts :
      (k : Text) → all_word k ≡ true → 1 ≤ length k → starts_blank (k ++ gap ∷ equals ∷ v) ≡ false
  starts [] w p = absurd (omega arith)
  starts (c ∷ k) w p = (IsTrimmed-word (c ∷ k) w p).0

  -- Of a line with a word, one more byte, '=' and a value, `parser` makes the word and the trimmed
  -- value: the byte before the '=' is lost, whether it is a blank or the last byte of the key.
  pub read_line-gap :
      read_line ((k ++ gap ∷ equals ∷ v) ++ newline ∷ []) ≡ ok (assignment k (trim v).1)
  read_line-gap =
      read_line-item (k ++ gap ∷ equals ∷ v) (gap_Lacks 0 refl refl refl)
        (gap_Lacks semicolon refl refl refl) (starts k word pos, drop_end_blanks-gap)
        (omega (arith, length-append k (gap ∷ equals ∷ v)))
      ∙ read_item-gap

module _ (k v : Text) (word : all_word k ≡ true) (pos : 1 ≤ length k)
    (plain : all_of is_plain v ≡ true) (trimmed : IsTrimmed v) (long : 2 ≤ length v) where
  value_end : drop_end_blanks (space ∷ v) ≡ space ∷ v
  value_end = drop_end_blanks-append (space ∷ []) v (omega arith) trimmed.1

  pair_Lacks : Lacks newline (written (pair_line k v))
  pair_Lacks =
      gap_Lacks k (space ∷ v) space word pos refl refl plain value_end (omega arith) newline refl
        refl refl

  read_line-pair : read_line (written (pair_line k v) ++ newline ∷ []) ≡ ok (assignment k v)
  read_line-pair =
      read_line-gap k (space ∷ v) space word pos refl refl plain value_end (omega arith)
      ∙ ap (λ t. ok (assignment k t)) (trim-blank v trimmed long)

read_line-blank : read_line (newline ∷ []) ≡ ok skip
unfolding read_line starts_with c_string trim hide_comment drop_blanks drop_end_blanks
read_line-blank = refl

read_line-comment : (t : Text) → read_line (semicolon ∷ t) ≡ ok skip
unfolding read_line starts_with c_string
read_line-comment t = refl

pub read_line-written :
    (item : Item) → IsFit item → read_line (written item ++ newline ∷ []) ≡ ok (meaning item)
read_line-written blank_line fit = read_line-blank
read_line-written (comment t) fit = read_line-comment (t ++ newline ∷ [])
read_line-written (name_line n) fit = read_line-name n fit.0 fit.1
read_line-written (pair_line k v) fit = read_line-pair k v fit.0.0 fit.0.1 fit.1.0 fit.1.1 fit.1.2

pub one_line : (item : Item) → IsFit item → Lacks newline (written item)
one_line blank_line fit = tt
one_line (comment t) fit = (refl, all_of-Lacks (λ c. not (c == newline)) newline t refl fit.0)
one_line (name_line n) fit = in_brackets_Lacks n fit.0 fit.1 newline refl refl refl
one_line (pair_line k v) fit = pair_Lacks k v fit.0.0 fit.0.1 fit.1.0 fit.1.1 fit.1.2

pub short_line : (item : Item) → IsFit item → length (written item) < line_room
short_line blank_line fit = omega arith
short_line (comment t) fit = omega arith
short_line (name_line n) fit = omega (arith, length-append n (close_bracket ∷ []))
short_line (pair_line k v) fit = omega (arith, length-append k (space ∷ equals ∷ space ∷ v))
