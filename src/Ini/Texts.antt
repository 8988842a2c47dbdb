-- ===== src/Ini/Texts.antt =====
-- The helpers of the reader on texts that have, or have not, what they look for.
use alias.Prelude.{
  ℕ, zero, suc, ◌==◌, ◌≤◌, ◌<◌, leb, ◌≡◌, refl, sym, ap, ◌∙◌, Bool, true, false, [], ◌∷◌, ◌++◌,
  none, some, length, All, arith, Bool-cases, inl, inr, length-append,
}
use alias.Ini.Map.{Text}
use alias.Ini.{
  newline, is_blank, all_of, all_word, c_string, split_on, drop_blanks, drop_end_blanks, trim,
  get_line, hide_comment,
}

abbrev pub Lacks : ℕ → Text → Type 0
Lacks b xs = All (λ c. (c == b) ≡ false) xs

pub all_of-Lacks :
    (test : ℕ → Bool) (b : ℕ) (xs : Text) → test b ≡ false → all_of test xs ≡ true → Lacks b xs
all_of-Lacks test b [] refused all = tt
all_of-Lacks test b (x ∷ xs) refused all =
    let here : test x ≡ true = ground arith in
    let rest : all_of test xs ≡ true = ground arith in
    let differs : (x == b) ≡ false = elim (Bool-cases (x == b)) [
      | inr e ↦ e
      | inl e ↦ let same : x ≡ b = ground arith in absurd (cc (sym here ∙ ap test same ∙ refused))
    ] in
    (differs, all_of-Lacks test b xs refused rest)

pub c_string_lem : (xs : Text) → Lacks 0 xs → c_string xs ≡ xs
unfolding c_string
c_string_lem [] lacks = refl
c_string_lem (x ∷ xs) lacks = rw (lacks.0, c_string_lem xs lacks.1)

pub hide_comment_lem : (xs : Text) → Lacks 59 xs → hide_comment xs ≡ xs
unfolding hide_comment
hide_comment_lem [] lacks = refl
hide_comment_lem (x ∷ xs) lacks = rw (lacks.0, hide_comment_lem xs lacks.1)

pub split_on_first : (b : ℕ) (xs ys : Text) → Lacks b xs → split_on b (xs ++ b ∷ ys) ≡ some (xs, ys)
unfolding split_on
split_on_first b [] ys lacks = let here : (b == b) ≡ true = ground arith in rw here
split_on_first b (x ∷ xs) ys lacks = rw (lacks.0, split_on_first b xs ys lacks.1)

pub split_on-none : (b : ℕ) (xs : Text) → Lacks b xs → split_on b xs ≡ none
unfolding split_on
split_on-none b [] lacks = refl
split_on-none b (x ∷ xs) lacks = rw (lacks.0, split_on-none b xs lacks.1)

pub get_line_lem :
    (n : ℕ) (xs ys : Text)
    → Lacks newline xs
    → length xs < n
    → get_line n (xs ++ newline ∷ ys) ≡ (xs ++ newline ∷ [], ys)
unfolding get_line
get_line_lem zero xs ys lacks lt = absurd (omega arith)
get_line_lem (suc n) [] ys lacks lt = refl
get_line_lem (suc n) (x ∷ xs) ys lacks lt = rw (lacks.0, get_line_lem n xs ys lacks.1 (omega arith))

-- Whether a text starts with a blank, or not at all.
abbrev pub starts_blank : Text → Bool
starts_blank [] = true
starts_blank (c ∷ cs) = is_blank c

-- A text with no blanks at its ends.
abbrev pub IsTrimmed : Text → Type 0
IsTrimmed xs = (starts_blank xs ≡ false) × (drop_end_blanks xs ≡ xs)

drop_blanks_lem : (xs ys : Text) → starts_blank xs ≡ false → drop_blanks (xs ++ ys) ≡ xs ++ ys
unfolding drop_blanks
drop_blanks_lem [] ys e = cc
drop_blanks_lem (x ∷ xs) ys e = rw e

drop_blanks_self : (xs : Text) → starts_blank xs ≡ false → drop_blanks xs ≡ xs
unfolding drop_blanks
drop_blanks_self [] e = cc
drop_blanks_self (x ∷ xs) e = rw e

drop_end_blanks-newline : (xs : Text) → drop_end_blanks (xs ++ newline ∷ []) ≡ drop_end_blanks xs
unfolding drop_end_blanks
drop_end_blanks-newline [] = refl
drop_end_blanks-newline (x ∷ xs) = rw (drop_end_blanks-newline xs)

pub drop_end_blanks-append :
    (xs ys : Text) → 1 ≤ length ys → drop_end_blanks ys ≡ ys → drop_end_blanks (xs ++ ys) ≡ xs ++ ys
unfolding drop_end_blanks
drop_end_blanks-append [] ys pos e = e
drop_end_blanks-append (x ∷ xs) ys pos e =
    let some_left : (length (xs ++ ys) == 0) ≡ false = ground (arith, length-append xs ys) in
    rw (drop_end_blanks-append xs ys pos e, some_left) (ground arith)

-- With the end of its line.
pub trim-line : (xs : Text) → IsTrimmed xs → 2 ≤ length xs → trim (xs ++ newline ∷ []) ≡ (true, xs)
unfolding trim
trim-line xs t long =
    let more : leb (length xs) 1 ≡ false = ground arith in
    rw (drop_blanks_lem xs (newline ∷ []) t.0, drop_end_blanks-newline xs, t.1, more)

pub trim_self : (xs : Text) → IsTrimmed xs → (trim xs).1 ≡ xs
unfolding trim
trim_self xs t =
    rw (drop_blanks_self xs t.0, t.1)
      (elim (Bool-cases (leb (length xs) 1)) [ inl e ↦ rw e | inr e ↦ rw e ])

-- Behind a blank.
pub trim-blank : (xs : Text) → IsTrimmed xs → 2 ≤ length xs → (trim (32 ∷ xs)).1 ≡ xs
unfolding trim drop_blanks
trim-blank xs t long =
    let more : leb (length xs) 1 ≡ false = ground arith in rw (drop_blanks_self xs t.0, t.1, more)

drop_end_blanks-word : (xs : Text) → all_word xs ≡ true → drop_end_blanks xs ≡ xs
unfolding drop_end_blanks
drop_end_blanks-word [] w = refl
drop_end_blanks-word (x ∷ xs) w =
    let rest : all_word xs ≡ true = ground arith in
    let here : is_blank x ≡ false = ground arith in rw (drop_end_blanks-word xs rest, here)

pub IsTrimmed-word : (xs : Text) → all_word xs ≡ true → 1 ≤ length xs → IsTrimmed xs
IsTrimmed-word [] w pos = absurd (omega arith)
IsTrimmed-word (x ∷ xs) w pos = (ground arith, drop_end_blanks-word (x ∷ xs) w)
