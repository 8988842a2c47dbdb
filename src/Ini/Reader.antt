-- ===== src/Ini/Reader.antt =====
-- What the reader makes of the lines of a well-formed file.
use alias.Prelude.{
  ℕ, zero, suc, ◌≤◌, ◌<◌, ◌≡◌, refl, ◌∙◌, true, List, [], ◌∷◌, ◌++◌, some, length, All, arith,
  length-append,
}
use alias.Outcome.{ok}
use alias.Ini.Map.{Text}
use alias.Ini.{
  IniConfig, Line, newline, line_room, read_line, next_name, obey, parse_from, parser, reset,
}
use alias.Ini.Texts.{Lacks, get_line_lem}
use alias.Ini.Lines.{Item, written, meaning, IsFit, read_line-written, one_line, short_line}

-- A round of the loop.
parse_from_line :
    (xs : Text) (fuel : ℕ) (node : Text) (c : IniConfig) (rest : Text) {l : Line}
    → Lacks newline xs
    → length xs < line_room
    → read_line (xs ++ newline ∷ []) ≡ ok l
    → parse_from (suc fuel) node c (xs ++ newline ∷ rest)
      ≡ parse_from fuel (next_name l node) (obey l node c) rest
unfolding parse_from
parse_from_line [] fuel node c rest lacks short read =
    let line = get_line_lem line_room [] rest lacks short in rw (line, read, parse_from) (rw line)
parse_from_line (x ∷ xs) fuel node c rest lacks short read =
    let line = get_line_lem line_room (x ∷ xs) rest lacks short in
    rw (line, read, parse_from) (rw line)

-- The text of a file, and what it does: from line to line the section it is in, and the configuration.
abbrev pub file_text : List Item → Text
file_text [] = []
file_text (item ∷ items) = written item ++ newline ∷ file_text items

abbrev pub all_meanings : List Item → Text → IniConfig → IniConfig
all_meanings [] node c = c
all_meanings (item ∷ items) node c =
    all_meanings items (next_name (meaning item) node) (obey (meaning item) node c)

abbrev pub AllFit : List Item → Type 0
AllFit items = All IsFit items

parse_from-written :
    (items : List Item) (fuel : ℕ) (node : Text) (c : IniConfig)
    → AllFit items
    → length (file_text items) ≤ fuel
    → parse_from fuel node c (file_text items) ≡ some (all_meanings items node c, ok true)
unfolding parse_from
parse_from-written [] zero node c fit enough = refl
parse_from-written [] (suc fuel) node c fit enough = refl
parse_from-written (item ∷ items) zero node c fit enough =
    absurd (omega (arith, length-append (written item) (newline ∷ file_text items)))
parse_from-written (item ∷ items) (suc fuel) node c fit enough =
    let more : length (file_text items) ≤ fuel =
      omega (arith, length-append (written item) (newline ∷ file_text items)) in
    parse_from_line (written item) fuel node c (file_text items) {l = meaning item}
      (one_line item fit.0) (short_line item fit.0) (read_line-written item fit.0)
    ∙ parse_from-written items fuel (next_name (meaning item) node) (obey (meaning item) node c)
        fit.1 more

-- `parser` of a file with lines that fit returns true, and leaves the configuration that the lines
-- make, one after the other: a section's name counts until the next one, a pair is entered under the
-- section it is in, comments and blank lines change nothing. What was there before is gone.
pub parser-written :
    (path : Text) (items : List Item) (c : IniConfig)
    → AllFit items
    → parser path (some (file_text items)) c
      ≡ some (all_meanings items [] (record reset { path = path }), ok true)
unfolding parser
parser-written path items c fit =
    parse_from-written items (length (file_text items)) [] (record reset { path = path }) fit
      (omega arith)
