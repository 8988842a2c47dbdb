-- ===== src/Ini/Tests.antt =====
-- Files of a few lines.
use alias.Prelude.{◌≡◌, refl, true, List, [], ◌∷◌, some, All, arith}
use alias.Outcome.{Outcome, ok, throws}
use alias.Ini.Map.{Text, find, put, add}
use alias.Ini.{
  IniConfig, assignment, c_string, split_on, drop_blanks, drop_end_blanks, trim, hide_comment,
  starts_with, section_name, read_pair, read_item, read_line, full_key, enter, next_name, obey,
  reset, parser, value, split_key,
}
use alias.Ini.Keep.{keep}
use alias.Ini.Lines.{Item, blank_line, comment, name_line, pair_line, IsFit}
use alias.Ini.Keep.Writer.{FitsSection}
use alias.Ini.Reader.{AllFit, all_meanings}
use alias.Ini.Access.{source_value}
use alias.Ini.Keep.RoundTrip.{parser-keep}

-- "net", "host", "port", "ab" and "80"
abbrev net : Text
net = 110 ∷ 101 ∷ 116 ∷ []

abbrev host : Text
host = 104 ∷ 111 ∷ 115 ∷ 116 ∷ []

abbrev port : Text
port = 112 ∷ 111 ∷ 114 ∷ 116 ∷ []

abbrev ab : Text
ab = 97 ∷ 98 ∷ []

abbrev eighty : Text
eighty = 56 ∷ 48 ∷ []

abbrev net_host : Text
net_host = 110 ∷ 101 ∷ 116 ∷ 46 ∷ 104 ∷ 111 ∷ 115 ∷ 116 ∷ []

abbrev lines : List Item
lines = comment ab ∷ pair_line port eighty ∷ blank_line ∷ name_line net ∷ pair_line host ab ∷ []

abbrev config : IniConfig
config = record {
  path = [];
  config_map = record { key = net_host; val = ab } ∷ record { key = port; val = eighty } ∷ [];
  source_map =
      record { key = []; val = record { key = port; val = eighty } ∷ [] }
      ∷ record { key = net; val = record { key = host; val = ab } ∷ [] }
      ∷ [];
}

ab_end : drop_end_blanks ab ≡ ab
unfolding drop_end_blanks
ab_end = refl

eighty_end : drop_end_blanks eighty ≡ eighty
unfolding drop_end_blanks
eighty_end = refl

port-IsFit : IsFit (pair_line port eighty)
port-IsFit = ((refl, omega arith), (refl, (refl, eighty_end), omega arith), omega arith)

host-IsFit : IsFit (pair_line host ab)
host-IsFit = ((refl, omega arith), (refl, (refl, ab_end), omega arith), omega arith)

lines_fit : AllFit lines
lines_fit =
    ((refl, omega arith), (port-IsFit, (tt, ((refl, omega arith, omega arith), (host-IsFit, tt)))))

config_fits : All FitsSection config.source_map
config_fits = (
  (refl, omega arith, ((port-IsFit, omega arith), tt)),
  ((refl, omega arith, ((host-IsFit, omega arith), tt)), tt),
)

all_meanings_test : all_meanings lines [] reset ≡ config
unfolding next_name obey enter full_key put add find
all_meanings_test = refl

parser-keep_example :
    (after : IniConfig) × (parser [] (some (keep [] config).1) reset ≡ some (after, ok true))
    × (value (full_key net host) after ≡ ab)
    × ((q : Text × Text) → source_value q after ≡ source_value q config)
unfolding find
parser-keep_example =
    parser-keep [] [] config reset net host refl refl config_fits ((tt, tt), ((tt, tt), tt))
      ((refl, tt), (tt, tt))

-- A value of one byte keeps the blank before it: "ab = 8".
read_line_test :
    read_line (97 ∷ 98 ∷ 32 ∷ 61 ∷ 32 ∷ 56 ∷ 10 ∷ []) ≡ ok (assignment ab (32 ∷ 56 ∷ []))
unfolding read_line c_string starts_with hide_comment trim drop_blanks drop_end_blanks read_item
    section_name split_on read_pair
read_line_test = refl

-- A comment behind a blank is no comment: " ;ab".
read_line_test2 : read_line (32 ∷ 59 ∷ 97 ∷ 98 ∷ 10 ∷ []) ≡ throws
unfolding read_line c_string starts_with hide_comment trim drop_blanks drop_end_blanks read_item
    section_name split_on read_pair
read_line_test2 = refl

-- What is written to the map of "ne" is not in that of "net".
split_key_test : split_key net_host ≡ ok (110 ∷ 101 ∷ [], host)
unfolding split_key split_on c_string
split_key_test = refl
