-- ===== src/Ini.antt =====
-- config/IniConfig.cpp, `IniConfig`: the reader of a file of sections, keys and values, the access to
-- them, and the writer. Texts are lists of bytes, and a file is the text that it holds.
pub mod Map
pub mod Texts
pub mod Lines
pub mod Reader
pub mod Fuel
pub mod Access
pub mod Keep
mod Tests
use alias.Prelude.{
  ℕ, zero, suc, ◌+◌, ◌-◌, ◌==◌, leb, ltb, if◌then◌else◌, Bool, true, false, not, ◌&&◌, ◌||◌, List,
  [], ◌∷◌, ◌++◌, Option, none, some, length, take, drop,
}
use alias.Outcome.{Outcome, ok, throws, crash, ◌>>=◌}
use alias.Ini.Map.{Text, Dict, Entry, same_text, find, put, add, erase, get_or_new}

-- `mConfigFilePath`, `mConfigMap` and `mSourceMap`
pub record IniConfig : Type 0 where
  pub path : Text
  pub config_map : Dict Text
  pub source_map : Dict (Dict Text)

-- The bytes ';', '[', ']', '=' and '.', and the end of a line.
abbrev pub semicolon : ℕ
semicolon = 59

abbrev pub open_bracket : ℕ
open_bracket = 91

abbrev pub close_bracket : ℕ
close_bracket = 93

abbrev pub equals : ℕ
equals = 61

abbrev pub dot : ℕ
dot = 46

abbrev pub newline : ℕ
newline = 10

abbrev pub space : ℕ
space = 32

-- " \t\r\n"
abbrev pub is_blank : ℕ → Bool
is_blank c = c == space || (c == 9 || (c == 13 || c == newline))

-- `escapeString`
abbrev pub is_word : ℕ → Bool
is_word c =
    (leb 97 c && leb c 122) || ((leb 65 c && leb c 90) || ((leb 48 c && leb c 57) || c == 95))

-- `find_first_not_of` finds nothing.
abbrev pub all_of : (ℕ → Bool) → Text → Bool
all_of test [] = true
all_of test (c ∷ cs) = test c && all_of test cs

abbrev pub all_word : Text → Bool
all_word cs = all_of is_word cs

-- The text of a string that ends at its first zero.
pub c_string : Text → Text
c_string [] = []
c_string (c ∷ cs) = let rest = c_string cs in if c == 0 then [] else c ∷ rest

-- `strchr` or `find` of a byte: the text before it and the text behind it.
pub split_on : ℕ → Text → Option (Text × Text)
split_on b [] = none
split_on b (c ∷ cs) =
    let rest = split_on b cs in
    if c == b then some ([], cs) else elim rest [ none ↦ none | some r ↦ some (c ∷ r.0, r.1) ]

-- `trim`. It takes a text with one other byte than blanks for one with none.
pub drop_blanks : Text → Text
drop_blanks [] = []
drop_blanks (c ∷ cs) = let rest = drop_blanks cs in if is_blank c then rest else c ∷ cs

pub drop_end_blanks : Text → Text
drop_end_blanks [] = []
drop_end_blanks (c ∷ cs) =
    let rest = drop_end_blanks cs in if is_blank c && length rest == 0 then [] else c ∷ rest

pub trim : Text → Bool × Text
trim str =
    let core = drop_end_blanks (drop_blanks str) in
    if leb (length core) 1 then (false, str) else (true, core)

-- `fgets` with room for `n` bytes: the line and the rest of the file.
pub get_line : ℕ → Text → Text × Text
get_line zero file = ([], file)
get_line (suc n) [] = ([], [])
get_line (suc n) (c ∷ cs) =
    let rest = get_line n cs in if c == newline then (c ∷ [], cs) else (c ∷ rest.0, rest.1)

-- `line[index] = '\0'` at a semicolon.
pub hide_comment : Text → Text
hide_comment [] = []
hide_comment (c ∷ cs) = let rest = hide_comment cs in if c == semicolon then 0 ∷ cs else c ∷ rest

pub starts_with : ℕ → Text → Bool
starts_with b [] = false
starts_with b (c ∷ cs) = c == b

-- What a line is.
pub data Line : Type 0 where
  skip : Line
  section : Text → Line
  assignment : Text → Text → Line

-- The text between '[' and the first ']', if that comes later.
pub section_name : Text → Option Text
section_name pos = elim (split_on open_bracket pos) [
  | none ↦ none
  | some l ↦ elim (split_on close_bracket pos) [
    | none ↦ none
    | some r ↦ if ltb (length l.0) (length r.0) then some (drop (length l.0 + 1) r.0) else none
  ]
]

-- The key ends one byte before the '='. Before the first byte there is none, and the range is no range.
pub read_pair : Text → Outcome Line
read_pair pos = elim (split_on equals pos) [
  | none ↦ throws
  | some r ↦
      if length r.0 == 0
      then crash
      else let key = (trim (take (length r.0 - 1) r.0)).1 in
        let val = (trim r.1).1 in if all_word key then ok (assignment key val) else throws
]

pub read_item : Text → Outcome Line
read_item pos = elim (section_name pos) [
  | some between ↦
      let name = (trim between).1 in if all_word name then ok (section name) else throws
  | none ↦ read_pair pos
]

-- The body of the loop of `parser`, up to the changes of the maps.
pub read_line : Text → Outcome Line
read_line buf =
    let line = c_string buf in
    if starts_with semicolon line
    then ok skip
    else let trimmed = trim (hide_comment line) in
      if trimmed.0 then read_item (c_string trimmed.1) else ok skip

-- `nodeName + "." + key`, and only the key in the global section, whose name is empty.
pub full_key : Text → Text → Text
full_key name key = if length name == 0 then key else name ++ dot ∷ key

pub enter : Text → Text → Text → IniConfig → IniConfig
enter name key val c = record c {
  config_map = put (full_key name key) val c.config_map;
  source_map = put name (add key val (get_or_new name [] c.source_map)) c.source_map;
}

-- The section that a line leads to, and its change.
pub next_name : Line → Text → Text
next_name (section name) node = name
next_name skip node = node
next_name (assignment key val) node = node

pub obey : Line → Text → IniConfig → IniConfig
obey (assignment key val) node c = enter node key val c
obey skip node c = c
obey (section name) node c = c

-- `sizeof(buf) - 1`
abbrev pub line_room : ℕ
line_room = 1023

-- The loop of `parser`: what it leaves, and whether it returns; none where the fuel runs out.
pub parse_from : ℕ → Text → IniConfig → Text → Option (IniConfig × Outcome Bool)
parse_from fuel node c [] = some (c, ok true)
parse_from zero node c (b ∷ bs) = none
parse_from (suc fuel) node c (b ∷ bs) =
    let line = get_line line_room (b ∷ bs) in
    elim (read_line line.0) [
      | ok l ↦ parse_from fuel (next_name l node) (obey l node c) line.1
      | throws ↦ some (c, throws)
      | crash ↦ some (c, crash)
    ]

-- `reset`
abbrev pub reset : IniConfig
reset = record { path = []; config_map = []; source_map = [] }

-- `parser`, with what the file of that name holds, if it can be opened
pub parser : Text → Option Text → IniConfig → Option (IniConfig × Outcome Bool)
parser path none c = some (record reset { path = path }, ok false)
parser path (some file) c = parse_from (length file) [] (record reset { path = path }) file

-- `value`
pub value : Text → IniConfig → Text
value key c = elim (find key c.config_map) [ none ↦ [] | some v ↦ v ]

-- The section and the key of a key with a '.', where the section's name lacks its last byte. A name
-- with -1 bytes is refused.
pub split_key : Text → Outcome (Text × Text)
split_key key = elim (split_on dot key) [
  | none ↦ ok ([], key)
  | some r ↦ if length r.0 == 0 then throws else ok (take (length r.0 - 1) r.0, c_string r.1)
]

-- `operator[]`, whose result is written to: `config[key] = val`.
pub set_at : Text → Text → IniConfig → Outcome IniConfig
set_at key val c = split_key key >>= (λ r. ok (record c {
  source_map = put (r.0) (put (r.1) val (get_or_new (r.0) [] c.source_map)) c.source_map;
}))

-- `del`, which returns true. The key is gone from the first map also where the name is refused.
pub erase_source : Text × Text → IniConfig → IniConfig
erase_source r c = elim (find (r.0) c.source_map) [
  | none ↦ c
  | some m ↦ record c { source_map = put (r.0) (erase (r.1) m) c.source_map }
]

pub del : Text → IniConfig → IniConfig × Outcome Bool
del key c = elim (find key c.config_map) [
  | none ↦ (c, ok true)
  | some v ↦
      let c' = record c { config_map = erase key c.config_map } in
      elim (split_key key) [
        | ok r ↦ (erase_source r c', ok true)
        | throws ↦ (c', throws)
        | crash ↦ (c', crash)
      ]
]
