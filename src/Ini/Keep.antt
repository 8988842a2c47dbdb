-- ===== src/Ini/Keep.antt =====
-- `IniConfig::keep`: what it writes.
pub mod Writer
pub mod Saved
pub mod Entering
pub mod Values
pub mod RoundTrip
use alias.Prelude.{ℕ, ◌-◌, ◌==◌, if◌then◌else◌, [], ◌∷◌, ◌++◌, length, take}
use alias.Ini.Map.{Text, Dict, Entry}
use alias.Ini.{IniConfig, newline, space, equals, open_bracket, close_bracket, c_string}

-- A line that `keep` prints into its 512 bytes.
pub print_pair : Entry Text → Text
print_pair e = take 511 (c_string e.key ++ space ∷ equals ∷ space ∷ c_string e.val ++ newline ∷ [])

pub print_name : Text → Text
print_name name = take 511 (open_bracket ∷ c_string name ++ close_bracket ∷ newline ∷ [])

pub print_pairs : Dict Text → Text
print_pairs [] = []
print_pairs (e ∷ es) = print_pair e ++ print_pairs es

-- The streams for the global section and for the others.
pub print_global : Dict (Dict Text) → Text
print_global [] = []
print_global (e ∷ es) =
    let rest = print_global es in
    if length e.key == 0 then print_pairs e.val ++ newline ∷ rest else rest

pub print_nodes : Dict (Dict Text) → Text
print_nodes [] = []
print_nodes (e ∷ es) =
    let rest = print_nodes es in
    if length e.key == 0 then rest else print_name e.key ++ print_pairs e.val ++ newline ∷ rest

-- `keep`: the name of the file and what is written, if it can be opened. What is returned after a
-- write is left open by the source.
pub keep : Text → IniConfig → Text × Text
keep file c =
    let nodes = print_nodes c.source_map in
    (
      if length file == 0 then c.path else file,
      print_global c.source_map ++ take (length nodes - 1) nodes,
    )
