-- ===== src/Ini/Keep/Writer.antt =====
-- What `keep` writes, as the lines of a file.
use alias.Prelude.{
  ◌+◌, ◌==◌, ◌≤◌, if◌then◌else◌, ◌≡◌, refl, sym, ap, ◌∙◌, true, List, [], ◌∷◌, ◌++◌, length,
  take_all, All, arith, Bool-cases, inl, inr, length-append, append_assoc,
}
use alias.Ini.Map.{Text, Dict, Entry}
use alias.Ini.{newline, space, equals, open_bracket, close_bracket, all_word, is_word, c_string}
use alias.Ini.Keep.{print_pair, print_name, print_pairs, print_global, print_nodes}
use alias.Ini.Texts.{all_of-Lacks, c_string_lem}
use alias.Ini.Lines.{Item, blank_line, name_line, pair_line, written, is_plain, IsFit}
use alias.Ini.Reader.{file_text}

abbrev pub pair_items : Dict Text → List Item
pair_items [] = []
pair_items (e ∷ es) = pair_line e.key e.val ∷ pair_items es

abbrev pub global_items : Dict (Dict Text) → List Item
global_items [] = []
global_items (e ∷ es) =
    if length e.key == 0 then pair_items e.val ++ blank_line ∷ global_items es else global_items es

abbrev pub node_items : Dict (Dict Text) → List Item
node_items [] = []
node_items (e ∷ es) =
    if length e.key == 0
    then node_items es
    else name_line e.key ∷ (pair_items e.val ++ blank_line ∷ node_items es)

-- A pair that the reader takes and that has room, with its end and a zero, in 512 bytes; and a section
-- of such pairs with such a name, or none.
abbrev pub FitsPair : Entry Text → Type 0
FitsPair e = IsFit (pair_line e.key e.val) × (length e.key + length e.val + 4 ≤ 511)

abbrev pub FitsSection : Entry (Dict Text) → Type 0
FitsSection e = (all_word e.key ≡ true) × (length e.key + 3 ≤ 511) × All FitsPair e.val

pub file_text-append : (xs ys : List Item) → file_text (xs ++ ys) ≡ file_text xs ++ file_text ys
file_text-append [] ys = refl
file_text-append (x ∷ xs) ys =
    ap (λ l. written x ++ newline ∷ l) (file_text-append xs ys)
    ∙ sym (append_assoc (written x) (newline ∷ file_text xs) (file_text ys))

c_string-word : (k : Text) → all_word k ≡ true → c_string k ≡ k
c_string-word k w = c_string_lem k (all_of-Lacks is_word 0 k refl w)

print_pair_lem :
    (e : Entry Text) → FitsPair e → print_pair e ≡ written (pair_line e.key e.val) ++ newline ∷ []
unfolding print_pair
print_pair_lem e f =
    let k = c_string-word e.key f.0.0.0 in
    let v = c_string_lem e.val (all_of-Lacks is_plain 0 e.val refl f.0.1.0) in
    let pair = written (pair_line e.key e.val) in
    let short : length (pair ++ newline ∷ []) ≤ 511 = omega (
      arith,
      f.1,
      length-append pair (newline ∷ []),
      length-append e.key (space ∷ equals ∷ space ∷ e.val),
    ) in
    rw (k, v) (take_all 511 (pair ++ newline ∷ []) short)

print_name_lem :
    (n : Text)
    → all_word n ≡ true
    → length n + 3 ≤ 511
    → print_name n ≡ written (name_line n) ++ newline ∷ []
unfolding print_name
print_name_lem n w len =
    let line = open_bracket ∷ (n ++ close_bracket ∷ newline ∷ []) in
    let short : length line ≤ 511 = omega (arith, length-append n (close_bracket ∷ newline ∷ [])) in
    rw (c_string-word n w) (
      take_all 511 line short
      ∙ ap (λ l. open_bracket ∷ l) (sym (append_assoc n (close_bracket ∷ []) (newline ∷ []))))

print_pairs_lem : (es : Dict Text) → All FitsPair es → print_pairs es ≡ file_text (pair_items es)
unfolding print_pairs
print_pairs_lem [] f = refl
print_pairs_lem (e ∷ es) f =
    rw (print_pair_lem e f.0, print_pairs_lem es f.1)
      (append_assoc (written (pair_line e.key e.val)) (newline ∷ []) (file_text (pair_items es)))

-- A section's pairs and the line that ends it.
section_text :
    (es : Dict Text) (rest : List Item)
    → All FitsPair es
    → print_pairs es ++ newline ∷ file_text rest ≡ file_text (pair_items es ++ blank_line ∷ rest)
section_text es rest f =
    ap (λ l. l ++ newline ∷ file_text rest) (print_pairs_lem es f)
    ∙ sym (file_text-append (pair_items es) (blank_line ∷ rest))

pub print_global_lem :
    (d : Dict (Dict Text)) → All FitsSection d → print_global d ≡ file_text (global_items d)
unfolding print_global
print_global_lem [] f = refl
print_global_lem (e ∷ es) f = elim (Bool-cases (length e.key == 0)) [
  | inl q ↦ rw (q, print_global_lem es f.1) (section_text e.val (global_items es) f.0.2)
  | inr q ↦ rw q (print_global_lem es f.1)
]

pub print_nodes_lem :
    (d : Dict (Dict Text)) → All FitsSection d → print_nodes d ≡ file_text (node_items d)
unfolding print_nodes
print_nodes_lem [] f = refl
print_nodes_lem (e ∷ es) f = elim (Bool-cases (length e.key == 0)) [
  | inl q ↦ rw q (print_nodes_lem es f.1)
  | inr q ↦
      rw (q, print_nodes_lem es f.1, print_name_lem e.key f.0.0 f.0.1)
        (append_assoc (written (name_line e.key) ++ newline ∷ []) (print_pairs e.val)
            (newline ∷ file_text (node_items es))
          ∙ append_assoc (written (name_line e.key)) (newline ∷ [])
              (print_pairs e.val ++ newline ∷ file_text (node_items es))
          ∙ ap (λ l. written (name_line e.key) ++ newline ∷ l)
              (section_text e.val (node_items es) f.0.2))
]
