-- ===== src/Ini/Keep/Entering.antt =====
-- What the lines of whole sections enter.
use alias.Prelude.{
  ◌==◌, if◌then◌else◌, ◌≡◌, refl, sym, ap, ◌∙◌, true, false, List, [], ◌∷◌, ◌++◌, none, some,
  length, arith, Bool-cases, inl, inr, or_else, or_else-none, or_else_assoc, append_assoc,
}
use alias.Ini.Map.{
  Text, Dict, same_text, same_text_eq, same_text_sym, find, find-nil, put, add, get_or_new,
  find-cons, find-add, get_or_new-put,
}
use alias.Ini.{IniConfig, next_name, obey, enter}
use alias.Ini.Access.{source_value}
use alias.Ini.Lines.{Item, blank_line}
use alias.Ini.Reader.{all_meanings}
use alias.Ini.Keep.Writer.{pair_items, global_items, node_items}

-- What a pair, the pairs of a section, and the sections enter.
unfoldable pub enter_all : Text → Dict Text → IniConfig → IniConfig
enter_all n [] c = c
enter_all n (e ∷ es) c = enter_all n es (enter n e.key e.val c)

unfoldable pub enter_global : Dict (Dict Text) → IniConfig → IniConfig
enter_global [] c = c
enter_global (e ∷ es) c =
    if length e.key == 0 then enter_global es (enter_all [] e.val c) else enter_global es c

unfoldable pub enter_nodes : Dict (Dict Text) → IniConfig → IniConfig
enter_nodes [] c = c
enter_nodes (e ∷ es) c =
    if length e.key == 0 then enter_nodes es c else enter_nodes es (enter_all e.key e.val c)

pub meanings_pairs :
    (es : Dict Text) (rest : List Item) (n : Text) (c : IniConfig)
    → all_meanings (pair_items es ++ rest) n c ≡ all_meanings rest n (enter_all n es c)
unfolding enter_all next_name obey
meanings_pairs [] rest n c = refl
meanings_pairs (e ∷ es) rest n c = meanings_pairs es rest n (enter n e.key e.val c)

pub meanings_global :
    (d : Dict (Dict Text)) (rest : List Item) (c : IniConfig)
    → all_meanings (global_items d ++ rest) [] c ≡ all_meanings rest [] (enter_global d c)
unfolding enter_global next_name obey
meanings_global [] rest c = refl
meanings_global (e ∷ es) rest c = elim (Bool-cases (length e.key == 0)) [
  | inl q ↦ rw q (
      ap (λ l. all_meanings l [] c)
        (append_assoc (pair_items e.val) (blank_line ∷ global_items es) rest)
      ∙ meanings_pairs e.val (blank_line ∷ (global_items es ++ rest)) [] c
      ∙ meanings_global es rest (enter_all [] e.val c))
  | inr q ↦ rw q (meanings_global es rest c)
]

pub meanings_nodes :
    (d : Dict (Dict Text)) (n : Text) (c : IniConfig)
    → all_meanings (node_items d) n c ≡ enter_nodes d c
unfolding enter_nodes next_name obey
meanings_nodes [] n c = refl
meanings_nodes (e ∷ es) n c = elim (Bool-cases (length e.key == 0)) [
  | inl q ↦ rw q (meanings_nodes es n c)
  | inr q ↦ rw q (
      meanings_pairs e.val (blank_line ∷ node_items es) e.key c
      ∙ meanings_nodes es e.key (enter_all e.key e.val c))
]

pub source_value-enter :
    (q : Text × Text) (n key val : Text) (c : IniConfig)
    → source_value q (enter n key val c)
      ≡ or_else
          (source_value q c)
          (if same_text (q.0) n then if same_text (q.1) key then some val else none else none)
unfolding enter
source_value-enter q n key val c =
    let new = add key val (get_or_new n [] c.source_map) in
    elim (Bool-cases (same_text (q.0) n)) [
      | inl e ↦
          let here : get_or_new (q.0) [] (put n new c.source_map) ≡ new =
            get_or_new-put (q.0) n [] new c.source_map ∙ rw e in
          ap (find (q.1)) here
          ∙ find-add (q.1) key val (get_or_new n [] c.source_map)
          ∙ rw (e, same_text_eq (q.0) n e)
      | inr e ↦
          let there : get_or_new (q.0) [] (put n new c.source_map)
              ≡ get_or_new (q.0) [] c.source_map =
            get_or_new-put (q.0) n [] new c.source_map ∙ rw e in
          ap (find (q.1)) there ∙ rw e (sym (or_else-none (source_value q c)))
    ]

pub source_value-enter_all :
    (q : Text × Text) (n : Text) (es : Dict Text) (c : IniConfig)
    → source_value q (enter_all n es c)
      ≡ or_else (source_value q c) (if same_text (q.0) n then find (q.1) es else none)
unfolding enter_all
source_value-enter_all q n [] c = elim (Bool-cases (same_text (q.0) n)) [
  | inl e ↦ rw (e, find-nil {V = Text} (q.1)) (sym (or_else-none (source_value q c)))
  | inr e ↦ rw e (sym (or_else-none (source_value q c)))
]
source_value-enter_all q n (e ∷ es) c =
    source_value-enter_all q n es (enter n e.key e.val c)
    ∙ ap (λ o. or_else o (if same_text (q.0) n then find (q.1) es else none))
        (source_value-enter q n e.key e.val c)
    ∙ or_else_assoc (source_value q c) _ _
    ∙ ap (or_else (source_value q c)) (elim (Bool-cases (same_text (q.0) n)) [
      | inl s ↦
          rw (s, find-cons (q.1) e es)
            (elim (Bool-cases (same_text (q.1) e.key)) [ inl k ↦ rw k | inr k ↦ rw k ])
      | inr s ↦ rw s
    ])

pub empty_text : (k : Text) → (length k == 0) ≡ true → k ≡ []
empty_text [] e = refl
empty_text (c ∷ k) e = absurd (ground arith)

-- Section names differ where one is empty and the other is not.
pub other_name :
    (k l : Text) → (length k == 0) ≡ true → (length l == 0) ≡ false → same_text k l ≡ false
other_name [] [] e f = cc
other_name [] (c ∷ l) e f = refl
other_name (c ∷ k) l e f = absurd (ground arith)

-- A name and an empty one.
pub other_global :
    (k l : Text) → (length k == 0) ≡ false → (length l == 0) ≡ true → same_text k l ≡ false
other_global k l e f = same_text_sym k l ∙ other_name l k f e
