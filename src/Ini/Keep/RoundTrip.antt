-- ===== src/Ini/Keep/RoundTrip.antt =====
-- `parser` of what `keep` writes gives every key of every section the value that it had.
use alias.Prelude.{
  ◌==◌, if◌then◌else◌, ◌≡◌, refl, sym, ap, ◌∙◌, true, false, [], ◌∷◌, Option, none, some, length,
  All, Bool-cases, inl, inr, or_else, or_else-none, or_else_assoc,
}
use alias.Outcome.{ok}
use alias.Ini.Map.{Text, Dict, same_text, same_text_eq, find, find-nil, get_or_new, find-cons}
use alias.Ini.{IniConfig, reset, parser, value, all_word, full_key}
use alias.Ini.Keep.{keep}
use alias.Ini.Access.{source_value}
use alias.Ini.Keep.Writer.{node_items, FitsSection}
use alias.Ini.Keep.Saved.{parser-lines}
use alias.Ini.Keep.Values.{
  HasUniqueNames, HasUniqueKeys, Agrees, Fresh, enter_global-Agrees, enter_nodes-Agrees,
}
use alias.Ini.Keep.Entering.{
  enter_all, enter_global, enter_nodes, meanings_global, meanings_nodes, source_value-enter_all,
  empty_text, other_name, other_global,
}

-- A value of the first of the sections of that name that has it.
merged : Text × Text → Dict (Dict Text) → Option Text
merged q [] = none
merged q (e ∷ es) = or_else (if same_text (q.0) e.key then find (q.1) e.val else none) (merged q es)

source_value-enter_global :
    (q : Text × Text) (d : Dict (Dict Text)) (c : IniConfig)
    → source_value q (enter_global d c)
      ≡ or_else (source_value q c) (if length (q.0) == 0 then merged q d else none)
unfolding enter_global merged
source_value-enter_global q [] c = elim (Bool-cases (length (q.0) == 0)) [
  | inl g ↦ rw g (sym (or_else-none (source_value q c)))
  | inr g ↦ rw g (sym (or_else-none (source_value q c)))
]
source_value-enter_global q (e ∷ es) c = elim (Bool-cases (length e.key == 0)) [
  | inl b ↦ rw b (
      source_value-enter_global q es (enter_all [] e.val c)
      ∙ ap (λ o. or_else o (if length (q.0) == 0 then merged q es else none))
          (source_value-enter_all q [] e.val c)
      ∙ or_else_assoc (source_value q c) _ _
      ∙ ap (or_else (source_value q c)) (elim (Bool-cases (length (q.0) == 0)) [
        | inl g ↦ rw (g, empty_text e.key b)
        | inr g ↦ rw (g, other_global (q.0) [] g refl)
      ]))
  | inr b ↦ rw b (
      source_value-enter_global q es c
      ∙ ap (or_else (source_value q c)) (elim (Bool-cases (length (q.0) == 0)) [
        | inl g ↦ rw (g, other_name (q.0) e.key g b)
        | inr g ↦ rw g
      ]))
]

source_value-enter_nodes :
    (q : Text × Text) (d : Dict (Dict Text)) (c : IniConfig)
    → source_value q (enter_nodes d c)
      ≡ or_else (source_value q c) (if length (q.0) == 0 then none else merged q d)
unfolding enter_nodes merged
source_value-enter_nodes q [] c = elim (Bool-cases (length (q.0) == 0)) [
  | inl g ↦ rw g (sym (or_else-none (source_value q c)))
  | inr g ↦ rw g (sym (or_else-none (source_value q c)))
]
source_value-enter_nodes q (e ∷ es) c = elim (Bool-cases (length e.key == 0)) [
  | inl b ↦ rw b (
      source_value-enter_nodes q es c
      ∙ ap (or_else (source_value q c)) (elim (Bool-cases (length (q.0) == 0)) [
        | inl g ↦ rw g
        | inr g ↦ rw (g, other_global (q.0) e.key g b)
      ]))
  | inr b ↦ rw b (
      source_value-enter_nodes q es (enter_all e.key e.val c)
      ∙ ap (λ o. or_else o (if length (q.0) == 0 then none else merged q es))
          (source_value-enter_all q e.key e.val c)
      ∙ or_else_assoc (source_value q c) _ _
      ∙ ap (or_else (source_value q c)) (elim (Bool-cases (length (q.0) == 0)) [
        | inl g ↦ rw (g, other_name (q.0) e.key g b)
        | inr g ↦ rw g
      ]))
]

merged-none :
    (q : Text × Text) (es : Dict (Dict Text))
    → All (λ f. same_text (q.0) f.key ≡ false) es
    → merged q es ≡ none
unfolding merged
merged-none q [] u = refl
merged-none q (e ∷ es) u = rw (u.0, merged-none q es u.1)

merged_lem :
    (q : Text × Text) (d : Dict (Dict Text))
    → HasUniqueNames d
    → merged q d ≡ find (q.1) (get_or_new (q.0) [] d)
unfolding merged
merged_lem q [] u =
    rw (find-nil {V = Dict Text} (q.0), get_or_new) (sym (find-nil {V = Text} (q.1)))
merged_lem q (e ∷ es) u = elim (Bool-cases (same_text (q.0) e.key)) [
  | inl s ↦
      let name : q.0 ≡ e.key = same_text_eq (q.0) e.key s in
      let only : merged q es ≡ none = merged-none q es (rw name u.0) in
      let here : find (q.0) (e ∷ es) ≡ some e.val = find-cons (q.0) e es ∙ rw s in
      rw (s, only, here, get_or_new) (or_else-none (find (q.1) e.val))
  | inr s ↦
      let there : find (q.0) (e ∷ es) ≡ find (q.0) es = find-cons (q.0) e es ∙ rw s in
      rw (s, there, get_or_new) (merged_lem q es u.1)
]

entered :
    (q : Text × Text) (d : Dict (Dict Text)) (path : Text)
    → source_value q (enter_nodes d (enter_global d (record reset { path = path }))) ≡ merged q d
entered q d path =
    let fresh = record reset { path = path } in
    let bare : source_value q fresh ≡ none =
      rw (find-nil {V = Dict Text} (q.0), get_or_new) (find-nil {V = Text} (q.1)) in
    source_value-enter_nodes q d (enter_global d fresh)
    ∙ ap (λ o. or_else o (if length (q.0) == 0 then none else merged q d))
        (source_value-enter_global q d fresh
          ∙ ap (λ o. or_else o (if length (q.0) == 0 then merged q d else none)) bare)
    ∙ elim (Bool-cases (length (q.0) == 0)) [
      | inl g ↦ rw g (or_else-none (merged q d))
      | inr g ↦ rw g
    ]

entered-Agrees :
    (d : Dict (Dict Text)) (path : Text)
    → All FitsSection d
    → All HasUniqueKeys d
    → HasUniqueNames d
    → Agrees (enter_nodes d (enter_global d (record reset { path = path })))
unfolding Agrees
entered-Agrees d path fit keys names =
    enter_nodes-Agrees d (enter_global d fresh) fit keys names (nodes_fresh d) (
      enter_global-Agrees d fresh fit keys names (all_fresh d)
        (λ a b wa wb. find-nil {V = Text} _ ∙ sym (bare (a, b))))
  where
    fresh : IniConfig
    fresh = record reset { path = path }

    bare : (q : Text × Text) → source_value q fresh ≡ none
    bare q = rw (find-nil {V = Dict Text} (q.0), get_or_new) (find-nil {V = Text} (q.1))

    all_fresh : (es : Dict (Dict Text)) → Fresh true es fresh
    all_fresh [] = tt
    all_fresh (e ∷ es) = (λ kind k. bare (e.key, k), all_fresh es)

    nodes_fresh : (es : Dict (Dict Text)) → Fresh false es (enter_global d fresh)
    nodes_fresh [] = tt
    nodes_fresh (e ∷ es) = (
      λ kind k. source_value-enter_global (e.key, k) d fresh ∙ rw (bare (e.key, k), kind) refl,
      nodes_fresh es,
    )

-- What `value` returns for a key of a section.
pub value_lem :
    (q : Text) (c : IniConfig) → value q c ≡ (elim (find q c.config_map) [ none ↦ [] | some v ↦ v ])
unfolding value
value_lem q c = refl

-- `parser` of what `keep` writes returns true. After that, for any words as section and key,
-- or no section, `value` of the key with its section's name returns the value that the key had in the
-- section when `keep` was called, and nothing where it was not there; and every key of every section of
-- the second map has the value that it had. Names are words, values have two bytes or more,
-- no blanks at their ends and no byte that ends a value, the lines are short, and sections have
-- different names, as the keys of a section have.
pub parser-keep :
    (path file : Text) (c before : IniConfig) (a b : Text)
    → all_word a ≡ true
    → all_word b ≡ true
    → All FitsSection c.source_map
    → All HasUniqueKeys c.source_map
    → HasUniqueNames c.source_map
    → (after : IniConfig) × (parser path (some (keep file c).1) before ≡ some (after, ok true))
      × (value (full_key a b) after ≡ (elim (source_value (a, b) c) [ none ↦ [] | some v ↦ v ]))
      × ((q : Text × Text) → source_value q after ≡ source_value q c)
unfolding Agrees
parser-keep path file c before a b wa wb fit keys names =
    let d = c.source_map in
    let fresh = record reset { path = path } in
    let after = enter_nodes d (enter_global d fresh) in
    let same : (q : Text × Text) → source_value q after ≡ source_value q c =
      λ q. entered q d path ∙ merged_lem q d names in
    (
      after,
      parser-lines path file c before fit
          ∙ ap (λ r. some (r, ok true))
              (meanings_global d (node_items d) fresh ∙ meanings_nodes d [] (enter_global d fresh)),
      value_lem (full_key a b) after
          ∙ ap (λ (o : Option Text). elim o [ none ↦ [] | some v ↦ v ])
              (entered-Agrees d path fit keys names a b wa wb ∙ same (a, b)),
      same,
    )
