-- ===== src/Ini/Keep/Saved.antt =====
-- What `keep` writes is a file that `parser` reads.
use mathlib.Core.Path.{subst}
use alias.Prelude.{
  ◌-◌, ◌==◌, ◌≡◌, refl, sym, ap, ◌∙◌, ◌⊎◌, true, List, [], ◌∷◌, ◌++◌, some, length, take,
  take-append_eq, append-nil, All, arith, Bool-cases, inl, inr, length-append, All-append,
  append_assoc,
}
use alias.Outcome.{ok}
use alias.Ini.Map.{Text, Dict}
use alias.Ini.{IniConfig, newline, next_name, obey, reset, parser}
use alias.Ini.Keep.{keep}
use alias.Ini.Lines.{Item, blank_line, name_line, meaning, IsFit}
use alias.Ini.Reader.{AllFit, file_text, all_meanings, parser-written}
use alias.Ini.Keep.Writer.{
  pair_items, global_items, node_items, FitsPair, FitsSection, file_text-append, print_global_lem,
  print_nodes_lem,
}

-- The lines of the sections end with a blank one, if there are any.
last_blank :
    (d : Dict (Dict Text))
    → (node_items d ≡ []) ⊎ ((init : List Item) × (node_items d ≡ init ++ blank_line ∷ []))
last_blank [] = inl refl
last_blank (e ∷ es) = elim (Bool-cases (length e.key == 0)) [
  | inl q ↦ rw q (last_blank es)
  | inr q ↦ elim (last_blank es) [
    | inl e_none ↦ inr (name_line e.key ∷ pair_items e.val, rw (q, e_none))
    | inr (init, e_init) ↦ inr (
      name_line e.key ∷ (pair_items e.val ++ blank_line ∷ init),
      rw (q, e_init)
          (ap (λ l. name_line e.key ∷ l)
            (sym (append_assoc (pair_items e.val) (blank_line ∷ init) (blank_line ∷ [])))),
    )
  ]
]

all_meanings-blank :
    (xs : List Item) (node : Text) (c : IniConfig)
    → all_meanings (xs ++ blank_line ∷ []) node c ≡ all_meanings xs node c
unfolding next_name obey
all_meanings-blank [] node c = refl
all_meanings-blank (x ∷ xs) node c =
    all_meanings-blank xs (next_name (meaning x) node) (obey (meaning x) node c)

AllFit-pairs : (es : Dict Text) → All FitsPair es → AllFit (pair_items es)
AllFit-pairs [] f = tt
AllFit-pairs (e ∷ es) f = (f.0.0, AllFit-pairs es f.1)

AllFit-global : (d : Dict (Dict Text)) → All FitsSection d → AllFit (global_items d)
AllFit-global [] f = tt
AllFit-global (e ∷ es) f = elim (Bool-cases (length e.key == 0)) [
  | inl q ↦ rw q (
      All-append IsFit (pair_items e.val) (blank_line ∷ global_items es) (AllFit-pairs e.val f.0.2)
        (tt, AllFit-global es f.1))
  | inr q ↦ rw q (AllFit-global es f.1)
]

AllFit-nodes : (d : Dict (Dict Text)) → All FitsSection d → AllFit (node_items d)
AllFit-nodes [] f = tt
AllFit-nodes (e ∷ es) f = elim (Bool-cases (length e.key == 0)) [
  | inl q ↦ rw q (AllFit-nodes es f.1)
  | inr q ↦ rw q (
    (f.0.0, ground arith, ground arith),
    All-append IsFit (pair_items e.val) (blank_line ∷ node_items es) (AllFit-pairs e.val f.0.2)
        (tt, AllFit-nodes es f.1),
  )
]

AllFit-left : (xs ys : List Item) → AllFit (xs ++ ys) → AllFit xs
AllFit-left [] ys f = tt
AllFit-left (x ∷ xs) ys f = (f.0, AllFit-left xs ys f.1)

-- Without the last byte of the last line.
without_last :
    (xs : List Item)
    → take (length (file_text (xs ++ blank_line ∷ [])) - 1) (file_text (xs ++ blank_line ∷ []))
      ≡ file_text xs
without_last xs =
    let whole : file_text (xs ++ blank_line ∷ []) ≡ file_text xs ++ newline ∷ [] =
      file_text-append xs (blank_line ∷ []) in
    rw whole (
      take-append_eq _ (file_text xs) (newline ∷ [])
        (omega (arith, length-append (file_text xs) (newline ∷ []))))

-- What is written, as lines, and what they mean.
keep-lines :
    (file : Text) (c : IniConfig)
    → All FitsSection c.source_map
    → (items : List Item) × ((keep file c).1 ≡ file_text items)
      × AllFit items
      × ((d : IniConfig)
          → all_meanings items [] d
            ≡ all_meanings (global_items c.source_map ++ node_items c.source_map) [] d)
unfolding keep
keep-lines file c f =
    let d = c.source_map in
    elim (last_blank d) [
      | inl e ↦ (
        global_items d ++ node_items d,
        rw (
          print_global_lem d f,
          print_nodes_lem d f,
          e,
          append-nil (file_text (global_items d)),
          append-nil (global_items d),
        ),
        All-append IsFit (global_items d) (node_items d) (AllFit-global d f) (AllFit-nodes d f),
        λ d. refl,
      )
      | inr (init, e) ↦ (
        global_items d ++ init,
        rw (print_global_lem d f, print_nodes_lem d f, e, without_last init)
            (sym (file_text-append (global_items d) init)),
        All-append IsFit (global_items d) init (AllFit-global d f)
            (AllFit-left init (blank_line ∷ []) (subst AllFit e (AllFit-nodes d f))),
        λ d'. sym (
            ap (λ l. all_meanings (global_items d ++ l) [] d') e
            ∙ ap (λ l. all_meanings l [] d')
                (sym (append_assoc (global_items d) init (blank_line ∷ [])))
            ∙ all_meanings-blank (global_items d ++ init) [] d'),
      )
    ]

-- What `parser` makes of it.
pub parser-lines :
    (path file : Text) (c before : IniConfig)
    → All FitsSection c.source_map
    → parser path (some (keep file c).1) before
      ≡ some (
        all_meanings
            (global_items c.source_map ++ node_items c.source_map)
            []
            (record reset { path = path }),
        ok true,
      )
parser-lines path file c before f =
    let (items, text, fit, same) = keep-lines file c f in
    rw (text, parser-written path items before fit, same (record reset { path = path }))
