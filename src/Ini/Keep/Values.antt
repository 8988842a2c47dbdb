-- ===== src/Ini/Keep/Values.antt =====
-- What `value` finds after sections with different names and keys have been entered.
use alias.Prelude.{
  ◌==◌, if◌then◌else◌, ◌≡◌, refl, sym, ap, ◌∙◌, Bool, true, false, [], ◌∷◌, ◌++◌, none, some,
  length, All, Bool-cases, inl, inr, or_else, or_else-none, arith,
}
use mathlib.Core.Path.{subst}
use alias.Ini.Map.{
  Text, Dict, Entry, same_text, same_text_eq, same_text_refl, same_text_sym, find, find-put,
}
use alias.Ini.{IniConfig, dot, all_word, is_word, split_on, full_key, enter}
use alias.Ini.Access.{source_value}
use alias.Ini.Texts.{all_of-Lacks, split_on_first, split_on-none}
use alias.Ini.Keep.Writer.{FitsPair, FitsSection}
use alias.Ini.Keep.Entering.{
  enter_all, enter_global, enter_nodes, source_value-enter, source_value-enter_all, empty_text,
}

-- No two entries have the same name.
abbrev pub HasUniqueNames : {V : Type 0} → Dict V → Type 0
HasUniqueNames [] = Unit
HasUniqueNames (e ∷ es) = All (λ f. same_text e.key f.key ≡ false) es × HasUniqueNames es

abbrev pub HasUniqueKeys : Entry (Dict Text) → Type 0
HasUniqueKeys e = HasUniqueNames e.val

-- The section and the key of a key of the first map.
parts : Text → Text × Text
parts t = elim (split_on dot t) [ none ↦ ([], t) | some r ↦ r ]

parts-full_key :
    (a b : Text) → all_word a ≡ true → all_word b ≡ true → parts (full_key a b) ≡ (a, b)
unfolding parts full_key
parts-full_key [] b wa wb =
    rw (split_on-none dot b (all_of-Lacks is_word dot b refl wb), parts) refl
parts-full_key (c ∷ a) b wa wb =
    let named : (length (c ∷ a) == 0) ≡ false = ground arith in
    let split : split_on dot (c ∷ a ++ dot ∷ b) ≡ some (c ∷ a, b) =
      split_on_first dot (c ∷ a) b (all_of-Lacks is_word dot (c ∷ a) refl wa) in
    rw (named, split, parts) refl

same_full :
    (a b n k : Text)
    → all_word a ≡ true
    → all_word b ≡ true
    → all_word n ≡ true
    → all_word k ≡ true
    → same_text (full_key a b) (full_key n k) ≡ (if same_text a n then same_text b k else false)
same_full a b n k wa wb wn wk = elim (Bool-cases (same_text (full_key a b) (full_key n k))) [
  | inl e ↦
      let both : (a, b) ≡ (n, k) =
        sym (parts-full_key a b wa wb)
        ∙ ap parts (same_text_eq (full_key a b) (full_key n k) e)
        ∙ parts-full_key n k wn wk in
      let names : a ≡ n = ap (λ p. p.0) both in
      let keys : b ≡ k = ap (λ p. p.1) both in
      rw (e, names, same_text_refl n, keys, same_text_refl k) refl
  | inr e ↦ elim (Bool-cases (same_text a n)) [
    | inr f ↦ rw (e, f) refl
    | inl f ↦ elim (Bool-cases (same_text b k)) [
      | inr g ↦ rw (e, f, g) refl
      | inl g ↦
          let equal : same_text (full_key a b) (full_key n k) ≡ true =
            rw (same_text_eq a n f, same_text_eq b k g) (same_text_refl (full_key n k)) in
          cc
    ]
  ]
]

-- The two maps have the same values.
unfoldable pub Agrees : IniConfig → Type 0
Agrees c =
    (a b : Text)
    → all_word a ≡ true
    → all_word b ≡ true
    → find (full_key a b) c.config_map ≡ source_value (a, b) c

enter-Agrees :
    (n k v : Text) (c : IniConfig)
    → all_word n ≡ true
    → all_word k ≡ true
    → source_value (n, k) c ≡ none
    → Agrees c
    → Agrees (enter n k v c)
unfolding Agrees enter
enter-Agrees n k v c wn wk new agrees a b wa wb =
    find-put (full_key a b) (full_key n k) v c.config_map
    ∙ entered
    ∙ sym (source_value-enter (a, b) n k v c)
  where
    entered :
        (if same_text (full_key a b) (full_key n k)
          then some v
          else find (full_key a b) c.config_map)
        ≡ or_else
            (source_value (a, b) c)
            (if same_text a n then if same_text b k then some v else none else none)
    entered = elim (Bool-cases (same_text a n)) [
      | inr f ↦
          rw (same_full a b n k wa wb wn wk, f)
            (agrees a b wa wb ∙ sym (or_else-none (source_value (a, b) c)))
      | inl f ↦ elim (Bool-cases (same_text b k)) [
        | inr g ↦
            rw (same_full a b n k wa wb wn wk, f, g)
              (agrees a b wa wb ∙ sym (or_else-none (source_value (a, b) c)))
        | inl g ↦
            let absent : source_value (a, b) c ≡ none =
              rw (same_text_eq a n f, same_text_eq b k g) new in
            rw (same_full a b n k wa wb wn wk, f, g, absent) refl
      ]
    ]

enter_all-Agrees :
    (n : Text) (es : Dict Text) (c : IniConfig)
    → all_word n ≡ true
    → All FitsPair es
    → HasUniqueNames es
    → All (λ e. source_value (n, e.key) c ≡ none) es
    → Agrees c
    → Agrees (enter_all n es c)
unfolding enter_all
enter_all-Agrees n [] c wn fit unique new agrees = agrees
enter_all-Agrees n (e ∷ es) c wn fit unique new agrees =
    enter_all-Agrees n es (enter n e.key e.val c) wn fit.1 unique.1 (still es unique.0 new.1)
      (enter-Agrees n e.key e.val c wn fit.0.0.0.0 new.0 agrees)
  where
    still :
        (fs : Dict Text)
        → All (λ f. same_text e.key f.key ≡ false) fs
        → All (λ f. source_value (n, f.key) c ≡ none) fs
        → All (λ f. source_value (n, f.key) (enter n e.key e.val c) ≡ none) fs
    still [] other none_yet = tt
    still (f ∷ fs) other none_yet = (
      source_value-enter (n, f.key) n e.key e.val c
          ∙ rw (none_yet.0, same_text_refl n, same_text_sym f.key e.key, other.0) refl,
      still fs other.1 none_yet.1,
    )

-- The sections whose name is empty, or those whose name is not, have no values yet.
abbrev pub Fresh : Bool → Dict (Dict Text) → IniConfig → Type 0
Fresh b d c = All (λ e. (length e.key == 0) ≡ b → (k : Text) → source_value (e.key, k) c ≡ none) d

new_keys :
    (n : Text) (es : Dict Text) (c : IniConfig)
    → ((k : Text) → source_value (n, k) c ≡ none)
    → All (λ e. source_value (n, e.key) c ≡ none) es
new_keys n [] c fresh = tt
new_keys n (e ∷ es) c fresh = (fresh e.key, new_keys n es c fresh)

Fresh-enter_all :
    (b : Bool) (e : Entry (Dict Text)) (d : Dict (Dict Text)) (c : IniConfig)
    → All (λ f. same_text e.key f.key ≡ false) d
    → Fresh b d c
    → Fresh b d (enter_all e.key e.val c)
Fresh-enter_all b e [] c other fresh = tt
Fresh-enter_all b e (f ∷ d) c other fresh = (
  λ kind k.
      source_value-enter_all (f.key, k) e.key e.val c
      ∙ rw (fresh.0 kind k, same_text_sym f.key e.key, other.0) refl,
  Fresh-enter_all b e d c other.1 fresh.1,
)

pub enter_global-Agrees :
    (d : Dict (Dict Text)) (c : IniConfig)
    → All FitsSection d
    → All HasUniqueKeys d
    → HasUniqueNames d
    → Fresh true d c
    → Agrees c
    → Agrees (enter_global d c)
unfolding enter_global
enter_global-Agrees [] c fit keys names fresh agrees = agrees
enter_global-Agrees (e ∷ d) c fit keys names fresh agrees = elim (Bool-cases (length e.key == 0)) [
  | inr named ↦ rw named (enter_global-Agrees d c fit.1 keys.1 names.1 fresh.1 agrees)
  | inl bare ↦
      let empty : e.key ≡ [] = empty_text e.key bare in
      let c' = enter_all e.key e.val c in
      let rest : Agrees (enter_global d c') =
        enter_global-Agrees d c' fit.1 keys.1 names.1 (Fresh-enter_all true e d c names.0 fresh.1) (
          enter_all-Agrees e.key e.val c fit.0.0 fit.0.2 keys.0
            (new_keys e.key e.val c (fresh.0 bare)) agrees) in
      rw bare (subst (λ n. Agrees (enter_global d (enter_all n e.val c))) empty rest)
]

pub enter_nodes-Agrees :
    (d : Dict (Dict Text)) (c : IniConfig)
    → All FitsSection d
    → All HasUniqueKeys d
    → HasUniqueNames d
    → Fresh false d c
    → Agrees c
    → Agrees (enter_nodes d c)
unfolding enter_nodes
enter_nodes-Agrees [] c fit keys names fresh agrees = agrees
enter_nodes-Agrees (e ∷ d) c fit keys names fresh agrees = elim (Bool-cases (length e.key == 0)) [
  | inl bare ↦ rw bare (enter_nodes-Agrees d c fit.1 keys.1 names.1 fresh.1 agrees)
  | inr named ↦ rw named (
      enter_nodes-Agrees d (enter_all e.key e.val c) fit.1 keys.1 names.1
        (Fresh-enter_all false e d c names.0 fresh.1)
        (enter_all-Agrees e.key e.val c fit.0.0 fit.0.2 keys.0
          (new_keys e.key e.val c (fresh.0 named)) agrees))
]
