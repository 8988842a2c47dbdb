-- ===== src/Ini/Access.antt =====
-- Access to what was read: `del` and `operator[]` against `value`.
use alias.Prelude.{
  suc, ◌-◌, ◌==◌, if◌then◌else◌, ◌≡◌, refl, sym, ap, ◌∙◌, true, false, ◌&&◌, [], ◌∷◌, Option, none,
  some, length, take, arith, Bool-cases, Option-cases, inl, inr,
}
use alias.Outcome.{ok}
use alias.Ini.Map.{
  Text, Dict, same_text, same_text_eq, find, put, erase, get_or_new, get_or_new-put, find-put,
  find-erase,
}
use alias.Ini.{
  IniConfig, dot, c_string, starts_with, split_on, value, split_key, set_at, erase_source, del,
}

-- What the map of a section, the second one of an `IniConfig`, has for a key.
abbrev pub source_value : Text × Text → IniConfig → Option Text
source_value r c = find (r.1) (get_or_new (r.0) [] c.source_map)

split_key-returns :
    (key : Text) → starts_with dot key ≡ false → (r : Text × Text) × (split_key key ≡ ok r)
unfolding split_key split_on starts_with
split_key-returns [] e = (([], []), refl)
split_key-returns (c ∷ cs) e =
    let differs : (c == dot) ≡ false = e in
    elim (Option-cases (split_on dot cs)) [
      | inl bare ↦
          let none_here : split_on dot (c ∷ cs) ≡ none = rw (differs, bare) in
          (([], c ∷ cs), rw (none_here, split_key))
      | inr (r, found) ↦
          let here : split_on dot (c ∷ cs) ≡ some (c ∷ r.0, r.1) = rw (differs, found) in
          let some_name : (suc (length r.0) == 0) ≡ false = ground arith in
          ((take (suc (length r.0) - 1) (c ∷ r.0), c_string r.1), rw (here, some_name, split_key))
    ]

abbrev text_of : Option Text → Text
text_of none = []
text_of (some v) = v

value_eq : (q : Text) (c : IniConfig) → value q c ≡ text_of (find q c.config_map)
unfolding value
value_eq q c = elim (Option-cases (find q c.config_map)) [
  | inl e ↦ rw (e, value)
  | inr (v, e) ↦ rw (e, value)
]

erase_source-config_map :
    (r : Text × Text) (c : IniConfig) → (erase_source r c).config_map ≡ c.config_map
unfolding erase_source
erase_source-config_map r c = elim (Option-cases (find (r.0) c.source_map)) [
  | inl e ↦ rw (e, erase_source)
  | inr (m, e) ↦ rw (e, erase_source)
]

-- A map without the key.
text_of-erase :
    (q key : Text) (es : Dict Text)
    → text_of (find q (erase key es)) ≡ (if same_text q key then [] else text_of (find q es))
text_of-erase q key es =
    ap text_of (find-erase q key es)
    ∙ elim (Bool-cases (same_text q key)) [ inl e ↦ rw e | inr e ↦ rw e ]

text_of-none :
    (q key : Text) (es : Dict Text)
    → find key es ≡ none
    → text_of (find q es) ≡ (if same_text q key then [] else text_of (find q es))
text_of-none q key es absent = elim (Bool-cases (same_text q key)) [
  | inl e ↦ rw (e, same_text_eq q key e, absent)
  | inr e ↦ rw e
]

-- After `del`, which returns true where the key does not start with a '.', `value` has nothing for the
-- key, and for every other key what it had.
pub value-del :
    (key : Text) (c : IniConfig)
    → starts_with dot key ≡ false
    → ((del key c).1 ≡ ok true)
      × ((q : Text) → value q (del key c).0 ≡ (if same_text q key then [] else value q c))
unfolding del
value-del key c named = elim (Option-cases (find key c.config_map)) [
  | inl absent ↦ (
    rw (absent, del),
    λ q.
        rw (absent, del)
          (value_eq q c
            ∙ text_of-none q key c.config_map absent
            ∙ ap (λ t. if same_text q key then [] else t) (sym (value_eq q c))),
  )
  | inr (v, there) ↦
      let (r, split) = split_key-returns key named in
      let kept = record c { config_map = erase key c.config_map } in
      (
        rw (there, split, del),
        λ q.
            rw (there, split, del)
              (value_eq q (erase_source r kept)
                ∙ ap (λ m. text_of (find q m)) (erase_source-config_map r kept)
                ∙ text_of-erase q key c.config_map
                ∙ ap (λ t. if same_text q key then [] else t) (sym (value_eq q c))),
      )
]

-- A write through `operator[]` with a key that does not start with a '.' goes to one place of the
-- second map, under the section's name that `split_key` gives, and changes no `value`: `value` looks
-- into the other map.
pub set_at-Writes :
    (key val : Text) (c : IniConfig)
    → starts_with dot key ≡ false
    → (r : IniConfig) × (place : Text × Text) × (set_at key val c ≡ ok r)
      × (split_key key ≡ ok place)
      × ((q : Text) → value q r ≡ value q c)
      × ((q : Text × Text)
          → source_value q r ≡ (
              if same_text (q.0) (place.0) && same_text (q.1) (place.1)
              then some val
              else source_value q c))
unfolding set_at
set_at-Writes key val c named =
    let (place, split) = split_key-returns key named in
    let written = record c {
      source_map =
          put (place.0) (put (place.1) val (get_or_new (place.0) [] c.source_map)) c.source_map;
    } in
    (
      written,
      place,
      rw (split, set_at),
      split,
      (λ q. value_eq q written ∙ sym (value_eq q c)),
      λ q. placed q place,
    )
  where
    placed :
        (q place : Text × Text)
        → find (q.1) (
            get_or_new (q.0) [] (
              put
                (place.0)
                (put (place.1) val (get_or_new (place.0) [] c.source_map))
                c.source_map))
          ≡ (if same_text (q.0) (place.0) && same_text (q.1) (place.1)
              then some val
              else source_value q c)
    placed q place = elim (Bool-cases (same_text (q.0) (place.0))) [
      | inl e ↦
          rw
            (
              get_or_new-put (q.0) (place.0) []
                  (put (place.1) val (get_or_new (place.0) [] c.source_map)) c.source_map,
              e,
            )
            (find-put (q.1) (place.1) val (get_or_new (place.0) [] c.source_map)
              ∙ rw (same_text_eq (q.0) (place.0) e))
      | inr e ↦ rw (
        get_or_new-put (q.0) (place.0) [] (put (place.1) val (get_or_new (place.0) [] c.source_map))
            c.source_map,
        e,
      )
    ]
