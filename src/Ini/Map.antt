-- ===== src/Ini/Map.antt =====
-- `std::map` with text keys, as a list of pairs in the order of the keys.
use alias.Prelude.{
  or_else, or_else-none, Option-cases, ℕ, ◌==◌, ltb, if◌then◌else◌, ◌≡◌, refl, sym, ap, ◌∙◌, Bool,
  true, false, ◌&&◌, ◌||◌, List, [], ◌∷◌, Option, none, some, arith, Bool-cases, inl, inr,
}

abbrev pub Text : Type 0
Text = List ℕ

-- `operator==` and `operator<` of `std::string`
abbrev pub same_text : Text → Text → Bool
same_text [] [] = true
same_text [] (c ∷ cs) = false
same_text (c ∷ cs) [] = false
same_text (c ∷ cs) (d ∷ ds) = c == d && same_text cs ds

abbrev pub text_before : Text → Text → Bool
text_before cs [] = false
text_before [] (d ∷ ds) = true
text_before (c ∷ cs) (d ∷ ds) = ltb c d || (c == d && text_before cs ds)

pub same_text_eq : (k l : Text) → same_text k l ≡ true → k ≡ l
same_text_eq [] [] e = refl
same_text_eq [] (d ∷ ds) e = absurd (cc)
same_text_eq (c ∷ cs) [] e = absurd (cc)
same_text_eq (c ∷ cs) (d ∷ ds) e =
    let first : c ≡ d = ground arith in
    let rest : same_text cs ds ≡ true = ground arith in
    rw first (ap (λ l. d ∷ l) (same_text_eq cs ds rest))

pub same_text_refl : (k : Text) → same_text k k ≡ true
same_text_refl [] = refl
same_text_refl (c ∷ cs) = ground (arith, same_text_refl cs)

pub same_text_sym : (k l : Text) → same_text k l ≡ same_text l k
same_text_sym [] [] = refl
same_text_sym [] (d ∷ ds) = refl
same_text_sym (c ∷ cs) [] = refl
same_text_sym (c ∷ cs) (d ∷ ds) = ground (arith, same_text_sym cs ds)

-- Another key than one that is the same as `k`.
other_key : (q k l : Text) → same_text q k ≡ true → same_text k l ≡ false → same_text q l ≡ false
other_key q k l same other = rw (same_text_eq q k same) other

pub record Entry {ℓ} (V : Type ℓ) : Type ℓ where
  pub key : Text
  pub val : V

abbrev pub Dict {ℓ} : Type ℓ → Type ℓ
Dict V = List (Entry V)

module _ {ℓ} {V : Type ℓ} where
  unfoldable pub find : Text → Dict V → Option V
  find k [] = none
  find k (e ∷ es) = let rest = find k es in if same_text k e.key then some e.val else rest

  -- `map[k] = v`
  unfoldable pub put : Text → V → Dict V → Dict V
  put k v [] = record { key = k; val = v } ∷ []
  put k v (e ∷ es) =
      let rest = put k v es in
      if same_text k e.key
      then record { key = k; val = v } ∷ es
      else if text_before k e.key
      then record { key = k; val = v } ∷ e ∷ es
      else e ∷ rest

  -- `insert` of a pair: what is there stays.
  unfoldable pub add : Text → V → Dict V → Dict V
  add k v es = elim (find k es) [ none ↦ put k v es | some w ↦ es ]

  -- `map[k]` as it is read: a key that is not there gets the default value.
  abbrev pub get_or_new : Text → V → Dict V → V
  get_or_new k initial es = elim (find k es) [ none ↦ initial | some v ↦ v ]

  -- A key stands at one place at most.
  pub erase : Text → Dict V → Dict V
  erase k [] = []
  erase k (e ∷ es) = let rest = erase k es in if same_text k e.key then rest else e ∷ rest

  pub find-nil : (q : Text) → find q [] ≡ none
  unfolding find
  find-nil q = refl

  pub find-cons :
      (q : Text) (e : Entry V) (es : Dict V)
      → find q (e ∷ es) ≡ (if same_text q e.key then some e.val else find q es)
  unfolding find
  find-cons q e es = refl

  pub find-put :
      (q k : Text) (v : V) (es : Dict V)
      → find q (put k v es) ≡ (if same_text q k then some v else find q es)
  unfolding find put
  find-put q k v [] = refl
  find-put q k v (e ∷ es) = elim (Bool-cases (same_text q k)) [
    | inl mine ↦ elim (Bool-cases (same_text k e.key)) [
      | inl here ↦ rw (here, mine)
      | inr other ↦ elim (Bool-cases (text_before k e.key)) [
        | inl first ↦ rw (other, first, mine)
        | inr later ↦ rw (other, later, other_key q k e.key mine other, find-put q k v es, mine)
      ]
    ]
    | inr not_mine ↦ elim (Bool-cases (same_text k e.key)) [
      | inl here ↦ rw (here, not_mine, ← same_text_eq k e.key here, not_mine)
      | inr other ↦ elim (Bool-cases (text_before k e.key)) [
        | inl first ↦ rw (other, first, not_mine)
        | inr later ↦ rw (other, later, find-put q k v es, not_mine)
      ]
    ]
  ]

  pub find-erase :
      (q k : Text) (es : Dict V) → find q (erase k es) ≡ (if same_text q k then none else find q es)
  unfolding find erase
  find-erase q k [] = elim (Bool-cases (same_text q k)) [ inl e ↦ rw e | inr e ↦ rw e ]
  find-erase q k (e ∷ es) = elim (Bool-cases (same_text q k)) [
    | inl mine ↦ elim (Bool-cases (same_text k e.key)) [
      | inl here ↦ rw (here, find-erase q k es, mine)
      | inr other ↦ rw (other, other_key q k e.key mine other, find-erase q k es, mine)
    ]
    | inr not_mine ↦ elim (Bool-cases (same_text k e.key)) [
      | inl here ↦ rw (here, find-erase q k es, not_mine, ← same_text_eq k e.key here, not_mine)
      | inr other ↦ rw (other, find-erase q k es, not_mine)
    ]
  ]

  pub get_or_new-put :
      (q k : Text) (initial v : V) (es : Dict V)
      → get_or_new q initial (put k v es) ≡ (if same_text q k then v else get_or_new q initial es)
  get_or_new-put q k initial v es = elim (Bool-cases (same_text q k)) [
    | inl e ↦
        let here : find q (put k v es) ≡ some v = find-put q k v es ∙ rw e in
        rw (here, e, get_or_new)
    | inr e ↦
        let there : find q (put k v es) ≡ find q es = find-put q k v es ∙ rw e in
        rw (there, e, get_or_new)
  ]

  pub find-add :
      (q k : Text) (v : V) (es : Dict V)
      → find q (add k v es) ≡ or_else (find q es) (if same_text q k then some v else none)
  unfolding add
  find-add q k v es = elim (Option-cases (find k es)) [
    | inl absent ↦
        rw (absent, add)
          (find-put q k v es ∙ elim (Bool-cases (same_text q k)) [
            | inl e ↦
                let none_here : find q es ≡ none =
                  ap (λ l. find l es) (same_text_eq q k e) ∙ absent in
                rw (e, none_here)
            | inr e ↦ rw e (sym (or_else-none (find q es)))
          ])
    | inr (w, there) ↦
        rw (there, add)
          (elim (Bool-cases (same_text q k)) [
            | inl e ↦
                let some_here : find q es ≡ some w =
                  ap (λ l. find l es) (same_text_eq q k e) ∙ there in
                rw (e, some_here)
            | inr e ↦ rw e (sym (or_else-none (find q es)))
          ])
  ]
