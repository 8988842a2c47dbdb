-- ===== src/Map/Lookups.antt =====
-- What `lookup` finds in a list with one entry more or less.
use alias.Prelude.{
  ◌≡◌, refl, true, if◌then◌else◌, List, [], ◌∷◌, ◌++◌, none, Bool-cases, inl, inr, ◌∙◌, sym, ap,
  or_else, or_else-none, or_else-none,
}
use mathlib.Core.Path.{subst}
use alias.Map.Lists.{
  Entry, Order, Above, Above-parts, Above-trans, IsSorted, lookup, lookup-Above, insert_sorted,
  same,
}

module _ {K V : Type 0} (o : Order K) where
  -- What is found after an insertion: what was there, and the new entry behind it.
  pub lookup-insert_sorted :
      (j : K) (x : Entry K V) (xs : List (Entry K V))
      → IsSorted o xs
      → lookup o j (insert_sorted o x xs) ≡ or_else (lookup o j xs) (lookup o j (x ∷ []))
  unfolding insert_sorted lookup
  lookup-insert_sorted j x [] sorted = refl
  lookup-insert_sorted j x (e ∷ es) sorted = elim (Bool-cases (o.less x.key e.key)) [
    | inl before ↦ rw before (in_front before)
    | inr not_before ↦ elim (Bool-cases (o.less e.key x.key)) [
      | inl after ↦ rw (not_before, after) (behind (lookup-insert_sorted j x es sorted.1))
      | inr not_after ↦
          rw (not_before, not_after) (instead (o.total x.key e.key not_before not_after))
    ]
  ]
    where
      in_front :
          o.less x.key e.key ≡ true
          → lookup o j (x ∷ e ∷ es) ≡ or_else (lookup o j (e ∷ es)) (lookup o j (x ∷ []))
      in_front before = elim (Bool-cases (o.less j x.key)) [
        | inl less ↦ rw less (sym (or_else-none (lookup o j (e ∷ es))))
        | inr not_less ↦ elim (Bool-cases (o.less x.key j)) [
          | inl more ↦ rw (not_less, more) (sym (or_else-none (lookup o j (e ∷ es))))
          | inr not_more ↦
              let less : o.less j e.key ≡ true =
                ap (λ k. o.less k e.key) (o.total j x.key not_less not_more) ∙ before in
              rw (
                lookup-Above o j (e ∷ es) (less, Above-trans o j e.key es less sorted.0),
                not_less,
                not_more,
              )
        ]
      ]

      behind :
          lookup o j (insert_sorted o x es) ≡ or_else (lookup o j es) (lookup o j (x ∷ []))
          → lookup o j (e ∷ insert_sorted o x es)
            ≡ or_else (lookup o j (e ∷ es)) (lookup o j (x ∷ []))
      behind rest = elim (Bool-cases (o.less j e.key)) [
        | inl less ↦ rw less rest
        | inr not_less ↦ elim (Bool-cases (o.less e.key j)) [
          | inl more ↦ rw (not_less, more) rest
          | inr not_more ↦ rw (not_less, not_more)
        ]
      ]

      instead :
          x.key ≡ e.key → lookup o j (e ∷ es) ≡ or_else (lookup o j (e ∷ es)) (lookup o j (x ∷ []))
      instead equal = elim (Bool-cases (o.less j e.key)) [
        | inl less ↦ rw (ap (o.less j) equal ∙ less) (sym (or_else-none (lookup o j (e ∷ es))))
        | inr not_less ↦ elim (Bool-cases (o.less e.key j)) [
          | inl more ↦
              rw (ap (o.less j) equal ∙ not_less, ap (λ k. o.less k j) equal ∙ more)
                (sym (or_else-none (lookup o j (e ∷ es))))
          | inr not_more ↦ rw (not_less, not_more)
        ]
      ]

  -- What is found after an entry was taken out: all but its key.
  pub lookup-erased :
      (j : K) (xs : List (Entry K V)) (e : Entry K V) (ys : List (Entry K V))
      → IsSorted o (xs ++ e ∷ ys)
      → lookup o j (xs ++ ys) ≡ (if same o j e.key then none else lookup o j (xs ++ e ∷ ys))
  unfolding same lookup
  lookup-erased j [] e ys sorted = elim (Bool-cases (o.less j e.key)) [
    | inl less ↦ rw less
    | inr not_less ↦ elim (Bool-cases (o.less e.key j)) [
      | inl more ↦ rw (not_less, more)
      | inr not_more ↦
          rw (not_less, not_more)
            (lookup-Above o j ys
              (subst (λ k. Above o k ys) (sym (o.total j e.key not_less not_more)) sorted.0))
    ]
  ]
  lookup-erased j (x ∷ xs) e ys sorted = elim (Bool-cases (o.less j x.key)) [
    | inl less ↦ rw less (lookup-erased j xs e ys sorted.1)
    | inr not_less ↦ elim (Bool-cases (o.less x.key j)) [
      | inl more ↦ rw (not_less, more) (lookup-erased j xs e ys sorted.1)
      | inr not_more ↦
          let less : o.less j e.key ≡ true =
            ap (λ k. o.less k e.key) (o.total j x.key not_less not_more)
            ∙ (Above-parts o x.key xs e ys sorted.0).1 in
          rw (not_less, not_more, less)
    ]
  ]
