-- ===== src/Map/Lists.antt =====
-- Sorted lists of entries, which a tree stands for, and the order of the keys.
use alias.Prelude.{
  ◌≡◌, refl, Bool, true, false, if◌then◌else◌, List, [], ◌∷◌, ◌++◌, Option, none, some, All,
  Bool-cases, inl, inr, or_else,
}

-- A key of the map with its value.
pub record Entry (K V : Type 0) : Type 0 where
  pub key : K
  pub value : V

-- `std::less` on the keys, a strict total order; `std::greater` is its converse.
pub record Order (K : Type 0) : Type 0 where
  pub less : K → K → Bool
  pub asym : (a b : K) → less a b ≡ true → less b a ≡ false
  pub trans : (a b c : K) → less a b ≡ true → less b c ≡ true → less a c ≡ true
  pub total : (a b : K) → less a b ≡ false → less b a ≡ false → a ≡ b

-- The keys are equivalent.
unfoldable pub same : {K : Type 0} → Order K → K → K → Bool
same o j k = if o.less j k then false else if o.less k j then false else true

pub less_self : {K : Type 0} (o : Order K) (k : K) → o.less k k ≡ false
less_self o k = elim (Bool-cases (o.less k k)) [
  | inl less ↦ o.asym k k less
  | inr not_less ↦ not_less
]

module _ {K V : Type 0} (o : Order K) where
  abbrev pub Below : K → List (Entry K V) → Type 0
  Below k xs = All (λ e. o.less (e.key) k ≡ true) xs

  abbrev pub Above : K → List (Entry K V) → Type 0
  Above k xs = All (λ e. o.less k (e.key) ≡ true) xs

  -- The keys ascend.
  abbrev pub IsSorted : List (Entry K V) → Type 0
  IsSorted [] = Unit
  IsSorted (e ∷ es) = Above e.key es × IsSorted es

  unfoldable pub lookup : K → List (Entry K V) → Option V
  lookup k [] = none
  lookup k (e ∷ es) =
      if o.less k e.key then lookup k es else if o.less e.key k then lookup k es else some e.value

  -- A new entry at its place; a key that is there keeps its value.
  unfoldable pub insert_sorted : Entry K V → List (Entry K V) → List (Entry K V)
  insert_sorted x [] = x ∷ []
  insert_sorted x (e ∷ es) =
      if o.less x.key e.key
      then x ∷ e ∷ es
      else if o.less e.key x.key
      then e ∷ insert_sorted x es
      else e ∷ es

  pub lookup-Below :
      (k : K) (xs ys : List (Entry K V)) → Below k xs → lookup k (xs ++ ys) ≡ lookup k ys
  unfolding lookup
  lookup-Below k [] ys below = refl
  lookup-Below k (e ∷ es) ys below =
      rw (o.asym e.key k below.0, below.0) (lookup-Below k es ys below.1)

  pub lookup-Above : (k : K) (xs : List (Entry K V)) → Above k xs → lookup k xs ≡ none
  unfolding lookup
  lookup-Above k [] above = refl
  lookup-Above k (e ∷ es) above = rw above.0 (lookup-Above k es above.1)

  pub lookup_skip :
      (k : K) (xs ys : List (Entry K V)) → Above k ys → lookup k (xs ++ ys) ≡ lookup k xs
  unfolding lookup
  lookup_skip k [] ys above = lookup-Above k ys above
  lookup_skip k (e ∷ es) ys above = rw (lookup_skip k es ys above)

  pub Above-trans : (a b : K) (xs : List (Entry K V)) → o.less a b ≡ true → Above b xs → Above a xs
  Above-trans a b [] less above = tt
  Above-trans a b (e ∷ es) less above =
      (o.trans a b e.key less above.0, Above-trans a b es less above.1)

  pub Below-trans : (a b : K) (xs : List (Entry K V)) → o.less a b ≡ true → Below a xs → Below b xs
  Below-trans a b [] less below = tt
  Below-trans a b (e ∷ es) less below =
      (o.trans e.key a b below.0 less, Below-trans a b es less below.1)

  pub Above-parts :
      (k : K) (xs : List (Entry K V)) (e : Entry K V) (ys : List (Entry K V))
      → Above k (xs ++ e ∷ ys)
      → Above k xs × (o.less k e.key ≡ true)
  Above-parts k [] e ys above = (tt, above.0)
  Above-parts k (x ∷ xs) e ys above =
      let (front, less) = Above-parts k xs e ys above.1 in ((above.0, front), less)

  Above-erased :
      (k : K) (xs : List (Entry K V)) (e : Entry K V) (ys : List (Entry K V))
      → Above k (xs ++ e ∷ ys)
      → Above k (xs ++ ys)
  Above-erased k [] e ys above = above.1
  Above-erased k (x ∷ xs) e ys above = (above.0, Above-erased k xs e ys above.1)

  -- The parts of a sorted list.
  pub IsSorted-parts :
      (xs : List (Entry K V)) (e : Entry K V) (ys : List (Entry K V))
      → IsSorted (xs ++ e ∷ ys)
      → IsSorted xs × Below e.key xs × Above e.key ys × IsSorted ys
  IsSorted-parts [] e ys sorted = (tt, tt, sorted.0, sorted.1)
  IsSorted-parts (x ∷ xs) e ys sorted =
      let (front, below, above, back) = IsSorted-parts xs e ys sorted.1 in
      let (first, less) = Above-parts x.key xs e ys sorted.0 in
      ((first, front), (less, below), above, back)

  -- `insert_sorted` to the left of an entry, and to its right.
  pub insert_sorted-left :
      (x : Entry K V) (xs : List (Entry K V)) (e : Entry K V) (ys : List (Entry K V))
      → o.less x.key e.key ≡ true
      → insert_sorted x (xs ++ e ∷ ys) ≡ insert_sorted x xs ++ e ∷ ys
  unfolding insert_sorted
  insert_sorted-left x [] e ys less = rw less
  insert_sorted-left x (y ∷ xs) e ys less = elim (Bool-cases (o.less x.key y.key)) [
    | inl before ↦ rw before
    | inr behind ↦ elim (Bool-cases (o.less y.key x.key)) [
      | inl after ↦ rw (behind, after, insert_sorted-left x xs e ys less)
      | inr same ↦ rw (behind, same)
    ]
  ]

  pub insert_sorted-right :
      (x : Entry K V) (xs : List (Entry K V)) (ys : List (Entry K V))
      → Below x.key xs
      → insert_sorted x (xs ++ ys) ≡ xs ++ insert_sorted x ys
  unfolding insert_sorted
  insert_sorted-right x [] ys below = refl
  insert_sorted-right x (y ∷ xs) ys below =
      rw (o.asym y.key x.key below.0, below.0, insert_sorted-right x xs ys below.1)

  insert_sorted-Above :
      (k : K) (x : Entry K V) (xs : List (Entry K V))
      → o.less k x.key ≡ true
      → Above k xs
      → Above k (insert_sorted x xs)
  unfolding insert_sorted
  insert_sorted-Above k x [] less above = (less, tt)
  insert_sorted-Above k x (e ∷ es) less above = elim (Bool-cases (o.less x.key e.key)) [
    | inl before ↦ rw before (less, above)
    | inr not_before ↦ elim (Bool-cases (o.less e.key x.key)) [
      | inl after ↦ rw (not_before, after) (above.0, insert_sorted-Above k x es less above.1)
      | inr not_after ↦ rw (not_before, not_after) above
    ]
  ]

  pub insert_sorted-IsSorted :
      (x : Entry K V) (xs : List (Entry K V)) → IsSorted xs → IsSorted (insert_sorted x xs)
  unfolding insert_sorted
  insert_sorted-IsSorted x [] sorted = (tt, tt)
  insert_sorted-IsSorted x (e ∷ es) sorted = elim (Bool-cases (o.less x.key e.key)) [
    | inl before ↦ rw before ((before, Above-trans x.key e.key es before sorted.0), sorted)
    | inr not_before ↦ elim (Bool-cases (o.less e.key x.key)) [
      | inl after ↦
          rw (not_before, after)
            (insert_sorted-Above e.key x es after sorted.0, insert_sorted-IsSorted x es sorted.1)
      | inr not_after ↦ rw (not_before, not_after) sorted
    ]
  ]

  pub IsSorted-erased :
      (xs : List (Entry K V)) (e : Entry K V) (ys : List (Entry K V))
      → IsSorted (xs ++ e ∷ ys)
      → IsSorted (xs ++ ys)
  IsSorted-erased [] e ys sorted = sorted.1
  IsSorted-erased (x ∷ xs) e ys sorted =
      (Above-erased x.key xs e ys sorted.0, IsSorted-erased xs e ys sorted.1)

-- The first key of a list, and its last.
unfoldable pub first_key : {K V : Type 0} → List (Entry K V) → Option K
first_key [] = none
first_key (e ∷ es) = some e.key

unfoldable pub last_key : {K V : Type 0} → List (Entry K V) → Option K
last_key [] = none
last_key (e ∷ es) = or_else (last_key es) (some e.key)
