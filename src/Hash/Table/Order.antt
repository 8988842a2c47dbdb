-- ===== src/Hash/Table/Order.antt =====
-- The order in which the nodes of a table stand: chain after chain.
use alias.Prelude.{
  ℕ, zero, suc, ◌+◌, ◌%◌, ◌<◌, ◌≡◌, refl, ap, ◌∙◌, List, [], ◌∷◌, ◌++◌, some, length, get_or,
  get_elem?, take, All, arith, length-append,
}
use alias.Hash.Table.{Node, Table, Position, node, end, wild, num_buckets, node_at}
use alias.Hash.Table.Chains.{flat}
use alias.Hash.Table.Rehash.{IsValid}

module _ {K V : Type 0} where
  -- How many nodes stand in the chains before chain `i`.
  abbrev pub nodes_before : List (List (Node K V)) → ℕ → ℕ
  nodes_before bs i = length (flat (take i bs))

  pub nodes_before-suc :
      (bs : List (List (Node K V))) (i : ℕ)
      → nodes_before bs (suc i) ≡ nodes_before bs i + length (get_or bs i [])
  nodes_before-suc [] zero = refl
  nodes_before-suc [] (suc i) = refl
  nodes_before-suc (c ∷ cs) zero = omega (arith, length-append c [])
  nodes_before-suc (c ∷ cs) (suc i) = omega (
    arith,
    length-append c (flat (take (suc i) cs)),
    length-append c (flat (take i cs)),
    nodes_before-suc cs i,
  )

  pub nodes_before_all :
      (bs : List (List (Node K V))) → nodes_before bs (length bs) ≡ length (flat bs)
  nodes_before_all [] = refl
  nodes_before_all (c ∷ cs) = omega (
    arith,
    length-append c (flat (take (length cs) cs)),
    length-append c (flat cs),
    nodes_before_all cs,
  )

  -- The number of nodes before a position.
  abbrev pub rank : Table K V → Position → ℕ
  rank t (node i j) = nodes_before t.buckets i + j
  rank t end = length (flat t.buckets)
  rank t wild = 0

  -- A node of the table.
  abbrev pub IsNode : Table K V → Position → Type 0
  IsNode t p = (i : ℕ) × (j : ℕ) × (p ≡ node i j) × (j < length (get_or t.buckets i []))

  -- What stands at a place of a chain, for which a property of all its nodes holds.
  pub elem_all :
      (P : Node K V → Type 0) (c : List (Node K V)) (j : ℕ)
      → j < length c
      → All P c
      → (n : Node K V) × (get_elem? c j ≡ some n) × P n
  elem_all P [] j lt all = absurd (omega arith)
  elem_all P (x ∷ c) zero lt all = (x, refl, all.0)
  elem_all P (x ∷ c) (suc j) lt all = elem_all P c j (omega arith) all.1

  get_elem_left :
      (xs ys : List (Node K V)) (j : ℕ) → j < length xs → get_elem? (xs ++ ys) j ≡ get_elem? xs j
  get_elem_left [] ys j lt = absurd (omega arith)
  get_elem_left (x ∷ xs) ys zero lt = refl
  get_elem_left (x ∷ xs) ys (suc j) lt = get_elem_left xs ys j (omega arith)

  get_elem_right :
      (xs ys : List (Node K V)) (j : ℕ) → get_elem? (xs ++ ys) (length xs + j) ≡ get_elem? ys j
  get_elem_right [] ys j = ap (get_elem? ys) (omega arith)
  get_elem_right (x ∷ xs) ys j =
      let next : length (x ∷ xs) + j ≡ suc (length xs + j) = omega arith in
      ap (get_elem? (x ∷ (xs ++ ys))) next ∙ get_elem_right xs ys j

  -- The order of the nodes is that of the chains.
  pub get_elem-flat :
      (bs : List (List (Node K V))) (i j : ℕ)
      → j < length (get_or bs i [])
      → get_elem? (flat bs) (nodes_before bs i + j) ≡ get_elem? (get_or bs i []) j
  get_elem-flat [] i j lt = absurd (omega arith)
  get_elem-flat (c ∷ cs) zero j lt =
      ap (get_elem? (c ++ flat cs)) (omega arith) ∙ get_elem_left c (flat cs) j lt
  get_elem-flat (c ∷ cs) (suc i) j lt =
      ap (get_elem? (c ++ flat cs)) (omega (arith, length-append c (flat (take i cs))))
      ∙ get_elem_right c (flat cs) (nodes_before cs i + j)
      ∙ get_elem-flat cs i j lt

  pub node_placed :
      (t : Table K V) (v : IsValid t) (i j : ℕ)
      → j < length (get_or t.buckets i [])
      → (n : Node K V) × (node_at t i j ≡ some n) × (n.hash % num_buckets t ≡ i)
  unfolding node_at
  node_placed t v i j lt =
      elem_all (λ x. x.hash % num_buckets t ≡ i) (get_or t.buckets i []) j lt (v.placed i)
