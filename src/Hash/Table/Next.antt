-- ===== src/Hash/Table/Next.antt =====
-- Iterators that go on: `nextNode`.
use alias.Prelude.{
  ℕ, zero, suc, ◌+◌, ◌-◌, ◌≤◌, ◌<◌, ◌==◌, ltb, ◌≡◌, refl, ◌≢◌, ◌⊎◌, sym, ap, ◌∙◌, Bool, true, false,
  not, ◌&&◌, List, [], ◌∷◌, length, get_or, arith, Bool-cases, inl, inr,
}
use alias.Hash.Table.{
  Node, Table, Position, node, wild, num_buckets, next_chain, next_bucket, next_node,
}
use alias.Hash.Table.Rehash.{IsValid}
use alias.Hash.Table.Order.{nodes_before, nodes_before-suc, nodes_before_all, rank, node_placed}

unary : (i : ℕ) → i + 1 ≡ suc i
unary i = omega arith

module _ {K V : Type 0} where
  in_range : (bs : List (List (Node K V))) (i : ℕ) → 0 < length (get_or bs i []) → i < length bs
  in_range [] i lt = absurd (omega arith)
  in_range (c ∷ cs) zero lt = omega arith
  in_range (c ∷ cs) (suc i) lt = omega (arith, in_range cs i lt)

  -- Whether the node is the last of its chain and the next chain is empty, without being the last one.
  abbrev pub is_lost : Table K V → ℕ → ℕ → Bool
  is_lost t i j =
      not (ltb (j + 1) (length (get_or t.buckets i [])))
      && (ltb (i + 1 + 1) (num_buckets t) && (length (get_or t.buckets (i + 1) []) == 0))

  -- A step either goes to other memory, or to the position before which `k` nodes stand.
  abbrev pub Goes : Table K V → Bool → Position → ℕ → Type 0
  Goes t lost p k = ((lost ≡ true) × (p ≡ wild)) ⊎ ((lost ≡ false) × (p ≢ wild) × (rank t p ≡ k))

  next_chain_lem :
      (t : Table K V) (start n : ℕ) (c : List (Node K V))
      → get_or t.buckets start [] ≡ c
      → num_buckets t ≡ start + suc n
      → Goes t
          (ltb (start + 1) (num_buckets t) && (length c == 0))
          (next_chain (suc n) start c)
          (nodes_before t.buckets start)
  unfolding next_chain
  next_chain_lem t start n (x ∷ c) here size = inr (ground arith, (λ e. cc), omega arith)
  next_chain_lem t start zero [] here size =
      let last : num_buckets t ≡ suc start = omega arith in
      let past : nodes_before t.buckets start + length (get_or t.buckets start [])
          ≡ nodes_before t.buckets start =
        omega (arith, ap length here) in
      inr (
        ground arith,
        (λ e. cc),
        sym (nodes_before_all t.buckets)
            ∙ ap (nodes_before t.buckets) last
            ∙ nodes_before-suc t.buckets start
            ∙ past,
      )
  next_chain_lem t start (suc n) [] here size = inl (ground arith, refl)

  next_bucket_lem :
      (t : Table K V) (start : ℕ)
      → start ≤ num_buckets t
      → Goes t
          (ltb (start + 1) (num_buckets t) && (length (get_or t.buckets start []) == 0))
          (next_bucket t start)
          (nodes_before t.buckets start)
  unfolding next_bucket
  next_bucket_lem t start le = elim (Bool-cases (ltb start (num_buckets t))) [
    | inl e ↦
        let rounds : num_buckets t - start ≡ suc (num_buckets t - suc start) = ground arith in
        rw (e, rounds)
          (next_chain_lem t start (num_buckets t - suc start) (get_or t.buckets start []) refl
            (ground arith))
    | inr e ↦
        let last : start ≡ num_buckets t = ground arith in
        rw e (
          inr (
            ground arith,
            (λ q. cc),
            sym (nodes_before_all t.buckets) ∙ ap (nodes_before t.buckets) (sym last),
          ))
  ]

  module _ (t : Table K V) (v : IsValid t) where
    -- `++` on an iterator at a node of a valid table goes to the next node in the order of the chains,
    -- or to the end if there is none, with one exception: from the last node of a chain behind which
    -- comes an empty chain that is not the last one, it goes to memory that is neither.
    pub next_node-Goes :
        (i j : ℕ)
        → j < length (get_or t.buckets i [])
        → Goes t (is_lost t i j) (next_node t (node i j)) (rank t (node i j) + 1)
    unfolding next_node
    next_node-Goes i j lt =
        let (n, here, home) = node_placed t v i j lt in
        elim (Bool-cases (ltb (j + 1) (length (get_or t.buckets i [])))) [
          | inl e ↦ rw (here, e, next_node) (inr (refl, (λ q. cc), omega arith))
          | inr e ↦
              let after : nodes_before t.buckets (i + 1) ≡ nodes_before t.buckets i + j + 1 =
                ap (nodes_before t.buckets) (unary i)
                ∙ nodes_before-suc t.buckets i
                ∙ ground arith in
              rw (here, e, home, ← after, next_node)
                (next_bucket_lem t (i + 1) (omega (arith, in_range t.buckets i (omega arith))))
        ]
