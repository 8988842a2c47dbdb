-- ===== src/Hash/Table/Back.antt =====
-- Iterators that go back: `previousNode`.
use alias.Prelude.{
  ℕ, zero, suc, ◌+◌, ◌-◌, ◌%◌, ◌≤◌, ◌<◌, ◌==◌, ◌≡◌, refl, ap, ◌∙◌, true, List, [], some, length,
  get_or, get_elem?, arith, Bool-cases, inl, inr,
}
use alias.Hash.Table.{
  Node, Table, Position, node, end, num_buckets, node_at, previous_from, previous_node,
}
use alias.Hash.Table.Chains.{flat}
use alias.Hash.Table.Rehash.{IsValid}
use alias.Hash.Table.Order.{
  nodes_before, nodes_before-suc, nodes_before_all, get_elem-flat, node_placed,
}

module _ {K V : Type 0} where
  -- From a chain down, to the node before the position or to the end.
  previous_from-rank :
      (bs : List (List (Node K V))) (i j m : ℕ)
      → j ≤ length (get_or bs i [])
      → nodes_before bs i + j ≡ suc m
      → (i' : ℕ) × (j' : ℕ) × (previous_from bs i j ≡ node i' j')
        × (j' < length (get_or bs i' []))
        × (nodes_before bs i' + j' ≡ m)
  unfolding previous_from
  previous_from-rank bs i (suc j) m le e = (i, j, refl, omega arith, omega arith)
  previous_from-rank bs zero zero m le e = absurd (omega arith)
  previous_from-rank bs (suc i) zero m le e =
      previous_from-rank bs i (length (get_or bs i [])) m (omega arith)
        (omega (arith, nodes_before-suc bs i))

  previous_from-end :
      (bs : List (List (Node K V))) (i j : ℕ)
      → nodes_before bs i + j ≡ 0
      → previous_from bs i j ≡ end
  unfolding previous_from
  previous_from-end bs i (suc j) e = absurd (omega arith)
  previous_from-end bs zero zero e = refl
  previous_from-end bs (suc i) zero e =
      previous_from-end bs i (length (get_or bs i [])) (omega (arith, nodes_before-suc bs i))

  -- `--` on an iterator, `n` times.
  pub back : ℕ → Table K V → Position → Position
  back zero t p = p
  back (suc n) t p = previous_node t (back n t p)

  module _ (t : Table K V) (v : IsValid t) where
    previous_node_lem :
        (i j : ℕ)
        → j < length (get_or t.buckets i [])
        → previous_node t (node i j) ≡ previous_from t.buckets i j
    unfolding previous_node
    previous_node_lem i j lt =
        let (n, here, home) = node_placed t v i j lt in
        let same : (n.hash % num_buckets t == i) ≡ true = ground arith in
        rw (here, same, previous_node)

    back-rank :
        (m : ℕ)
        → m < t.size
        → (i : ℕ) × (j : ℕ) × (back (suc m) t end ≡ node i j)
          × (j < length (get_or t.buckets i []))
          × (nodes_before t.buckets i + j + suc m ≡ t.size)
    unfolding back
    back-rank zero lt =
        let bs = t.buckets in
        let (i, j, e, le, r) =
          previous_from-rank bs (length bs) 0 (t.size - 1) (omega arith)
            (omega (arith, v.counted, nodes_before_all bs)) in
        (i, j, unfold previous_node in e, le, omega arith)
    back-rank (suc m) lt =
        let (i, j, e, le, r) = back-rank m (omega arith) in
        let (i', j', e', le', r') =
          previous_from-rank t.buckets i j (t.size - suc (suc m)) (omega arith) (omega arith) in
        (i', j', ap (previous_node t) e ∙ previous_node_lem i j le ∙ e', le', omega arith)

    -- From the end of a valid table, `n` times `--`, for `n` from 1 to its size, gets to the node that
    -- is `n`-th from the last in the order of the chains.
    pub back-nodes :
        (n : ℕ)
        → 1 ≤ n
        → n ≤ t.size
        → (i : ℕ) × (j : ℕ) × (x : Node K V) × (back n t end ≡ node i j)
          × (node_at t i j ≡ some x)
          × (get_elem? (flat t.buckets) (t.size - n) ≡ some x)
    back-nodes zero pos le = absurd (omega arith)
    back-nodes (suc m) pos le =
        let (i, j, e, lt, r) = back-rank m (omega arith) in
        let (x, here, _) = node_placed t v i j lt in
        (
          i,
          j,
          x,
          e,
          here,
          ap (get_elem? (flat t.buckets)) (omega arith)
              ∙ get_elem-flat t.buckets i j lt
              ∙ (unfold node_at in here),
        )

    -- Once more, and the iterator is at the end again.
    pub back-end : back (suc t.size) t end ≡ end
    unfolding back
    back-end = elim (Bool-cases (t.size == 0)) [
      | inl e ↦
          let none : t.size ≡ 0 = ground arith in
          rw none (
            unfold previous_node in
            previous_from-end t.buckets (length t.buckets) 0
              (omega (arith, v.counted, nodes_before_all t.buckets)))
      | inr e ↦
          let some_node : t.size ≡ suc (t.size - 1) = ground arith in
          let (i, j, p, lt, r) = back-rank (t.size - 1) (ground arith) in
          ap (λ m. previous_node t (back m t end)) some_node
          ∙ ap (previous_node t) p
          ∙ previous_node_lem i j lt
          ∙ previous_from-end t.buckets i j (ground arith)
    ]
