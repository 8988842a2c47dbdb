-- ===== src/RbtreeApi/Places.antt =====
-- `rbtree_insert` and `rbtree_erase` with callbacks that follow an order of the nodes.
use alias.Prelude.{◌≡◌, refl, if◌then◌else◌, Option, none, some, Bool-cases, inl, inr, ◌∙◌}
use alias.Map.Lists.{Entry, Order, IsSorted, insert_sorted}
use alias.Map.Tree.{
  Tree, leaf, node, to_list, find_node, place, place-insert_sorted, RedBlack, place-Walks, there,
  linked,
}
use alias.RbtreeApi.{Sign, place_by, rbtree_insert}

-- The sign with which a node compares to another: negative where it is the lower one.
unfoldable pub sign_of : {K : Type 0} → Order K → K → K → Sign
sign_of o a b =
    if o.less a b then Sign.negative else if o.less b a then Sign.positive else Sign.equal

module _ {K V : Type 0} (o : Order K) where
  -- The walk by such a callback is the one of the order.
  place_by_lem :
      (compare : K → K → Sign) (follows : (a b : K) → compare a b ≡ sign_of o a b) (x : Entry K V)
      (t : Tree K V)
      → place_by compare x t ≡ place o x t
  unfolding place_by place sign_of
  place_by_lem compare follows x leaf = refl
  place_by_lem compare follows x (node l e r) = elim (Bool-cases (o.less e.key x.key)) [
    | inl after ↦
        rw
          (
            place_by,
            follows e.key x.key,
            after,
            o.asym e.key x.key after,
            place_by_lem compare follows x r,
          )
          refl
    | inr not_after ↦ elim (Bool-cases (o.less x.key e.key)) [
      | inl before ↦
          rw (place_by, follows e.key x.key, not_after, before, place_by_lem compare follows x l)
            refl
      | inr not_before ↦ rw (place_by, follows e.key x.key, not_after, not_before) refl
    ]
  ]

module _ {K V : Type 0} (o : Order K) (rb : RedBlack K V o) where
  -- The tree afterwards has the node at its place in the order, or is what it was where an equal node
  -- is in it; then null is returned, and the new node otherwise.
  pub Places : Entry K V → Tree K V → Option (Tree K V) × Option K → Type 0
  Places x t r =
      (t' : Tree K V) × (r.0 ≡ some t')
      × (to_list t' ≡ insert_sorted o x (to_list t))
      × (r.1 ≡ elim (find_node o x.key t) [ none ↦ some x.key | some _ ↦ none ])

  -- `rbtree_insert` into a sorted tree, for a callback that is negative where the node in the tree is
  -- below the new one.
  pub rbtree_insert-Places :
      (compare : K → K → Sign)
      → ((a b : K) → compare a b ≡ sign_of o a b)
      → (x : Entry K V) (t : Tree K V) → IsSorted o (to_list t)
      → Places x t (rbtree_insert o rb (some t) x (some compare))
  unfolding rbtree_insert Places
  rbtree_insert-Places compare follows x t sorted = elim (place-Walks o x t) [
    | there e found stays ↦
        let run : place_by compare x t ≡ none = place_by_lem o compare follows x t ∙ stays in
        (
          t,
          rw (run, rbtree_insert) refl,
          rw stays at (place-insert_sorted o x t sorted),
          rw (run, rbtree_insert, found) refl,
        )
    | linked t' gone put _ ↦
        let run : place_by compare x t ≡ some t' = place_by_lem o compare follows x t ∙ put in
        (
          rb.insert_color x.key t',
          rw (run, rbtree_insert) refl,
          rb.insert_color_lem x.key t' ∙ (rw put at (place-insert_sorted o x t sorted)),
          rw (run, rbtree_insert, gone) refl,
        )
  ]
