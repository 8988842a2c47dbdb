-- ===== src/Map/Tree.antt =====
-- The tree of a map: the walks of `MapData::find` and `MapData::insert`, and what is taken from the
-- red-black tree.
use alias.Prelude.{
  ◌+◌, ◌≡◌, refl, if◌then◌else◌, List, [], ◌∷◌, ◌++◌, Option, none, some, length, arith, Bool-cases,
  inl, inr, ◌∙◌, sym, ap, length-append, append_assoc,
}
use mathlib.Core.Option
use mathlib.Core.Path.{subst}
use alias.Map.Lists.{
  Entry, Order, first_key, last_key, Below, IsSorted, IsSorted-parts, lookup, lookup-Below,
  lookup_skip, Below-trans, Above-trans, insert_sorted, insert_sorted-left, insert_sorted-right,
}

pub data Tree (K V : Type 0) : Type 0 where
  leaf : Tree K V
  node : Tree K V → Entry K V → Tree K V → Tree K V

-- The entries of a tree in the order of its nodes.
unfoldable pub to_list : {K V : Type 0} → Tree K V → List (Entry K V)
to_list leaf = []
to_list (node l e r) = to_list l ++ e ∷ to_list r

module _ {K V : Type 0} (o : Order K) where
  -- The walk of `find`, and the node where it ends.
  unfoldable pub find_node : K → Tree K V → Option (Entry K V)
  find_node k leaf = none
  find_node k (node l e r) =
      if o.less k e.key then find_node k l else if o.less e.key k then find_node k r else some e

  -- The walk of `insert`, with the new node linked where it ends; none where the key is there.
  unfoldable pub place : Entry K V → Tree K V → Option (Tree K V)
  place x leaf = some (node leaf x leaf)
  place x (node l e r) =
      if o.less x.key e.key
      then Option.map (λ l'. node l' e r) (place x l)
      else if o.less e.key x.key
      then Option.map (λ r'. node l e r') (place x r)
      else none

  abbrev pub IsSearch : Tree K V → Type 0
  IsSearch t = IsSorted o (to_list t)

  pub find_node-lookup :
      (k : K) (t : Tree K V)
      → IsSearch t
      → Option.map (λ e. e.value) (find_node k t) ≡ lookup o k (to_list t)
  unfolding find_node lookup to_list
  find_node-lookup k leaf sorted = refl
  find_node-lookup k (node l e r) sorted =
      let (front, below, above, back) = IsSorted-parts o (to_list l) e (to_list r) sorted in
      elim (Bool-cases (o.less k e.key)) [
        | inl before ↦ rw before (
            find_node-lookup k l front
            ∙ sym (
                lookup_skip o k (to_list l) (e ∷ to_list r)
                  (before, Above-trans o k e.key (to_list r) before above)))
        | inr not_before ↦ elim (Bool-cases (o.less e.key k)) [
          | inl after ↦
              rw
                (
                  lookup-Below o k (to_list l) (e ∷ to_list r)
                      (Below-trans o e.key k (to_list l) after below),
                  not_before,
                  after,
                )
                (find_node-lookup k r back)
          | inr not_after ↦
              let same = o.total k e.key not_before not_after in
              rw (
                lookup-Below o k (to_list l) (e ∷ to_list r)
                    (subst (λ j. Below o j (to_list l)) (sym same) below),
                not_before,
                not_after,
              )
        ]
      ]

  -- Where the walk of `find` ends there is a node with the key.
  pub find_node-splits :
      (k : K) (t : Tree K V) (e : Entry K V)
      → find_node k t ≡ some e
      → (xs ys : List (Entry K V)) × (to_list t ≡ xs ++ e ∷ ys) × (k ≡ e.key)
  unfolding find_node to_list
  find_node-splits k leaf e found = cc
  find_node-splits k (node l f r) e found = elim (Bool-cases (o.less k f.key)) [
    | inl before ↦
        let (xs, ys, parts, equal) = find_node-splits k l e (rw before at found) in
        (xs, ys ++ f ∷ to_list r, rw parts (append_assoc xs (e ∷ ys) (f ∷ to_list r)), equal)
    | inr not_before ↦ elim (Bool-cases (o.less f.key k)) [
      | inl after ↦
          let (xs, ys, parts, equal) = find_node-splits k r e (rw (not_before, after) at found) in
          (
            to_list l ++ f ∷ xs,
            ys,
            rw parts (sym (append_assoc (to_list l) (f ∷ xs) (e ∷ ys))),
            equal,
          )
      | inr not_after ↦
          let here : f ≡ e = cc (rw (not_before, not_after) at found) in
          (
            to_list l,
            to_list r,
            ap (λ g. to_list l ++ g ∷ to_list r) here,
            o.total k f.key not_before not_after ∙ ap (λ (g : Entry K V). g.key) here,
          )
    ]
  ]

  -- The walk of `insert` puts the entry at its place in the order, or leaves the tree as it is.
  pub place-insert_sorted :
      (x : Entry K V) (t : Tree K V)
      → IsSearch t
      → to_list (Option.get_or (place x t) t) ≡ insert_sorted o x (to_list t)
  unfolding place insert_sorted to_list
  place-insert_sorted x leaf sorted = refl
  place-insert_sorted x (node l e r) sorted =
      let (front, below, above, back) = IsSorted-parts o (to_list l) e (to_list r) sorted in
      elim (Bool-cases (o.less x.key e.key)) [
        | inl before ↦ rw before (
            left_placed (place x l)
            ∙ ap (λ es. es ++ e ∷ to_list r) (place-insert_sorted x l front)
            ∙ sym (insert_sorted-left o x (to_list l) e (to_list r) before))
        | inr not_before ↦ elim (Bool-cases (o.less e.key x.key)) [
          | inl after ↦
              rw
                (
                  insert_sorted-right o x (to_list l) (e ∷ to_list r)
                      (Below-trans o e.key x.key (to_list l) after below),
                  not_before,
                  after,
                )
                (right_placed (place x r)
                  ∙ ap (λ es. to_list l ++ e ∷ es) (place-insert_sorted x r back))
          | inr not_after ↦
              let same = o.total x.key e.key not_before not_after in
              rw (
                insert_sorted-right o x (to_list l) (e ∷ to_list r)
                    (subst (λ j. Below o j (to_list l)) (sym same) below),
                not_before,
                not_after,
              )
        ]
      ]
    where
      left_placed :
          (p : Option (Tree K V))
          → to_list (Option.get_or (Option.map (λ l'. node l' e r) p) (node l e r))
            ≡ to_list (Option.get_or p l) ++ e ∷ to_list r
      left_placed none = refl
      left_placed (some l') = refl

      right_placed :
          (p : Option (Tree K V))
          → to_list (Option.get_or (Option.map (λ r'. node l e r') p) (node l e r))
            ≡ to_list l ++ e ∷ to_list (Option.get_or p r)
      right_placed none = refl
      right_placed (some r') = refl

  -- Either the key is found and nothing is linked, or it is not and there is one node more.
  pub data Walks (x : Entry K V) (t : Tree K V) : Type 0 where
    there : (e : Entry K V) → find_node x.key t ≡ some e → place x t ≡ none → Walks x t
    linked :
        (t' : Tree K V)
        → find_node x.key t ≡ none
        → place x t ≡ some t'
        → length (to_list t') ≡ length (to_list t) + 1
        → Walks x t

  pub place-Walks : (x : Entry K V) (t : Tree K V) → Walks x t
  unfolding find_node place to_list
  place-Walks x leaf = linked (node leaf x leaf) refl refl (omega arith)
  place-Walks x (node l e r) = elim (Bool-cases (o.less x.key e.key)) [
    | inl before ↦ elim (place-Walks x l) [
      | there f found stays ↦ there f (rw before found) (rw (before, stays))
      | linked l' gone put more ↦ linked (node l' e r) (rw before gone) (rw (before, put)) (
          omega (
            arith,
            more,
            length-append (to_list l') (e ∷ to_list r),
            length-append (to_list l) (e ∷ to_list r),
          ))
    ]
    | inr not_before ↦ elim (Bool-cases (o.less e.key x.key)) [
      | inl after ↦ elim (place-Walks x r) [
        | there f found stays ↦
            there f (rw (not_before, after) found) (rw (not_before, after, stays))
        | linked r' gone put more ↦
            linked (node l e r') (rw (not_before, after) gone) (rw (not_before, after, put)) (
              omega (
                arith,
                more,
                length-append (to_list l) (e ∷ to_list r'),
                length-append (to_list l) (e ∷ to_list r),
              ))
      ]
      | inr not_after ↦ there e (rw (not_before, not_after)) (rw (not_before, not_after))
    ]
  ]

-- The functions of the red-black tree, and what the code relies on: they keep the order of the nodes.
pub record RedBlack (K V : Type 0) (o : Order K) : Type 0 where
  -- `rb_insert_color` of a node just linked
  pub insert_color : K → Tree K V → Tree K V
  -- `rb_erase` of a node
  pub erase : K → Tree K V → Tree K V
  -- `rb_erase` of a node of the first tree with the root of the second one: what it leaves of both
  pub erase_foreign : K → Tree K V → Tree K V → Tree K V × Tree K V
  -- `rb_first`, `rb_next` of a node, and `rb_last`
  pub first : Tree K V → Option K
  pub next : K → Tree K V → Option K
  pub last : Tree K V → Option K
  pub insert_color_lem : (k : K) (t : Tree K V) → to_list (insert_color k t) ≡ to_list t
  pub erase_lem :
      (t : Tree K V) (xs : List (Entry K V)) (e : Entry K V) (ys : List (Entry K V))
      → IsSorted o (to_list t)
      → to_list t ≡ xs ++ e ∷ ys
      → to_list (erase (e.key) t) ≡ xs ++ ys
  pub first_lem : (t : Tree K V) → first t ≡ first_key (to_list t)
  pub next_lem :
      (t : Tree K V) (xs : List (Entry K V)) (e : Entry K V) (ys : List (Entry K V))
      → IsSorted o (to_list t)
      → to_list t ≡ xs ++ e ∷ ys
      → next (e.key) t ≡ first_key ys
  pub last_lem : (t : Tree K V) → last t ≡ last_key (to_list t)
