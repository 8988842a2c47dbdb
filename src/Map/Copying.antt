-- ===== src/Map/Copying.antt =====
-- The loop of `detach_helper`: a copy with the same entries.
use alias.Prelude.{
  ℕ, zero, suc, ◌≤◌, ◌≡◌, refl, List, [], ◌∷◌, ◌++◌, Option, none, some, length, arith,
  Option-cases, inl, inr, ◌∙◌, sym, ap, append_assoc, append-nil,
}
use mathlib.Core.Option
use mathlib.Core.Path.{subst}
use alias.Outcome.{ok}
use alias.Map.Lists.{
  Entry, Order, Below, IsSorted, IsSorted-parts, lookup, lookup-Below, insert_sorted,
  insert_sorted-right, first_key, less_self,
}
use alias.Map.Tree.{
  Tree, to_list, find_node, place, RedBlack, find_node-lookup, find_node-splits,
  place-insert_sorted, place-Walks,
}
use alias.Map.Data.{Creation, MapData, link, insert, next_node, create}
use alias.Map.Contents.{IsValid, insert_walk}
use alias.Map.Erase.{next_node-first_key}
use alias.Map.Sharing.{copy_nodes}

module _ {K V : Type 0} (o : Order K) where
  lookup_there :
      (xs : List (Entry K V)) (e : Entry K V) (ys : List (Entry K V))
      → Below o e.key xs
      → lookup o e.key (xs ++ e ∷ ys) ≡ some e.value
  unfolding lookup
  lookup_there xs e ys below = rw (lookup-Below o e.key xs (e ∷ ys) below, less_self o e.key)

  -- A node of the tree is found by its key.
  find_node_there :
      (t : Tree K V) (xs : List (Entry K V)) (e : Entry K V) (ys : List (Entry K V))
      → IsSorted o (to_list t)
      → to_list t ≡ xs ++ e ∷ ys
      → find_node o e.key t ≡ some e
  find_node_there t xs e ys sorted parts =
      let (_, below, _, _) = IsSorted-parts o xs e ys (subst (IsSorted o) parts sorted) in
      let value : Option.map (λ f. f.value) (find_node o e.key t) ≡ some e.value =
        find_node-lookup o e.key t sorted
        ∙ ap (lookup o e.key) parts
        ∙ lookup_there xs e ys below in
      elim (Option-cases (find_node o e.key t)) [
        | inl gone ↦ cc (rw gone at value)
        | inr (f, found) ↦
            let (_, _, _, equal) = find_node-splits o e.key t f found in
            let same_value : f.value ≡ e.value = cc (rw found at value) in
            found ∙ ap some (λ i. record { key = (sym equal) i; value = same_value i })
      ]

module _ {K V : Type 0} (o : Order K) (rb : RedBlack K V o) where
  -- The entries after an insertion.
  link_list :
      (x : Entry K V) (d : MapData K V)
      → IsSorted o (to_list d.root)
      → to_list ((link o rb x.key d (place o x d.root)).0.root) ≡ insert_sorted o x (to_list d.root)
  unfolding link
  link_list x d sorted = linked (place o x d.root) ∙ place-insert_sorted o x d.root sorted
    where
      linked :
          (p : Option (Tree K V))
          → to_list ((link o rb x.key d p).0.root) ≡ to_list (Option.get_or p d.root)
      linked none = refl
      linked (some t) = rb.insert_color_lem x.key t

  -- The insertion of an entry above all others.
  link_above :
      (e : Entry K V) (d : MapData K V)
      → IsValid o d
      → Below o e.key (to_list d.root)
      → let d' = (link o rb e.key d (place o e d.root)).0 in
        (to_list d'.root ≡ to_list d.root ++ e ∷ []) × (d'.node_count ≡ length (to_list d'.root))
  unfolding insert_sorted
  link_above e d v below = (
    link_list e d v.sorted
        ∙ ap (insert_sorted o e) (sym (append-nil (to_list d.root)))
        ∙ insert_sorted-right o e (to_list d.root) [] below,
    (insert_walk o rb d v e.key e.value (place-Walks o e d.root)).valid.counted,
  )

  module _ (made_of : K → V → Creation) (made : (k : K) (x : V) → made_of k x ≡ Creation.made)
      (from : MapData K V) (v : IsValid o from) where
    copy_nodes_step :
        (fuel : ℕ) (e : Entry K V) (to : MapData K V)
        → find_node o e.key from.root ≡ some e
        → copy_nodes o rb made_of (suc fuel) (some e.key) from to
          ≡ copy_nodes o rb made_of fuel
              (next_node o rb e.key from)
              from
              (link o rb e.key to (place o e to.root)).0
    unfolding copy_nodes insert
    copy_nodes_step fuel e to found = rw (found, copy_nodes, made e.key e.value)

    -- The loop from any node on: it ends within a turn for each node, and has copied the rest.
    copy_nodes_rest :
        (fuel : ℕ) (xs ys : List (Entry K V)) (to : MapData K V)
        → to_list from.root ≡ xs ++ ys
        → to_list to.root ≡ xs
        → to.node_count ≡ length xs
        → length ys ≤ fuel
        → (d : MapData K V) × (copy_nodes o rb made_of fuel (first_key ys) from to ≡ ok (some d))
          × (to_list d.root ≡ to_list from.root)
          × (d.node_count ≡ length (to_list d.root))
    unfolding copy_nodes first_key insert
    copy_nodes_rest fuel xs [] to parts copied counted enough =
        (to, refl, copied ∙ sym (append-nil xs) ∙ sym parts, counted ∙ sym (ap length copied))
    copy_nodes_rest zero xs (e ∷ ys) to parts copied counted enough = absurd (omega (arith, enough))
    copy_nodes_rest (suc fuel) xs (e ∷ ys) to parts copied counted enough =
        let sorted = subst (IsSorted o) parts v.sorted in
        let (front, below, _, _) = IsSorted-parts o xs e ys sorted in
        let v' : IsValid o to = record {
          sorted = subst (IsSorted o) (sym copied) front;
          counted = counted ∙ sym (ap length copied);
        } in
        let (list, count) = link_above e to v' (subst (Below o e.key) (sym copied) below) in
        let list' : _ ≡ xs ++ e ∷ [] = list ∙ ap (λ zs. zs ++ e ∷ []) copied in
        let (d, run, same_list, all) =
          copy_nodes_rest fuel (xs ++ e ∷ []) ys (link o rb e.key to (place o e to.root)).0
            (parts ∙ sym (append_assoc xs (e ∷ []) ys)) list' (count ∙ ap length list')
            (omega (arith, enough)) in
        (
          d,
          copy_nodes_step fuel e to (find_node_there o from.root xs e ys v.sorted parts)
              ∙ rw (next_node-first_key o rb from v xs e ys parts) run,
          same_list,
          all,
        )

    -- `detach_helper` copies every entry of a valid map, and counts it, where no constructor throws:
    -- its loop takes one turn for each node.
    pub copy_nodes-copies :
        (d : MapData K V) × (copy_nodes o rb made_of from.node_count
            (rb.first from.root)
            from
            create
          ≡ ok (some d))
        × (to_list d.root ≡ to_list from.root)
        × (d.node_count ≡ length (to_list d.root))
    unfolding create to_list
    copy_nodes-copies = rw (rb.first_lem from.root) (
        copy_nodes_rest from.node_count [] (to_list from.root) create refl refl refl
          (omega (arith, v.counted)))
