-- ===== src/Map/Contents.antt =====
-- `insert`, `find`, `erase` and `clear` of `MapData` against the map from keys to values that it stands
-- for.
use alias.Prelude.{
  ◌+◌, ◌≡◌, refl, if◌then◌else◌, Option, none, some, length, or_else, arith, Bool-cases, inl, inr,
  ◌∙◌, sym, ap,
}
use mathlib.Core.Option
use mathlib.Core.Path.{subst}
use alias.Outcome.{Outcome, ok, throws, Returns}
use alias.Map.Lists.{Order, IsSorted, lookup, insert_sorted, same, insert_sorted-IsSorted}
use alias.Map.Lookups.{lookup-insert_sorted}
use alias.Map.Tree.{
  to_list, place, RedBlack, find_node-lookup, place-insert_sorted, Walks, place-Walks, there,
  linked,
}
use alias.Map.Data.{Creation, MapData, link, insert, find}

module _ {K V : Type 0} (o : Order K) where
  -- The keys ascend in the tree, and the nodes are counted.
  pub record IsValid (d : MapData K V) : Type 0 where
    pub sorted : IsSorted o (to_list (d.root))
    pub counted : d.node_count ≡ length (to_list (d.root))

  -- The map from keys to values.
  unfoldable pub shown : MapData K V → K → Option V
  shown d j = lookup o j (to_list d.root)

module _ {K V : Type 0} (o : Order K) (rb : RedBlack K V o) (d : MapData K V)
    (v : IsValid o d) where
  -- What is returned, and what is shown afterwards.
  pub record Inserts (k : K) (x : V) (r : MapData K V × Option K) : Type 0 where
    pub valid : IsValid o (r.0)
    pub shows :
        (j : K) → shown o (r.0) j ≡ or_else (shown o d j) (if same o j k then some x else none)
    pub answer : r.1 ≡ elim (shown o d k) [ none ↦ some k | some _ ↦ none ]

  -- A map whose nodes are those of `insert_sorted`.
  module _ (k : K) (x : V) (d' : MapData K V)
      (placed : to_list d'.root
        ≡ insert_sorted o (record { key = k; value = x }) (to_list d.root)) where
    after-IsSorted : IsSorted o (to_list d'.root)
    after-IsSorted =
        subst (IsSorted o) (sym placed)
          (insert_sorted-IsSorted o (record { key = k; value = x }) (to_list d.root) v.sorted)

    shows_after :
        (j : K) → shown o d' j ≡ or_else (shown o d j) (if same o j k then some x else none)
    unfolding shown same lookup
    shows_after j =
        ap (lookup o j) placed
        ∙ lookup-insert_sorted o j (record { key = k; value = x }) (to_list d.root) v.sorted
        ∙ elim (Bool-cases (o.less j k)) [
          | inl less ↦ rw less
          | inr not_less ↦ elim (Bool-cases (o.less k j)) [
            | inl more ↦ rw (not_less, more)
            | inr not_more ↦ rw (not_less, not_more)
          ]
        ]

  pub insert_walk :
      (k : K) (x : V)
      → Walks o (record { key = k; value = x }) d.root
      → Inserts k x (link o rb k d (place o (record { key = k; value = x }) d.root))
  unfolding link shown
  insert_walk k x (there e found stays) = rw stays (record {
    valid = v;
    shows = shown_there;
    answer = rw (sym (find_node-lookup o k d.root v.sorted), found);
  })
    where
      shown_there :
          (j : K) → shown o d j ≡ or_else (shown o d j) (if same o j k then some x else none)
      shown_there =
          shows_after k x d
            (rw stays at (place-insert_sorted o (record { key = k; value = x }) d.root v.sorted))
  insert_walk k x (linked t' gone put more) = rw put (record {
    valid = record {
      sorted = after-IsSorted k x d' placed;
      counted = omega (arith, v.counted, more, ap length (rb.insert_color_lem k t'));
    };
    shows = shows_after k x d' placed;
    answer = rw (sym (find_node-lookup o k d.root v.sorted), gone);
  })
    where
      d' : MapData K V
      d' = record { root = rb.insert_color k t'; node_count = d.node_count + 1 }

      placed :
          to_list (rb.insert_color k t')
          ≡ insert_sorted o (record { key = k; value = x }) (to_list d.root)
      placed =
          rb.insert_color_lem k t'
          ∙ (rw put at (place-insert_sorted o (record { key = k; value = x }) d.root v.sorted))

  -- How `insert` ends, by how the creation of the node does.
  pub InsertEnds : Creation → K → V → Outcome (MapData K V × Option K) → Type 0
  InsertEnds Creation.made k x run = Returns run (Inserts k x)
  InsertEnds Creation.caught k x run = run ≡ ok (d, none)
  InsertEnds Creation.no_memory k x run = run ≡ throws

  -- `insert` into a valid map on every branch: where the node is made, the map stays valid, the key
  -- maps to the value unless it is there already, when null is returned, and every other key maps to
  -- what it did; where a constructor throws, null is returned and nothing is changed; where there is no
  -- memory, `insert` throws.
  pub insert-Ends : (c : Creation) (k : K) (x : V) → InsertEnds c k x (insert o rb c k x d)
  unfolding insert InsertEnds
  insert-Ends Creation.made k x = (_, refl, insert_walk k x (place-Walks o _ d.root))
  insert-Ends Creation.caught k x = refl
  insert-Ends Creation.no_memory k x = refl

  -- `find` is the value that is shown.
  pub find-shown : (k : K) → Option.map (λ e. e.value) (find o rb k d) ≡ shown o d k
  unfolding find shown
  find-shown k = find_node-lookup o k d.root v.sorted
