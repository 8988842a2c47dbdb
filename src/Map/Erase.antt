-- ===== src/Map/Erase.antt =====
-- `nextNode`, `erase` and `clear` of `MapData` against the map from keys to values.
use alias.Prelude.{
  ℕ, zero, suc, ◌+◌, ◌<◌, ◌≡◌, refl, true, false, if◌then◌else◌, List, [], ◌∷◌, ◌++◌, Option, none,
  some, length, or_else, arith, Bool-cases, Option-cases, inl, inr, ◌∙◌, sym, ap, length-append,
  ◌⊎◌,
}
use mathlib.Core.Option
use mathlib.Core.Path.{subst}
use alias.Map.Lists.{
  Entry, Order, Above, Above-parts, IsSorted, IsSorted-parts, lookup, same, IsSorted-erased,
  first_key, last_key, less_self,
}
use alias.Map.Lookups.{lookup-erased}
use alias.Map.Tree.{
  Tree, leaf, node, find_node, to_list, RedBlack, find_node-lookup, find_node-splits,
}
use alias.Map.Data.{MapData, find, next_node, erase_node, erase, clear_loop, clear, create}
use alias.Map.Contents.{IsValid, shown}

module _ {K V : Type 0} (o : Order K) where
  -- The last key of a sorted list is above every other.
  pub last_key-Above :
      (k : K) (ys : List (Entry K V))
      → Above o k ys
      → ((last_key ys ≡ none) × (first_key ys ≡ none))
        ⊎ ((j : K) × (last_key ys ≡ some j) × (o.less k j ≡ true))
  unfolding last_key first_key
  last_key-Above k [] above = inl (refl, refl)
  last_key-Above k (e ∷ es) above = elim (last_key-Above k es above.1) [
    | inl (gone, _) ↦ inr (e.key, rw gone refl, above.0)
    | inr (j, here, less) ↦ inr (j, rw here refl, less)
  ]

  last_key-append :
      (xs : List (Entry K V)) (e : Entry K V) (ys : List (Entry K V))
      → last_key (xs ++ e ∷ ys) ≡ or_else (last_key ys) (some e.key)
  unfolding last_key
  last_key-append [] e ys = refl
  last_key-append (x ∷ xs) e ys = rw (last_key-append xs e ys) (known (last_key ys))
    where
      known :
          (l : Option K) → or_else (or_else l (some e.key)) (some x.key) ≡ or_else l (some e.key)
      known none = refl
      known (some j) = refl

pub same_self : {K : Type 0} (o : Order K) (k : K) → same o k k ≡ true
unfolding same
same_self o k = rw (less_self o k)

module _ {K V : Type 0} (o : Order K) where
  -- The key behind a key of the list.
  unfoldable pub next_key : K → List (Entry K V) → Option K
  next_key k [] = none
  next_key k (e ∷ es) = if same o k e.key then first_key es else next_key k es

  pub next_key-split :
      (xs : List (Entry K V)) (e : Entry K V) (ys : List (Entry K V))
      → IsSorted o (xs ++ e ∷ ys)
      → next_key e.key (xs ++ e ∷ ys) ≡ first_key ys
  unfolding next_key same
  next_key-split [] e ys sorted = rw (same_self o e.key)
  next_key-split (x ∷ xs) e ys sorted =
      rw (apart (Above-parts o x.key xs e ys sorted.0).1) (next_key-split xs e ys sorted.1)
    where
      apart : o.less x.key e.key ≡ true → same o e.key x.key ≡ false
      apart less = rw (o.asym x.key e.key less, less)

  next_key-none : (k : K) (xs : List (Entry K V)) → lookup o k xs ≡ none → next_key k xs ≡ none
  unfolding next_key same lookup
  next_key-none k [] gone = refl
  next_key-none k (x ∷ xs) gone = elim (Bool-cases (o.less k x.key)) [
    | inl less ↦ rw less (next_key-none k xs (rw less at gone))
    | inr not_less ↦ elim (Bool-cases (o.less x.key k)) [
      | inl more ↦ rw (not_less, more) (next_key-none k xs (rw (not_less, more) at gone))
      | inr not_more ↦ cc (rw (not_less, not_more) at gone)
    ]
  ]

  -- Where no key is found, no key is the same.
  lookup-none :
      (k j : K) (xs : List (Entry K V))
      → lookup o k xs ≡ none
      → lookup o j xs ≡ (if same o j k then none else lookup o j xs)
  unfolding same
  lookup-none k j xs gone = elim (Bool-cases (same o j k)) [
    | inl e ↦ rw e (ap (λ i. lookup o i xs) (equal e) ∙ gone)
    | inr e ↦ rw e refl
  ]
    where
      equal : same o j k ≡ true → j ≡ k
      equal e = elim (Bool-cases (o.less j k)) [
        | inl less ↦ cc (rw less at e)
        | inr not_less ↦ elim (Bool-cases (o.less k j)) [
          | inl more ↦ cc (rw (not_less, more) at e)
          | inr not_more ↦ o.total j k not_less not_more
        ]
      ]

module _ {K V : Type 0} (o : Order K) (rb : RedBlack K V o) (d : MapData K V)
    (v : IsValid o d) where
  -- `nextNode` of a node of the tree: the test for the last node changes nothing.
  pub next_node-first_key :
      (xs : List (Entry K V)) (e : Entry K V) (ys : List (Entry K V))
      → to_list d.root ≡ xs ++ e ∷ ys
      → next_node o rb e.key d ≡ first_key ys
  unfolding next_node same
  next_node-first_key xs e ys parts =
      let (_, _, above, _) = IsSorted-parts o xs e ys (subst (IsSorted o) parts v.sorted) in
      let last : rb.last d.root ≡ or_else (last_key ys) (some e.key) =
        rb.last_lem d.root ∙ ap last_key parts ∙ last_key-append o xs e ys in
      elim (last_key-Above o e.key ys above) [
        | inl (gone, nothing) ↦ rw (last, gone, nothing, same_self o e.key) refl
        | inr (j, here, less) ↦
            rw (last, here, o.asym e.key j less, less) (rb.next_lem d.root xs e ys v.sorted parts)
      ]

  -- The map afterwards, and the key behind the one that was erased.
  pub record Erases (k : K) (r : MapData K V × Option K) : Type 0 where
    pub valid : IsValid o (r.0)
    pub shows : (j : K) → shown o (r.0) j ≡ (if same o j k then none else shown o d j)
    pub answer : r.1 ≡ next_key o k (to_list (d.root))

  erase_node-Erases :
      (xs : List (Entry K V)) (e : Entry K V) (ys : List (Entry K V))
      → to_list d.root ≡ xs ++ e ∷ ys
      → Erases e.key (erase_node o rb e.key d)
  unfolding erase_node shown
  erase_node-Erases xs e ys parts = record {
    valid = record {
      sorted = subst (IsSorted o) (sym rest) (IsSorted-erased o xs e ys sorted);
      counted = omega (
        arith,
        v.counted,
        ap length parts,
        ap length rest,
        length-append xs (e ∷ ys),
        length-append xs ys,
      );
    };
    shows = λ j. rw (rest, parts) (lookup-erased o j xs e ys sorted);
    answer = next_node-first_key xs e ys parts ∙ (rw parts (sym (next_key-split o xs e ys sorted)));
  }
    where
      sorted : IsSorted o (xs ++ e ∷ ys)
      sorted = subst (IsSorted o) parts v.sorted

      rest : to_list (rb.erase e.key d.root) ≡ xs ++ ys
      rest = rb.erase_lem d.root xs e ys v.sorted parts

  -- `erase` of a key of a valid map, there or not: the map stays valid, the key maps to nothing then,
  -- every other key maps to what it did, and the key behind the one that was taken out is returned, or
  -- null where there is none.
  pub erase-Erases : (k : K) → Erases k (erase o rb k d)
  unfolding erase find shown
  erase-Erases k = elim (Option-cases (find_node o k d.root)) [
    | inl gone ↦
        let nothing : lookup o k (to_list d.root) ≡ none =
          sym (find_node-lookup o k d.root v.sorted) ∙ ap (Option.map (λ e. e.value)) gone in
        rw (gone, erase)
          (record {
            valid = v;
            shows = λ j. lookup-none o k j (to_list d.root) nothing;
            answer = sym (next_key-none o k (to_list d.root) nothing);
          })
    | inr (e, found) ↦
        let (xs, ys, parts, equal) = find_node-splits o k d.root e found in
        rw (found, erase, equal) (erase_node-Erases xs e ys parts)
  ]

module _ {K V : Type 0} (o : Order K) (rb : RedBlack K V o) where
  -- The loop ends in the empty tree, each turn taking one node out.
  clear_loop-leaf :
      (fuel : ℕ) (t : Tree K V)
      → IsSorted o (to_list t)
      → length (to_list t) < fuel
      → clear_loop o rb fuel t ≡ some leaf
  unfolding clear_loop to_list
  clear_loop-leaf zero t sorted enough = absurd (omega (arith, enough))
  clear_loop-leaf (suc fuel) leaf sorted enough = refl
  clear_loop-leaf (suc fuel) (node l e r) sorted enough =
      let rest = rb.erase_lem (node l e r) (to_list l) e (to_list r) sorted refl in
      clear_loop-leaf fuel (rb.erase e.key (node l e r))
        (subst (IsSorted o) (sym rest) (IsSorted-erased o (to_list l) e (to_list r) sorted))
        (omega (
          arith,
          enough,
          ap length rest,
          length-append (to_list l) (e ∷ to_list r),
          length-append (to_list l) (to_list r),
        ))

  -- `clear` of a valid map ends, with one turn for each node, in the map that `create` makes.
  pub clear-create : (d : MapData K V) → IsValid o d → clear o rb (d.node_count + 1) d ≡ some create
  unfolding clear create
  clear-create d v =
      rw (clear_loop-leaf (d.node_count + 1) d.root v.sorted (omega (arith, v.counted))) refl
