-- ===== src/RbtreeApi/Visits.antt =====
-- `rbtree_foreach` and `rbtree_size` go through the nodes in their order.
use alias.Prelude.{
  ℕ, zero, suc, ◌+◌, ◌≤◌, ◌≡◌, refl, Bool, true, false, if◌then◌else◌, List, [], ◌∷◌, ◌++◌, Option,
  none, some, length, or_else, arith, Bool-cases, inl, inr, ◌∙◌, sym, ap, append_assoc,
}
use mathlib.Core.Path.{subst}
use alias.Outcome.{ok}
use alias.Map.Lists.{Entry, Order, IsSorted, IsSorted-parts, same, first_key, last_key}
use alias.Map.Tree.{Tree, to_list, RedBlack}
use alias.Map.Erase.{same_self, last_key-Above}
use alias.RbtreeApi.{foreach_loop, rbtree_foreach, size_loop, rbtree_size}

-- The callback on the nodes of a list, up to the first one where it asks to stop.
unfoldable pub visit_until : {K V S : Type 0} → (K → S → Bool × S) → List (Entry K V) → S → S
visit_until callback [] s = s
visit_until callback (e ∷ es) s =
    let r = callback e.key s in
    let rest = visit_until callback es (r.1) in if r.0 then r.1 else rest

module _ {K V : Type 0} where
  last_of_one : (e : Entry K V) (l : K) → last_key (e ∷ []) ≡ some l → e.key ≡ l
  unfolding last_key
  last_of_one e l last = cc

  last_of_some : (e : Entry K V) (es : List (Entry K V)) → (l : K) × (last_key (e ∷ es) ≡ some l)
  unfolding last_key
  last_of_some e es = last_of (last_key es)
    where
      last_of : (p : Option K) → (l : K) × (or_else p (some e.key) ≡ some l)
      last_of none = (e.key, refl)
      last_of (some l) = (l, refl)

module _ {K V : Type 0} (o : Order K) (rb : RedBlack K V o) (t : Tree K V)
    (sorted : IsSorted o (to_list t)) where
  -- The node behind another, which is then not the last.
  next_of :
      (xs : List (Entry K V)) (e f : Entry K V) (ys : List (Entry K V)) (l : K)
      → to_list t ≡ xs ++ e ∷ f ∷ ys
      → last_key (e ∷ f ∷ ys) ≡ some l
      → (same o e.key l ≡ false) × (rb.next e.key t ≡ some f.key) × (last_key (f ∷ ys) ≡ some l)
  unfolding last_key first_key same
  next_of xs e f ys l parts last =
      let (_, _, above, _) = IsSorted-parts o xs e (f ∷ ys) (subst (IsSorted o) parts sorted) in
      let next = rb.next_lem t xs e (f ∷ ys) sorted parts in
      elim (last_key-Above o e.key (f ∷ ys) above) [
        | inl (_, nothing) ↦ cc
        | inr (j, here, less) ↦
            let equal : j ≡ l = cc (rw here at last) in
            (
              subst (λ i. same o e.key i ≡ false) equal (rw (o.asym e.key j less, less) refl),
              next,
              here ∙ ap some equal,
            )
      ]

  size_rest :
      (fuel : ℕ) (xs : List (Entry K V)) (e : Entry K V) (ys : List (Entry K V)) (l : K) (n : ℕ)
      → to_list t ≡ xs ++ e ∷ ys
      → last_key (e ∷ ys) ≡ some l
      → length (e ∷ ys) ≤ fuel
      → size_loop o rb fuel t e.key l n ≡ ok (some (n + length (e ∷ ys)))
  unfolding size_loop
  size_rest zero xs e ys l n parts last enough = absurd (omega (arith, enough))
  size_rest (suc fuel) xs e [] l n parts last enough =
      let own : same o e.key l ≡ true =
        subst (λ i. same o e.key i ≡ true) (last_of_one e l last) (same_self o e.key) in
      rw own refl
  size_rest (suc fuel) xs e (f ∷ ys) l n parts last enough =
      let (apart, next, last') = next_of xs e f ys l parts last in
      rw (apart, next)
        (size_rest fuel (xs ++ e ∷ []) f ys l (n + 1)
            (parts ∙ sym (append_assoc xs (e ∷ []) (f ∷ ys))) last' (omega (arith, enough))
          ∙ ap (λ m. ok (some m)) (omega arith))

  -- `rbtree_size` ends within a turn for each node, and counts the nodes.
  pub rbtree_size-length :
      (fuel : ℕ)
      → length (to_list t) ≤ fuel
      → rbtree_size o rb fuel (some t) ≡ ok (some (length (to_list t)))
  unfolding rbtree_size first_key
  rbtree_size-length fuel enough = from (to_list t) refl
    where
      from :
          (es : List (Entry K V))
          → to_list t ≡ es
          → rbtree_size o rb fuel (some t) ≡ ok (some (length (to_list t)))
      from [] parts =
          let first : rb.first t ≡ none = rb.first_lem t ∙ ap first_key parts in
          rw (first, rbtree_size, parts) refl
      from (e ∷ es) parts =
          let first : rb.first t ≡ some e.key = rb.first_lem t ∙ ap first_key parts in
          let (l, last) = last_of_some e es in
          let last' : rb.last t ≡ some l = rb.last_lem t ∙ ap last_key parts ∙ last in
          let run =
            size_rest fuel [] e es l 0 parts last (omega (arith, enough, ap length parts)) in
          rw (first, rbtree_size, last')
            (run ∙ ap (λ n. ok (some n)) (omega (arith, ap length parts)))

  foreach_rest :
      {S : Type 0} (callback : K → S → Bool × S) (fuel : ℕ) (xs : List (Entry K V)) (e : Entry K V)
      (ys : List (Entry K V)) (l : K) (s : S)
      → to_list t ≡ xs ++ e ∷ ys
      → last_key (e ∷ ys) ≡ some l
      → length (e ∷ ys) ≤ fuel
      → foreach_loop o rb fuel callback t e.key l s ≡ ok (some (visit_until callback (e ∷ ys) s))
  unfolding foreach_loop visit_until
  foreach_rest callback zero xs e ys l s parts last enough = absurd (omega (arith, enough))
  foreach_rest callback (suc fuel) xs e [] l s parts last enough =
      let own : same o e.key l ≡ true =
        subst (λ i. same o e.key i ≡ true) (last_of_one e l last) (same_self o e.key) in
      rw own
        (elim (Bool-cases (callback e.key s).0) [ inl stop ↦ rw stop refl | inr on ↦ rw on refl ])
  foreach_rest callback (suc fuel) xs e (f ∷ ys) l s parts last enough =
      let (apart, next, last') = next_of xs e f ys l parts last in
      elim (Bool-cases (callback e.key s).0) [
        | inl stop ↦ rw (apart, stop) refl
        | inr on ↦
            rw (apart, on, next)
              (foreach_rest callback fuel (xs ++ e ∷ []) f ys l (callback e.key s).1
                (parts ∙ sym (append_assoc xs (e ∷ []) (f ∷ ys))) last' (omega (arith, enough)))
      ]

  -- `rbtree_foreach` ends within a turn for each node: it calls the callback on the nodes in their
  -- order, up to the first for which it returns true, and returns true.
  pub rbtree_foreach-visit_until :
      {S : Type 0} (callback : K → S → Bool × S) (fuel : ℕ) (s : S)
      → length (to_list t) ≤ fuel
      → rbtree_foreach o rb fuel (some t) (some callback) s
        ≡ ok (some (true, visit_until callback (to_list t) s))
  unfolding rbtree_foreach first_key visit_until
  rbtree_foreach-visit_until callback fuel s enough = from (to_list t) refl
    where
      from :
          (es : List (Entry K V))
          → to_list t ≡ es
          → rbtree_foreach o rb fuel (some t) (some callback) s
            ≡ ok (some (true, visit_until callback (to_list t) s))
      from [] parts =
          let first : rb.first t ≡ none = rb.first_lem t ∙ ap first_key parts in
          rw (first, rbtree_foreach, parts) refl
      from (e ∷ es) parts =
          let first : rb.first t ≡ some e.key = rb.first_lem t ∙ ap first_key parts in
          let (l, last) = last_of_some e es in
          let last' : rb.last t ≡ some l = rb.last_lem t ∙ ap last_key parts ∙ last in
          let run =
            foreach_rest callback fuel [] e es l s parts last
              (omega (arith, enough, ap length parts)) in
          rw (first, rbtree_foreach, last', run)
            (ap (λ xs. ok (some (true, visit_until callback xs s))) (sym parts))
