-- ===== src/RbtreeApi.antt =====
-- utils/src/rbtree_api.cpp: the tree of `Map/Tree` with callbacks that compare its nodes. A node is named
-- by its key, and a null pointer or callback is absent.
pub mod Visits
pub mod Places
mod Tests
use alias.Prelude.{
  ℕ, zero, suc, ◌+◌, Bool, true, false, if◌then◌else◌, List, [], ◌∷◌, Option, none, some,
}
use mathlib.Core.Option
use alias.Outcome.{Outcome, ok, crash, ◌>>=◌}
use alias.Map.Lists.{Entry, Order, same}
use alias.Map.Tree.{Tree, leaf, node, RedBlack}

-- What a callback compares to: less than 0, 0, or more than 0.
pub data Sign : Type 0 where
  negative : Sign
  equal : Sign
  positive : Sign

module _ {K V : Type 0} where
  -- The walk of `rbtree_insert`, with the new node linked where it ends; none where a node is equal.
  unfoldable pub place_by : (K → K → Sign) → Entry K V → Tree K V → Option (Tree K V)
  place_by compare x leaf = some (node leaf x leaf)
  place_by compare x (node l e r) = elim (compare e.key x.key) [
    | Sign.negative ↦ Option.map (λ r'. node l e r') (place_by compare x r)
    | Sign.equal ↦ none
    | Sign.positive ↦ Option.map (λ l'. node l' e r) (place_by compare x l)
  ]

  -- The walk of `rbtree_search`, to the left for a negative answer.
  unfoldable pub search_by : {S : Type 0} → (K → S → Sign) → S → Tree K V → Option K
  search_by compare seed leaf = none
  search_by compare seed (node l e r) = elim (compare e.key seed) [
    | Sign.negative ↦ search_by compare seed l
    | Sign.equal ↦ some e.key
    | Sign.positive ↦ search_by compare seed r
  ]

  unfoldable pub rbtree_search :
      {S : Type 0} → Option (Tree K V) → S → Option (K → S → Sign) → Option K
  rbtree_search none seed compare = none
  rbtree_search (some t) seed none = none
  rbtree_search (some t) seed (some compare) = search_by compare seed t

module _ {K V : Type 0} (o : Order K) (rb : RedBlack K V o) where
  unfoldable pub rbtree_insert :
      Option (Tree K V) → Entry K V → Option (K → K → Sign) → Option (Tree K V) × Option K
  rbtree_insert none x compare = (none, none)
  rbtree_insert (some t) x none = (some t, none)
  rbtree_insert (some t) x (some compare) = elim (place_by compare x t) [
    | none ↦ (some t, none)
    | some t' ↦ (some (rb.insert_color x.key t'), some x.key)
  ]

  unfoldable pub rbtree_erase :
      {S : Type 0}
      → Option (Tree K V)
      → Option S
      → Option (K → S → Sign)
      → Option (Tree K V) × Option K
  rbtree_erase none seed compare = (none, none)
  rbtree_erase (some t) none compare = (some t, none)
  rbtree_erase (some t) (some seed) none = (some t, none)
  rbtree_erase (some t) (some seed) (some compare) = elim (search_by compare seed t) [
    | none ↦ (some t, none)
    | some k ↦ (some (rb.erase k t), some k)
  ]

  -- The loop of `rbtree_foreach` from `begin` to `end`, with the state that the callback changes; the
  -- callback leaves the tree as it is. none means that the fuel ran out.
  unfoldable pub foreach_loop :
      {S : Type 0} → ℕ → (K → S → Bool × S) → Tree K V → K → K → S → Outcome (Option S)
  foreach_loop zero callback t begin end s = ok none
  foreach_loop (suc fuel) callback t begin end s =
      let r = callback begin s in
      if same o begin end
      then ok (some (r.1))
      else if r.0
      then ok (some (r.1))
      else elim (rb.next begin t) [
        | none ↦ crash
        | some next ↦ foreach_loop fuel callback t next end (r.1)
      ]

  unfoldable pub rbtree_foreach :
      {S : Type 0}
      → ℕ
      → Option (Tree K V)
      → Option (K → S → Bool × S)
      → S
      → Outcome (Option (Bool × S))
  rbtree_foreach fuel none callback s = ok (some (false, s))
  rbtree_foreach fuel (some t) none s = ok (some (false, s))
  rbtree_foreach fuel (some t) (some callback) s = elim (rb.first t) [
    | none ↦ ok (some (true, s))
    | some begin ↦ elim (rb.last t) [
      | none ↦ crash
      | some end ↦
          foreach_loop fuel callback t begin end s >>= (λ r. ok (Option.map (λ s'. (true, s')) r))
    ]
  ]

  -- The loop of `rbtree_size`, and the node of the end.
  unfoldable pub size_loop : ℕ → Tree K V → K → K → ℕ → Outcome (Option ℕ)
  size_loop zero t begin end count = ok none
  size_loop (suc fuel) t begin end count =
      if same o begin end then ok (some (count + 1)) else elim (rb.next begin t) [
        | none ↦ crash
        | some next ↦ size_loop fuel t next end (count + 1)
      ]

  unfoldable pub rbtree_size : ℕ → Option (Tree K V) → Outcome (Option ℕ)
  rbtree_size fuel none = ok (some 0)
  rbtree_size fuel (some t) = elim (rb.first t) [
    | none ↦ ok (some 0)
    | some begin ↦ elim (rb.last t) [ none ↦ crash | some end ↦ size_loop fuel t begin end 0 ]
  ]
