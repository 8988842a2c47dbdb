-- ===== src/Map/Data.antt =====
-- `MapData` of utils/include/utils/map_node.h.
use alias.Prelude.{ℕ, zero, suc, ◌+◌, ◌-◌, false, if◌then◌else◌, Option, none, some}
use mathlib.Core.Option
use alias.Outcome.{Outcome, ok, throws}
use alias.Map.Lists.{Entry, Order, same}
use alias.Map.Tree.{Tree, leaf, node, find_node, place, RedBlack}

-- How `createNode` ends: with a node, with an exception of a constructor, which it catches, or with
-- `bad_alloc`.
pub data Creation : Type 0 where
  made : Creation
  caught : Creation
  no_memory : Creation

pub record MapData (K V : Type 0) : Type 0 where
  pub root : Tree K V
  pub node_count : ℕ

-- `CreateData`
unfoldable pub create : {K V : Type 0} → MapData K V
create = record { root = leaf; node_count = 0 }

module _ {K V : Type 0} (o : Order K) (rb : RedBlack K V o) where
  -- The end of `insert`: the node is linked where the walk ended, or freed again.
  unfoldable pub link : K → MapData K V → Option (Tree K V) → MapData K V × Option K
  link k d none = (d, none)
  link k d (some t) = (record { root = rb.insert_color k t; node_count = d.node_count + 1 }, some k)

  -- `insert`, and the node that it returns, absent for null
  unfoldable pub insert : Creation → K → V → MapData K V → Outcome (MapData K V × Option K)
  insert Creation.no_memory k v d = throws
  insert Creation.caught k v d = ok (d, none)
  insert Creation.made k v d = ok (link k d (place o (record { key = k; value = v }) d.root))

  unfoldable pub find : K → MapData K V → Option (Entry K V)
  find k d = find_node o k d.root

  -- `nextNode`, with `end()` absent
  unfoldable pub next_node : K → MapData K V → Option K
  next_node k d =
      if (elim (rb.last d.root) [ none ↦ false | some j ↦ same o j k ])
      then none
      else rb.next k d.root

  -- `erase` of a node of the tree, which is not checked: the map, and the node behind it
  unfoldable pub erase_node : K → MapData K V → MapData K V × Option K
  erase_node k d =
      (record { root = rb.erase k d.root; node_count = d.node_count - 1 }, next_node k d)

  -- `erase` of a key
  unfoldable pub erase : K → MapData K V → MapData K V × Option K
  erase k d = elim (find k d) [ none ↦ (d, none) | some e ↦ erase_node e.key d ]

  -- The loop of `clear`; none means that the fuel ran out.
  unfoldable pub clear_loop : ℕ → Tree K V → Option (Tree K V)
  clear_loop zero t = none
  clear_loop (suc fuel) leaf = some leaf
  clear_loop (suc fuel) (node l e r) = clear_loop fuel (rb.erase e.key (node l e r))

  unfoldable pub clear : ℕ → MapData K V → Option (MapData K V)
  clear fuel d = Option.map (λ t. record { root = t; node_count = 0 }) (clear_loop fuel d.root)
