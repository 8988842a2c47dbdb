-- ===== src/Map/Sharing.antt =====
-- `Map` of utils/include/utils/map.h as a pointer to a `MapData` that several maps may share, with the
-- reference count of utils/include/utils/refcount.h, which is 0 for a sole owner. An iterator is the
-- address of the `MapData` with a node of it, and absent for null and `end()`.
use alias.Prelude.{
  Bool, List, [], ◌∷◌, ℕ, zero, suc, ◌+◌, ◌-◌, ◌%◌, ◌^◌, ◌==◌, ltb, if◌then◌else◌, Option, none,
  some,
}
use mathlib.Core.Option
use alias.Outcome.{Outcome, ok, throws, crash, ◌>>=◌}
use alias.Map.Lists.{Order}
use alias.Map.Tree.{find_node, RedBlack}
use alias.Map.Data.{Creation, MapData, create, insert, find, next_node, erase_node, erase, clear}

-- A `MapData` with its reference count.
pub record Owned (K V : Type 0) : Type 0 where
  pub refs : ℕ
  pub map : MapData K V

pub record Store (K V : Type 0) : Type 0 where
  pub next : ℕ
  pub cell : ℕ → Option (Owned K V)

abbrev pub Pointer : Type 0
Pointer = Option ℕ

abbrev pub Iterator : Type 0 → Type 0
Iterator K = Option (ℕ × K)

-- The address that a pointer holds, where it is followed.
abbrev pub follow : Pointer → Outcome ℕ
follow none = crash
follow (some a) = ok a

-- `operator=(Map &&)` of two objects
unfoldable pub move_assign : Pointer → Pointer → Pointer × Pointer
move_assign m other = (other, m)

module _ {K V : Type 0} where
  abbrev pub update : (ℕ → Option (Owned K V)) → ℕ → Option (Owned K V) → ℕ → Option (Owned K V)
  update cell a x b = if a == b then x else cell b

  abbrev pub store : ℕ → Option (Owned K V) → Store K V → Store K V
  store a x s = record s { cell = update s.cell a x }

  abbrev pub load : ℕ → Store K V → Outcome (Owned K V)
  load a s = elim (s.cell a) [ none ↦ crash | some x ↦ ok x ]

  -- `RefCount::ref` and `deref`
  unfoldable pub ref : Owned K V → Owned K V
  ref x = record x { refs = (x.refs + 1) % 2 ^ 32 }

  unfoldable pub deref : Owned K V → Owned K V
  deref x = record x { refs = x.refs - 1 }

  abbrev pub allocate : MapData K V → Store K V → ℕ × Store K V
  allocate d s = (
    s.next,
    record { next = s.next + 1; cell = update s.cell s.next (some (record { refs = 0; map = d })) },
  )

  -- `Map::Map()`
  unfoldable pub new_map : Store K V → Pointer × Store K V
  new_map s = let (a, s') = allocate create s in (some a, s')

  -- `Map::Map(const Map &)`
  unfoldable pub copy : Pointer → Store K V → Outcome (Pointer × Store K V)
  copy other s = follow other >>= (λ a. load a s >>= (λ x. ok (some a, store a (some (ref x)) s)))

  -- `Map::Map(Map &&)`: the new map, and the one that was moved from
  unfoldable pub move_from : Pointer → Store K V → Pointer × Pointer × Store K V
  move_from other s = let (a, s') = new_map s in (other, a, s')

  -- A change of the map after `detach`, and what it returns.
  abbrev pub change :
      {R : Type 0}
      → (MapData K V → Outcome (MapData K V × R))
      → ℕ
      → Store K V
      → Outcome (R × ℕ × Store K V)
  change f a s =
      load a s >>= (λ x. f x.map >>= (λ r. ok (r.1, a, store a (some (record x { map = r.0 })) s)))

module _ {K V : Type 0} (o : Order K) (rb : RedBlack K V o) where
  -- `destroy`; fuel is for the loop of `clear`, which the last owner runs before it frees the map.
  unfoldable pub destroy : ℕ → Pointer → Store K V → Outcome (Option (Store K V))
  destroy fuel none s = ok (some s)
  destroy fuel (some a) s = load a s >>= (λ x.
      if ltb 0 x.refs
      then ok (some (store a (some (deref x)) s))
      else ok (Option.map (λ _. store a none s) (clear o rb fuel x.map)))

  -- `operator=`, which destroys first, unless both are one object
  unfoldable pub assign :
      Bool → ℕ → Pointer → Pointer → Store K V → Outcome (Option (Pointer × Store K V))
  assign same_object fuel m other s =
      if same_object
      then ok (some (m, s))
      else destroy fuel m s
        >>= (λ d. elim d [ none ↦ ok none | some s' ↦ copy other s' >>= (λ r. ok (some r)) ])

  unfoldable pub clear_shared : ℕ → Pointer → Store K V → Outcome (Option (Pointer × Store K V))
  clear_shared fuel none s = ok (some (new_map s))
  clear_shared fuel (some a) s = load a s >>= (λ x.
      if ltb 0 x.refs
      then ok (some (new_map (store a (some (deref x)) s)))
      else ok (
          Option.map (λ d. (some a, store a (some (record x { map = d })) s))
            (clear o rb fuel x.map)))

  -- `erase` of an iterator with a node of another tree, at `b`, which is not checked: `rb_erase` works
  -- on the links of that tree with the root of the map's own one, whose count goes down, and the node
  -- behind is the other tree's.
  unfoldable pub erase_other : ℕ → K → ℕ → Store K V → Outcome (Iterator K × ℕ × Store K V)
  erase_other b k a s = load b s >>= (λ y. load a s >>= (λ x.
      let left = rb.erase_foreign k y.map.root x.map.root in
      let y' = record y { map = record (y.map) { root = left.0 } } in
      let x' = record x {
        map = record { root = left.1; node_count = (x.map.node_count + 2 ^ 64 - 1) % 2 ^ 64 };
      } in
      ok (
        Option.map (λ j. (b, j)) (rb.next k y.map.root),
        a,
        store a (some x') (store b (some y') s),
      )))

module _ {K V : Type 0} (o : Order K) (rb : RedBlack K V o) (made_of : K → V → Creation) where
  -- `Map::Map(std::initializer_list)`, which does not look at what `insert` returns
  unfoldable pub insert_list : List (K × V) → MapData K V → Outcome (MapData K V)
  insert_list [] d = ok d
  insert_list (e ∷ es) d =
      insert o rb (made_of (e.0) (e.1)) (e.0) (e.1) d >>= (λ r. insert_list es (r.0))

  unfoldable pub new_list : List (K × V) → Store K V → Outcome (Pointer × Store K V)
  new_list es s = insert_list es create >>= (λ d. let (a, s') = allocate d s in ok (some a, s'))

  -- The loop of `detach_helper` from a node of the old tree; none means that the fuel ran out. What
  -- `insert` returns is not looked at.
  unfoldable pub copy_nodes :
      ℕ → Option K → MapData K V → MapData K V → Outcome (Option (MapData K V))
  copy_nodes fuel none from to = ok (some to)
  copy_nodes zero (some k) from to = ok none
  copy_nodes (suc fuel) (some k) from to = elim (find_node o k from.root) [
    | none ↦ crash
    | some e ↦
        insert o rb (made_of e.key e.value) e.key e.value to
        >>= (λ r. copy_nodes fuel (next_node o rb k from) from (r.0))
  ]

  -- `detach_helper`
  unfoldable pub detach_helper : ℕ → ℕ → Store K V → Outcome (Option (ℕ × Store K V))
  detach_helper fuel a s = load a s >>= (λ x.
      copy_nodes fuel (rb.first x.map.root) x.map create
      >>= (λ d. ok (Option.map (λ d'. allocate d' (store a (some (deref x)) s)) d)))

  -- `detach`
  unfoldable pub detach : ℕ → Pointer → Store K V → Outcome (Option (ℕ × Store K V))
  detach fuel none s = ok (some (allocate create s))
  detach fuel (some a) s =
      load a s >>= (λ x. if ltb 0 x.refs then detach_helper fuel a s else ok (some (a, s)))

  abbrev pub after_detach :
      {R : Type 0} → ℕ → Pointer → (ℕ → Store K V → Outcome R) → Store K V → Outcome (Option R)
  after_detach fuel m f s =
      detach fuel m s
      >>= (λ d. elim d [ none ↦ ok none | some r ↦ f (r.0) (r.1) >>= (λ x. ok (some x)) ])

  -- `insert`, `erase` of a key, and the `find` of a map that is not constant
  unfoldable pub insert_shared :
      ℕ → K → V → Pointer → Store K V → Outcome (Option (Option K × ℕ × Store K V))
  insert_shared fuel k v m = after_detach fuel m (change (insert o rb (made_of k v) k v))

  unfoldable pub erase_shared :
      ℕ → K → Pointer → Store K V → Outcome (Option (Option K × ℕ × Store K V))
  erase_shared fuel k m = after_detach fuel m (change (λ d. ok (erase o rb k d)))

  unfoldable pub find_shared :
      ℕ → K → Pointer → Store K V → Outcome (Option (Iterator K × ℕ × Store K V))
  find_shared fuel k m =
      after_detach fuel m
        (λ a s. load a s >>= (λ x. ok (Option.map (λ e. (a, e.key)) (find o rb k x.map), a, s)))

  -- `erase` of an iterator
  unfoldable pub erase_at :
      ℕ → Iterator K → Pointer → Store K V → Outcome (Option (Iterator K × ℕ × Store K V))
  erase_at fuel none m = after_detach fuel m (λ a s. ok (none, a, s))
  erase_at fuel (some (b, k)) m = after_detach fuel m (λ a s.
      if a == b
      then change (λ d. let r = erase_node o rb k d in ok (r.0, Option.map (λ j. (a, j)) (r.1))) a s
      else erase_other o rb b k a s)

  -- `operator[]`, up to the reference that it returns
  unfoldable pub at : ℕ → K → V → Pointer → Store K V → Outcome (Option (Option K × ℕ × Store K V))
  at fuel k initial m = after_detach fuel m (
      change (λ d. elim (find o rb k d) [
        | some e ↦ ok (d, some e.key)
        | none ↦
            insert o rb (made_of k initial) k initial d
            >>= (λ r. elim (r.1) [ none ↦ throws | some j ↦ ok r ])
      ]))

  -- `value` and the constant `operator[]`, on the value behind the reference
  unfoldable pub value : K → V → Pointer → Store K V → Outcome V
  value k default m s = follow m >>= (λ a.
      load a s
      >>= (λ x. ok (Option.get_or (Option.map (λ e. e.value) (find o rb k x.map)) default)))
