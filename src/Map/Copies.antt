-- ===== src/Map/Copies.antt =====
-- Copies of maps: what a change of a copy leaves of the original, and an iterator from before the copy.
use alias.Prelude.{
  ℕ, ◌+◌, ◌-◌, ◌%◌, ◌^◌, ◌<◌, ◌==◌, ltb, ◌≡◌, refl, ◌≢◌, true, false, if◌then◌else◌, Option, none,
  some, or_else, arith, ◌∙◌, sym, ap,
}
use mathlib.Core.Option
use mathlib.Core.Path.{subst}
use alias.Outcome.{Outcome, ok, Returns, ◌>>=◌}
use alias.Map.Lists.{Order, IsSorted, same, lookup}
use alias.Map.Tree.{to_list, RedBlack, place, place-Walks}
use alias.Map.Data.{Creation, MapData, link, insert}
use alias.Map.Contents.{IsValid, shown, insert_walk}
use alias.Map.Sharing.{
  Iterator, Owned, Store, update, store, load, ref, deref, allocate, copy, detach_helper, detach,
  change, after_detach, insert_shared,
}
use alias.Map.Copying.{copy_nodes-copies}

module _ {K V : Type 0} where
  own_cell :
      (cell : ℕ → Option (Owned K V)) (a : ℕ) (x : Option (Owned K V)) → update cell a x a ≡ x
  own_cell cell a x = let equal : (a == a) ≡ true = ground arith in rw equal

  other_cell :
      (cell : ℕ → Option (Owned K V)) (a b : ℕ) (x : Option (Owned K V))
      → a ≢ b
      → update cell a x b ≡ cell b
  other_cell cell a b x ne = let differs : (a == b) ≡ false = ground arith in rw differs

  load-some : (a : ℕ) (s : Store K V) {x : Owned K V} → s.cell a ≡ some x → load a s ≡ ok x
  load-some a s here = rw (here, load)

  change_lem :
      {R : Type 0} (f : MapData K V → Outcome (MapData K V × R)) (a : ℕ) (s : Store K V)
      (x : Owned K V) {r : MapData K V × R}
      → s.cell a ≡ some x
      → f x.map ≡ ok r
      → change f a s ≡ ok (r.1, a, store a (some (record x { map = r.0 })) s)
  change_lem f a s x here run = rw (load-some a s here, run)

  deref-ref : (x : Owned K V) → x.refs + 1 < 2 ^ 32 → deref (ref x) ≡ x
  unfolding deref ref
  deref-ref x room =
      let back : (x.refs + 1) % 2 ^ 32 - 1 ≡ x.refs = omega arith in
      ap (λ n. record x { refs = n }) back

  copy_lem :
      (a : ℕ) (s : Store K V) (x : Owned K V)
      → s.cell a ≡ some x
      → copy (some a) s ≡ ok (some a, store a (some (ref x)) s)
  unfolding copy
  copy_lem a s x here = rw (load-some a s here, copy)

module _ {K V : Type 0} (o : Order K) (rb : RedBlack K V o) (made_of : K → V → Creation)
    (made : (k : K) (x : V) → made_of k x ≡ Creation.made) where
  -- `detach` of a map that is shared.
  detach_shared :
      (a : ℕ) (s : Store K V) (x : Owned K V)
      → s.cell a ≡ some x
      → 0 < x.refs
      → IsValid o x.map
      → (d : MapData K V) × (detach o rb made_of x.map.node_count (some a) s
          ≡ ok (some (allocate d (store a (some (deref x)) s))))
        × (to_list d.root ≡ to_list x.map.root)
        × IsValid o d
  unfolding detach detach_helper
  detach_shared a s x here more v =
      let (d, run, entries, count) = copy_nodes-copies o rb made_of made x.map v in
      let shared : ltb 0 x.refs ≡ true = ground arith in
      (
        d,
        rw (load-some a s here, shared, detach_helper, run),
        entries,
        record { sorted = subst (IsSorted o) (sym entries) v.sorted; counted = count },
      )

  -- A change of a copy.
  module _ (a : ℕ) (s : Store K V) (x : Owned K V) (here : s.cell a ≡ some x)
      (room : x.refs + 1 < 2 ^ 32) (fresh : s.next ≢ a) (v : IsValid o x.map) where
    copied : Store K V
    copied = store a (some (ref x)) s

    change_copy :
        {R : Type 0} (f : (b : ℕ) → Store K V → Outcome R)
        → (d : MapData K V) × ((copy (some a) s
              >>= (λ r. after_detach o rb made_of x.map.node_count (r.0) f (r.1)))
            ≡ (f s.next (allocate d (store a (some (deref (ref x))) copied)).1
                >>= (λ r. ok (some r))))
          × (to_list d.root ≡ to_list x.map.root)
          × IsValid o d
    unfolding copied ref
    change_copy f =
        let more : 0 < (ref x).refs = omega arith in
        let (d, run, entries, valid) =
          detach_shared a copied (ref x) (own_cell s.cell a (some (ref x))) more v in
        (d, rw (copy_lem a s x here, run), entries, valid)

    -- `insert` into a copy of a map: the copy has its own `MapData` from then on, where the key maps
    -- to the value unless it was there, and the original, with its count, is what it was before the
    -- copy. The map is valid, no constructor throws, and the count has room.
    pub insert_shared-shown :
        (k : K) (z : V)
        → Returns
            (copy (some a) s >>= (λ r. insert_shared o rb made_of x.map.node_count k z (r.0) (r.1)))
            λ r.
              (answer : Option K) × (b : ℕ) × (s' : Store K V) × (y : Owned K V) × (r
                ≡ some (answer, b, s'))
              × (b ≢ a)
              × (s'.cell a ≡ some x)
              × (s'.cell b ≡ some y)
              × IsValid o y.map
              × ((j : K)
                  → shown o y.map j
                    ≡ or_else (shown o x.map j) (if same o j k then some z else none))
    unfolding insert_shared insert shown copied
    insert_shared-shown k z =
        let (d, run, entries, valid) = change_copy (change (insert o rb (made_of k z) k z)) in
        let r = link o rb k d (place o (record { key = k; value = z }) d.root) in
        let ends = insert_walk o rb d valid k z (place-Walks o _ d.root) in
        let s1 = (allocate d (store a (some (deref (ref x))) copied)).1 in
        let old : s1.cell a ≡ some x =
          other_cell (store a (some (deref (ref x))) copied).cell s.next a _ fresh
          ∙ own_cell copied.cell a (some (deref (ref x)))
          ∙ ap some (deref-ref x room) in
        let new : s1.cell s.next ≡ some (record { refs = 0; map = d }) =
          own_cell (store a (some (deref (ref x))) copied).cell s.next _ in
        let y : Owned K V = record { refs = 0; map = r.0 } in
        let s2 = store s.next (some y) s1 in
        let changed =
          change_lem (insert o rb (made_of k z) k z) s.next s1 _ new (rw (made k z) refl) in
        (
          some (r.1, s.next, s2),
          run ∙ rw changed refl,
          (
            r.1,
            s.next,
            s2,
            y,
            refl,
            fresh,
            other_cell s1.cell s.next a (some y) fresh ∙ old,
            own_cell s1.cell s.next (some y),
            ends.valid,
            λ j.
                ends.shows j
                ∙ ap (λ es. or_else (lookup o j es) (if same o j k then some z else none)) entries,
          ),
        )

    -- What `erase` of the original's node does after the copy has its own tree: the original's tree is
    -- the one that is changed, behind its count, and the copy's count goes down.
    pub record Strays (k : K) (r : Option (Iterator K × ℕ × Store K V)) : Type 0 where
      pub own : MapData K V
      pub entries : to_list (own.root) ≡ to_list (x.map.root)
      pub behind : Iterator K
      pub address : ℕ
      pub after : Store K V
      pub result : r ≡ some (behind, address, after)
      pub apart : address ≢ a
      pub original :
          after.cell a
          ≡ some (record x {
            map = record (x.map) { root = (rb.erase_foreign k (x.map.root) (own.root)).0 };
          })
      pub counted :
          after.cell address
          ≡ some (record {
            refs = 0;
            map = record {
              root = (rb.erase_foreign k (x.map.root) (own.root)).1;
              node_count = x.map.node_count - 1;
            };
          })
