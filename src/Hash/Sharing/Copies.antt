-- ===== src/Hash/Sharing/Copies.antt =====
-- Copies of maps: a write to one does not show in the other, except where the map is empty.
use alias.Prelude.{
  ℕ, ◌+◌, ◌-◌, ◌%◌, ◌^◌, ◌≤◌, ◌<◌, ◌==◌, leb, ltb, ◌≡◌, sym, ap, ◌∙◌, ◌≢◌, Bool, true, false,
  Option, some, arith,
}
use alias.Outcome.{Outcome, ok, crash, Returns, ◌>>=◌}
use alias.Hash.Table.{Table, insert}
use alias.Hash.Table.Chains.{flat}
use alias.Hash.Table.Place.{Apart}
use alias.Hash.Table.Rehash.{IsValid}
use alias.Hash.Table.Insert.{Adds, insert-Adds}
use alias.Hash.Sharing.{
  Data, Store, load, store, update, acquire, free, release, copy, destroy, duplicate, detach_helper,
  detach, change, change_own, insert_shared,
}

module _ {K V : Type 0} where
  own_cell : (cell : ℕ → Option (Data K V)) (a : ℕ) (x : Option (Data K V)) → update cell a x a ≡ x
  own_cell cell a x = let same : (a == a) ≡ true = ground arith in rw same

  other_cell :
      (cell : ℕ → Option (Data K V)) (a b : ℕ) (x : Option (Data K V))
      → a ≢ b
      → update cell a x b ≡ cell b
  other_cell cell a b x ne = let differs : (a == b) ≡ false = ground arith in rw differs

  load-some : (a : ℕ) (s : Store K V) {x : Data K V} → s.cell a ≡ some x → load a s ≡ ok x
  load-some a s here = rw (here, load)

  abbrev counted : Data K V → ℕ → Data K V
  counted x n = record x { refs = n }

  copy_lem :
      (a : ℕ) (s : Store K V) (x : Data K V)
      → s.cell a ≡ some x
      → copy a s ≡ ok (a, store a (some (counted x ((x.refs + 1) % 2 ^ 32))) s)
  unfolding copy acquire
  copy_lem a s x here = rw (load-some a s here, copy, acquire)

  -- The copy of an empty map, made while the count of `shared_null` still is 2 ^ 32 - 1, takes that count
  -- to 0, and its destruction then frees `shared_null`, which was never allocated.
  pub destroy-copy :
      (s : Store K V) (x : Data K V)
      → s.cell 0 ≡ some x
      → x.refs ≡ 2 ^ 32 - 1
      → (copy 0 s >>= (λ r. destroy (r.0) (r.1))) ≡ crash
  unfolding destroy release free
  destroy-copy s x here full =
      let none_left : (x.refs + 1) % 2 ^ 32 ≡ 0 = omega arith in rw (copy_lem 0 s x here, none_left)

  -- The parts of a detachment of a shared table.
  release_lem :
      (a : ℕ) (s : Store K V) (x : Data K V)
      → s.cell a ≡ some x
      → 1 < x.refs
      → release a s ≡ ok (store a (some (counted x (x.refs - 1))) s)
  unfolding release
  release_lem a s x here more =
      let kept : leb x.refs 1 ≡ false = ground arith in rw (load-some a s here, kept, release)

  abbrev beside : ℕ → Data K V → Store K V → Store K V
  beside a x s = record s {
    next = s.next + 1;
    cell =
        update (update s.cell s.next (some (record { refs = 1; table = x.table }))) a
          (some (counted x (x.refs - 1)));
  }

  detach_lem :
      (a : ℕ) (s : Store K V) (x : Data K V)
      → s.cell a ≡ some x
      → 1 < x.refs
      → a ≢ 0
      → s.next ≢ a
      → detach a s ≡ ok (s.next, beside a x s)
  unfolding detach detach_helper duplicate
  detach_lem a s x here more some_map fresh =
      let shared : ltb 1 x.refs ≡ true = ground arith in
      let own : (a == 0) ≡ false = ground arith in
      let s' = record s {
        next = s.next + 1;
        cell = update s.cell s.next (some (record { refs = 1; table = x.table }));
      } in
      let there : s'.cell a ≡ some x = other_cell s.cell s.next a _ fresh ∙ here in
      rw (
        load-some a s here,
        shared,
        own,
        release_lem a s' x there more,
        detach,
        detach_helper,
        duplicate,
      )

  change_lem :
      (f : Table K V → Outcome (Table K V)) (a : ℕ) (s : Store K V) (x : Data K V) (t : Table K V)
      → s.cell a ≡ some x
      → f x.table ≡ ok t
      → change f a s ≡ ok (a, store a (some (record x { table = t })) s)
  unfolding change
  change_lem f a s x t here run = rw (load-some a s here, run, change)

  -- A change of a copy: what it leaves at the old address and at the copy's.
  change_copy :
      (f : Table K V → Outcome (Table K V)) (a : ℕ) (s : Store K V) (x : Data K V) (t : Table K V)
      → s.cell a ≡ some x
      → 1 ≤ x.refs
      → x.refs + 1 < 2 ^ 32
      → a ≢ 0
      → s.next ≢ a
      → f x.table ≡ ok t
      → Returns (copy a s >>= (λ r. change_own f (r.0) (r.1))) λ r.
        (r.0 ≢ a) × (r.1.cell a ≡ some x) × (r.1.cell (r.0) ≡ some (record { refs = 1; table = t }))
  change_copy f a s x t here owned small some_map fresh run =
      let x1 = counted x ((x.refs + 1) % 2 ^ 32) in
      let s1 = store a (some x1) s in
      let more : 1 < x1.refs = omega arith in
      let here1 : s1.cell a ≡ some x1 = own_cell s.cell a (some x1) in
      let new : Data K V = record { refs = 1; table = x.table } in
      let s2 = beside a x1 s1 in
      let there : s2.cell s.next ≡ some new =
        other_cell (update s1.cell s.next (some new)) a s.next (some (counted x1 (x1.refs - 1)))
          (λ e. fresh (sym e))
        ∙ own_cell s1.cell s.next (some new) in
      let done : Data K V = record { refs = 1; table = t } in
      let back : x1.refs - 1 ≡ x.refs = omega arith in
      (
        (s.next, store s.next (some done) s2),
        rw (
          copy_lem a s x here,
          detach_lem a s1 x1 here1 more some_map fresh,
          change_lem f s.next s2 new t there run,
        ),
        (
          fresh,
          other_cell s2.cell s.next a (some done) fresh
              ∙ own_cell (update s1.cell s.next (some new)) a (some (counted x1 (x1.refs - 1)))
              ∙ ap (λ n. some (counted x n)) back,
          own_cell s2.cell s.next (some done),
        ),
      )

module _ {K V : Type 0} (beq : K → K → Bool) (beq_iff : (a b : K) → beq a b ≡ true → a ≡ b)
    (beq_refl : (a : K) → beq a a ≡ true) (hash : K → ℕ) where
  -- `insert` into a copy of a map that is not empty: the copy has its own table from then on, with the
  -- new key, and the table of the original, with its count, is what it was before the copy. The table
  -- is valid, no node has the hash that lies at the end of the chains, the count has room, and the
  -- table has fewer than 30 bits and fewer than 2 ^ 31 - 1 nodes.
  pub insert_shared-copy :
      (end_hash : ℕ) (k : K) (v : V) (a : ℕ) (s : Store K V) (x : Data K V)
      → s.cell a ≡ some x
      → 1 ≤ x.refs
      → x.refs + 1 < 2 ^ 32
      → a ≢ 0
      → s.next ≢ a
      → IsValid x.table
      → Apart end_hash (flat x.table.buckets)
      → x.table.num_bits < 30
      → x.table.size + 1 < 2 ^ 31
      → Returns (copy a s >>= (λ r. insert_shared beq hash end_hash k v (r.0) (r.1))) λ r.
        (r.0 ≢ a)
        × (r.1.cell a ≡ some x)
        × ((y : Data K V) × (r.1.cell (r.0) ≡ some y)
            × Adds beq beq_iff beq_refl hash k v x.table y.table)
  unfolding insert_shared
  insert_shared-copy end_hash k v a s x here owned small some_map fresh valid apart few room =
      let (t, run, adds) =
        insert-Adds beq beq_iff beq_refl hash end_hash x.table valid apart k v few room in
      let (r, all, (apart_from, kept, new)) =
        change_copy (insert beq hash end_hash k v) a s x t here owned small some_map fresh run in
      (r, all, (apart_from, kept, (record { refs = 1; table = t }, new, adds)))
