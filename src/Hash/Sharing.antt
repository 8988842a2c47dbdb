-- ===== src/Hash/Sharing.antt =====
-- `HashMap` of utils/include/utils/hash.h as a pointer to a table that several maps may share, with the
-- reference counts of utils/include/utils/refcount.h and `detach_helper` of utils/src/hash.cpp. A map is
-- the address of its table; `shared_null`, the table of every empty map, is at address 0.
pub mod Copies
mod Tests
use alias.Prelude.{
  ℕ, zero, suc, ◌+◌, ◌-◌, ◌%◌, ◌^◌, ◌==◌, leb, ltb, if◌then◌else◌, Bool, true, false, List, [], ◌∷◌,
  ◌++◌, Option, none, some, length, replicate, max,
}
use alias.Outcome.{Outcome, ok, throws, crash, ◌>>=◌}
use alias.Hash.{Hint, bits, capacity, prime_at, min_num_bits}
use alias.Hash.Table.{Node, Table, shared_null, num_buckets, rehash, insert, assign_at, find, at_or}

pub record Data (K V : Type 0) : Type 0 where
  pub refs : ℕ
  pub table : Table K V

pub record Store (K V : Type 0) : Type 0 where
  pub next : ℕ
  pub cell : ℕ → Option (Data K V)

-- `swap` and the move constructor, on addresses.
pub swap : ℕ → ℕ → ℕ × ℕ
swap a other = (other, a)

pub move_from : ℕ → ℕ × ℕ
move_from other = (other, 0)

-- `-n` of `static_cast<int>(size)`
pub hint_of : ℕ → Hint
hint_of size =
    let w = size % 2 ^ 32 in
    if w == 0 then bits 0 else if ltb w (2 ^ 31) then capacity w else bits (2 ^ 32 - w)

module _ {K V : Type 0} where
  abbrev pub update : (ℕ → Option (Data K V)) → ℕ → Option (Data K V) → ℕ → Option (Data K V)
  update cell a x b = if a == b then x else cell b

  abbrev pub load : ℕ → Store K V → Outcome (Data K V)
  load a s = elim (s.cell a) [ none ↦ crash | some x ↦ ok x ]

  abbrev pub store : ℕ → Option (Data K V) → Store K V → Store K V
  store a x s = record s { cell = update s.cell a x }

  -- `RefCount::ref` and `deref`, on 32 bits; a table that loses its last owner is freed, which
  -- `shared_null`, an object that was not allocated, cannot be.
  pub acquire : ℕ → Store K V → Outcome (Store K V)
  acquire a s =
      load a s >>= (λ x. ok (store a (some (record x { refs = (x.refs + 1) % 2 ^ 32 })) s))

  pub free : ℕ → Store K V → Outcome (Store K V)
  free a s = if a == 0 then crash else ok (store a none s)

  pub release : ℕ → Store K V → Outcome (Store K V)
  release a s = load a s >>= (λ x.
      if leb x.refs 1 then free a s else ok (store a (some (record x { refs = x.refs - 1 })) s))

  -- The copy constructor, `operator=`, the destructor and `clear`, on addresses.
  pub copy : ℕ → Store K V → Outcome (ℕ × Store K V)
  copy a s = acquire a s >>= (λ s'. ok (a, s'))

  pub assign : ℕ → ℕ → Store K V → Outcome (ℕ × Store K V)
  assign a other s =
      if a == other then ok (a, s) else acquire other s >>= release a >>= (λ s'. ok (other, s'))

  pub destroy : ℕ → Store K V → Outcome (Store K V)
  destroy a s = release a s

  pub clear : ℕ → Store K V → Outcome (ℕ × Store K V)
  clear a s = release a s >>= (λ s'. ok (0, s'))

  -- The chains of a copy, which has the least number of buckets if the original is `shared_null`: more
  -- chains than that would be written behind its buckets.
  pub duplicate : ℕ → Table K V → Outcome (Table K V)
  duplicate a t =
      let n = prime_at min_num_bits in
      if a == 0
      then if leb (num_buckets t) n
        then ok (record t {
          buckets = t.buckets ++ replicate (n - num_buckets t) [];
          num_bits = min_num_bits;
        })
        else crash
      else ok t

  pub detach_helper : ℕ → Store K V → Outcome (ℕ × Store K V)
  detach_helper a s = load a s >>= (λ x. duplicate a x.table) >>= (λ t.
      let s' = record s {
        next = s.next + 1;
        cell = update s.cell s.next (some (record { refs = 1; table = t }));
      } in
      if a == 0 then ok (s.next, s') else release a s' >>= (λ s''. ok (s.next, s'')))

  pub detach : ℕ → Store K V → Outcome (ℕ × Store K V)
  detach a s = load a s >>= (λ x. if ltb 1 x.refs then detach_helper a s else ok (a, s))

  -- A change of the table at an address.
  pub change : (Table K V → Outcome (Table K V)) → ℕ → Store K V → Outcome (ℕ × Store K V)
  change f a s =
      load a s >>= (λ x. f x.table >>= (λ t. ok (a, store a (some (record x { table = t })) s)))

  abbrev pub change_own :
      (Table K V → Outcome (Table K V)) → ℕ → Store K V → Outcome (ℕ × Store K V)
  change_own f a s = detach a s >>= (λ r. change f (r.0) (r.1))

  pub reserve : ℕ → ℕ → ℕ → Store K V → Outcome (ℕ × Store K V)
  reserve end_hash size a s =
      if size == 0 then ok (a, s) else change_own (rehash end_hash (hint_of size)) a s

module _ {K V : Type 0} (beq : K → K → Bool) (hash : K → ℕ) where
  -- `insert`, `operator[]` with a write to its result, and `find` and `operator[]` of a constant map.
  pub insert_shared : ℕ → K → V → ℕ → Store K V → Outcome (ℕ × Store K V)
  insert_shared end_hash k v a s = change_own (insert beq hash end_hash k v) a s

  pub assign_shared : V → ℕ → K → V → ℕ → Store K V → Outcome (ℕ × Store K V)
  assign_shared initial end_hash k v a s = change_own (assign_at beq hash initial end_hash k v) a s

  pub find_shared : K → ℕ → Store K V → Outcome (Option (Node K V))
  find_shared k a s = load a s >>= (λ x. ok (find beq hash k x.table))

  pub at_shared : K → V → ℕ → Store K V → Outcome V
  at_shared k v a s = load a s >>= (λ x. ok (at_or beq hash k v x.table))

  -- The constructor from a list, which changes the size of `shared_null` itself before it inserts.
  pub insert_all : ℕ → List (K × V) → ℕ → Store K V → Outcome (ℕ × Store K V)
  insert_all end_hash [] a s = ok (a, s)
  insert_all end_hash (e ∷ es) a s =
      insert_shared end_hash (e.0) (e.1) a s >>= (λ r. insert_all end_hash es (r.0) (r.1))

  pub new_list : ℕ → List (K × V) → Store K V → Outcome (ℕ × Store K V)
  new_list end_hash es s =
      change (rehash end_hash (capacity (max (length es) 1))) 0 s
      >>= (λ r. insert_all end_hash es (r.0) (r.1))
