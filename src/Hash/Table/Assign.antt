-- ===== src/Hash/Table/Assign.antt =====
-- Writing through `at(key)`.
use native.Mathlib.Nat.{mod-lt}
use alias.Prelude.{
  or_else, ℕ, ◌+◌, ◌^◌, ◌%◌, ◌<◌, ◌==◌, if◌then◌else◌, ◌≡◌, refl, ap, ◌∙◌, Bool, true, false, List,
  [], ◌∷◌, Option, none, some, length, get_or, All, arith, Bool-cases, inl, inr, length-set,
  get_or-set_self, get_or-set_ne,
}
use alias.Outcome.{Returns}
use alias.Hash.Table.{
  Node, Table, num_buckets, chain_of, same_key_with, find_in, write_in, find, write_at, assign_at,
}
use alias.Hash.Table.Chains.{flat}
use alias.Hash.Table.Place.{Apart}
use alias.Hash.Table.Rehash.{IsValid}
use alias.Hash.Table.Insert.{value_of, lookup, insert-Adds, length-flat-set_same}

module _ {K V : Type 0} (beq : K → K → Bool) (k : K) (h : ℕ) (v : V) where
  length-write_in : (c : List (Node K V)) → length (write_in beq k h v c) ≡ length c
  unfolding write_in
  length-write_in [] = refl
  length-write_in (x ∷ xs) = elim (Bool-cases (same_key_with beq k h x)) [
    | inl e ↦ rw e
    | inr e ↦ rw (e, length-write_in xs)
  ]

  All-write_in :
      (n j : ℕ) (c : List (Node K V))
      → All (λ x. x.hash % n ≡ j) c
      → All (λ x. x.hash % n ≡ j) (write_in beq k h v c)
  unfolding write_in
  All-write_in n j [] all = tt
  All-write_in n j (x ∷ xs) all = elim (Bool-cases (same_key_with beq k h x)) [
    | inl e ↦ rw e (all.0, all.1)
    | inr e ↦ rw e (all.0, All-write_in n j xs all.1)
  ]

  same_written :
      (q : K) (hq : ℕ) (x : Node K V)
      → same_key_with beq q hq (record x { value = v }) ≡ same_key_with beq q hq x
  unfolding same_key_with
  same_written q hq x = refl

  find_written :
      (c : List (Node K V)) (w : V)
      → value_of (find_in beq k h c) ≡ some w
      → value_of (find_in beq k h (write_in beq k h v c)) ≡ some v
  unfolding write_in find_in
  find_written [] w e = cc
  find_written (x ∷ xs) w e = elim (Bool-cases (same_key_with beq k h x)) [
    | inl s ↦ rw (s, same_written k h x, s)
    | inr s ↦ rw (s, s) (find_written xs w (rw s at e))
  ]

  module _ (beq_iff : (a b : K) → beq a b ≡ true → a ≡ b) where
    find_unwritten :
        (q : K) (hq : ℕ) (c : List (Node K V))
        → beq q k ≡ false
        → find_in beq q hq (write_in beq k h v c) ≡ find_in beq q hq c
    unfolding write_in find_in
    find_unwritten q hq [] other = refl
    find_unwritten q hq (x ∷ xs) other = elim (Bool-cases (same_key_with beq k h x)) [
      | inl s ↦
          let key : beq k x.key ≡ true = unfold same_key_with in ground arith in
          let skip : same_key_with beq q hq x ≡ false =
            unfold same_key_with in rw (← beq_iff k x.key key, other) in
          rw (s, same_written q hq x, skip)
      | inr s ↦
          rw s (
            ap (λ o. if same_key_with beq q hq x then some x else o) (find_unwritten q hq xs other))
    ]

module _ {K V : Type 0} (beq : K → K → Bool) (beq_iff : (a b : K) → beq a b ≡ true → a ≡ b)
    (beq_refl : (a : K) → beq a a ≡ true) (hash : K → ℕ) where
  some_bucket :
      (h : ℕ) (k : K) (bs : List (List (Node K V))) (w : V)
      → value_of (find_in beq k h (chain_of bs h)) ≡ some w
      → 0 < length bs
  unfolding find_in
  some_bucket h k [] w e = cc
  some_bucket h k (b ∷ bs) w e = omega arith

  module _ (k : K) (v w : V) (t : Table K V) (valid : IsValid t)
      (there : lookup beq beq_iff beq_refl hash k t ≡ some w) where
    pos : 0 < num_buckets t
    unfolding find
    pos = some_bucket (hash k) k t.buckets w there

    abbrev written : List (Node K V)
    written = write_in beq k (hash k) v (chain_of t.buckets (hash k))

    chain_at :
        (j : ℕ)
        → get_or (write_at beq hash k v t).buckets j []
          ≡ (if hash k % num_buckets t == j then written else get_or t.buckets j [])
    unfolding write_at
    chain_at j = elim (Bool-cases (hash k % num_buckets t == j)) [
      | inl e ↦
          let q : hash k % num_buckets t ≡ j = ground arith in
          rw (e, ← q)
            (get_or-set_self t.buckets (hash k % num_buckets t) written [] (mod-lt (hash k) pos))
      | inr e ↦ rw e (get_or-set_ne t.buckets written [] (ground arith))
    ]

    width : num_buckets (write_at beq hash k v t) ≡ num_buckets t
    unfolding write_at
    width = length-set t.buckets (hash k % num_buckets t) written

    write_at-IsValid : IsValid (write_at beq hash k v t)
    write_at-IsValid = record {
      placed = λ j.
          rw (width, chain_at j)
            (elim (Bool-cases (hash k % num_buckets t == j)) [
              | inl e ↦
                  let q : hash k % num_buckets t ≡ j = ground arith in
                  rw (e, ← q)
                    (All-write_in beq k (hash k) v (num_buckets t) (hash k % num_buckets t)
                      (chain_of t.buckets (hash k)) (valid.placed (hash k % num_buckets t)))
              | inr e ↦ rw e (valid.placed j)
            ]);
      counted =
          unfold write_at in
          omega (
            arith,
            valid.counted,
            length-flat-set_same t.buckets (hash k % num_buckets t) written
                (length-write_in beq k (hash k) v (chain_of t.buckets (hash k))),
          );
    }

    lookup-write_at :
        (q : K)
        → lookup beq beq_iff beq_refl hash q (write_at beq hash k v t)
          ≡ (if beq q k then some v else lookup beq beq_iff beq_refl hash q t)
    unfolding find
    lookup-write_at q =
        rw (width, chain_at (hash q % num_buckets t))
          (elim (Bool-cases (beq q k)) [
            | inl e ↦
                let same : q ≡ k = beq_iff q k e in
                let home : (hash k % num_buckets t == hash k % num_buckets t) ≡ true =
                  ground arith in
                rw (e, same, home)
                  (find_written beq k (hash k) v (chain_of t.buckets (hash k)) w there)
            | inr e ↦ elim (Bool-cases (hash k % num_buckets t == hash q % num_buckets t)) [
              | inl s ↦
                  let home : hash k % num_buckets t ≡ hash q % num_buckets t = ground arith in
                  rw (
                    e,
                    s,
                    home,
                    find_unwritten beq k (hash k) v beq_iff q (hash q)
                        (get_or t.buckets (hash q % num_buckets t) []) e,
                  )
              | inr s ↦ rw (e, s)
            ]
          ])

  -- A table that shows another map.
  pub record Shows (f : K → Option V) (r : Table K V) : Type 0 where
    pub valid : IsValid r
    pub lookups : (q : K) → lookup beq beq_iff beq_refl hash q r ≡ f q

  -- Writing `v` through `at(k)` of a valid table returns a valid table, in which `k` has the value `v`
  -- and every other key what it had, if no node has the hash that lies at the end of the chains, and
  -- the table has fewer than 30 bits and fewer than 2 ^ 31 - 1 nodes.
  pub assign_at-Shows :
      (initial : V) (end_hash : ℕ) (k : K) (v : V) (t : Table K V)
      → IsValid t
      → Apart end_hash (flat t.buckets)
      → t.num_bits < 30
      → t.size + 1 < 2 ^ 31
      → Returns
          (assign_at beq hash initial end_hash k v t)
          (Shows λ q. if beq q k then some v else lookup beq beq_iff beq_refl hash q t)
  unfolding assign_at
  assign_at-Shows initial end_hash k v t valid apart few room =
      let (r, run, i) =
        insert-Adds beq beq_iff beq_refl hash end_hash t valid apart k initial few room in
      let (w, there) = known (lookup beq beq_iff beq_refl hash k t) initial in
      let found : lookup beq beq_iff beq_refl hash k r ≡ some w =
        i.lookups k ∙ rw (beq_refl k, there) in
      (
        write_at beq hash k v r,
        rw run,
        record {
          valid = write_at-IsValid k v w r i.valid found;
          lookups = λ q.
              lookup-write_at k v w r i.valid found q
              ∙ elim (Bool-cases (beq q k)) [ inl e ↦ rw e | inr e ↦ rw e (i.lookups q ∙ rw e) ];
        },
      )
    where
      known : (o : Option V) (v : V) → (w : V) × (or_else o (some v) ≡ some w)
      known none v = (v, refl)
      known (some w) v = (w, refl)
