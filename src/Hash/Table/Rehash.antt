-- ===== src/Hash/Table/Rehash.antt =====
-- `rehash` moves every node to its new chain and keeps what is found.
use alias.Prelude.{
  ℕ, ◌%◌, ◌^◌, ◌≤◌, ◌<◌, ◌==◌, ◌≡◌, refl, ap, ◌∙◌, Bool, List, [], length, get_or, replicate, arith,
  Bool-cases, inl, inr, length-replicate,
}
use alias.Outcome.{Returns}
use alias.Hash.{Hint, prime_at}
use alias.Hash.Sizes.{prime_pos, prime_for_num_bits_lem, FitsInt, target_bits-enough}
use alias.Hash.Table.{Node, Table, num_buckets, change_bits, rehash, find_in, chain_of}
use alias.Hash.Table.Chains.{
  flat, select, flat-replicate, get_or-replicate, at_home, IsPlaced, select-at_home, find_in-flat,
  find_in-select,
}
use alias.Hash.Table.Place.{
  place, length-place, Apart, move_all-place, chain-place, length-flat-place,
}

module _ {K V : Type 0} where
  -- Each node stands in the chain of its hash, and `size` is the number of nodes.
  pub record IsValid (t : Table K V) : Type 0 where
    pub placed : IsPlaced t.buckets
    pub counted : t.size ≡ length (flat t.buckets)

  -- A table with the same nodes in other chains, and what is found in it.
  pub record Moves (beq : K → K → Bool) (t r : Table K V) : Type 0 where
    pub valid : IsValid r
    pub size : r.size ≡ t.size
    pub finds :
        (k : K) (h : ℕ)
        → find_in beq k h (chain_of r.buckets h) ≡ find_in beq k h (chain_of t.buckets h)

  module _ (beq : K → K → Bool) (end_hash : ℕ) (t : Table K V) (v : IsValid t)
      (apart : Apart end_hash (flat t.buckets)) where
    pub change_bits-Moves :
        (b : ℕ)
        → b ≤ 30
        → Returns
            (change_bits end_hash b t)
            λ r. Moves beq t r × (num_buckets r ≡ prime_at b) × (0 < num_buckets r)
    unfolding change_bits
    change_bits-Moves b le =
        let p = prime_at b in
        let fresh = replicate {A = List (Node K V)} p [] in
        let len : length fresh ≡ p = length-replicate p [] in
        let pos : 0 < length fresh = omega (arith, prime_pos b) in
        let bs = place (flat t.buckets) fresh in
        let same : length bs ≡ p = length-place (flat t.buckets) fresh ∙ len in
        let chain : (j : ℕ) → get_or bs j [] ≡ select (at_home p j) (flat t.buckets) =
          λ j. chain-place (flat t.buckets) fresh j pos ∙ rw (get_or-replicate p j, len) in
        (
          record t { buckets = bs; num_bits = b },
          rw (
            prime_for_num_bits_lem b le,
            change_bits,
            move_all-place end_hash t.buckets fresh apart pos,
          ),
          (
            record {
              valid = record {
                placed = λ j. rw (same, chain j) (select-at_home p j (flat t.buckets));
                counted = omega (
                  arith,
                  v.counted,
                  length-flat-place (flat t.buckets) fresh pos,
                  ap length (flat-replicate {A = Node K V} p),
                );
              };
              size = refl;
              finds = λ k h.
                  rw (same, chain (h % p)) (find_in-select beq k h p (flat t.buckets))
                  ∙ find_in-flat beq k h t.buckets v.placed;
            },
            same,
            omega (arith, prime_pos b),
          ),
        )

    -- `rehash` of a valid table returns a valid table with the same number of nodes, in which every key
    -- is found as before, if no node has the hash that lies at the end of the chains. The hint is at
    -- most 30 bits or a capacity of at most 2 ^ 30 + 3, and there are fewer than 2 ^ 31 buckets: the
    -- `int`s do not overflow.
    pub rehash-Moves :
        (hint : Hint)
        → FitsInt hint
        → num_buckets t < 2 ^ 31
        → Returns (rehash end_hash hint t) (Moves beq t)
    unfolding rehash
    rehash-Moves hint fit few =
        let (b, target, _, le, _) = target_bits-enough hint (num_buckets t) fit few in
        elim (Bool-cases (t.num_bits == b)) [
          | inl e ↦ (t, rw (target, e), record { valid = v; size = refl; finds = λ k h. refl })
          | inr e ↦
              let (r, run, (moves, _, _)) = change_bits-Moves b le in (r, rw (target, e) run, moves)
        ]
