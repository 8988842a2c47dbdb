-- ===== src/Hash/Table/Insert.antt =====
-- `insert` and `at` as operations on a map from keys to values.
use native.Mathlib.Nat.{mod-lt}
use alias.Prelude.{
  or_else, or_else-none, ℕ, zero, suc, ◌+◌, ◌-◌, ◌%◌, ◌^◌, lt→ltb, ◌≤◌, ◌<◌, ◌==◌, leb, ltb,
  if◌then◌else◌, ◌≡◌, refl, ◌≢◌, ◌⊎◌, sym, ap, ◌∙◌, Bool, true, false, ◌&&◌, List, [], ◌∷◌, ◌++◌,
  Option, none, some, length, get_or, All, arith, Bool-cases, Option-cases, inl, inr, append-nil,
  length-append, length-set, get_or-set_self, get_or-set_ne, All-append,
}
use alias.Prelude
use alias.Outcome.{Returns}
use alias.Hash.{target_bits}
use alias.Hash.Table.{
  Node, Table, num_buckets, chain_of, append_run, rehash, grow, add_node, create_node,
  same_key_with, find_in, find, new_node, insert,
}
use alias.Hash.Table.Chains.{flat, length-flat-set, find_in-append}
use alias.Hash.Table.Place.{Apart, length-append_run, chain-append_run}
use alias.Hash.Table.Rehash.{IsValid, Moves, change_bits-Moves}

module _ {K V : Type 0} where
  abbrev pub value_of : Option (Node K V) → Option V
  value_of none = none
  value_of (some n) = some n.value

  pub length-flat-set_same :
      (bs : List (List (Node K V))) (i : ℕ) (c : List (Node K V))
      → length c ≡ length (get_or bs i [])
      → length (flat (Prelude.set bs i c)) ≡ length (flat bs)
  length-flat-set_same [] i c e = refl
  length-flat-set_same (b ∷ bs) zero c e =
      omega (arith, length-append c (flat bs), length-append b (flat bs))
  length-flat-set_same (b ∷ bs) (suc i) c e = omega (
    arith,
    length-append b (flat (Prelude.set bs i c)),
    length-append b (flat bs),
    length-flat-set_same bs i c e,
  )

  module _ (end_hash : ℕ) (t : Table K V) (v : IsValid t)
      (apart : Apart end_hash (flat t.buckets)) where
    -- After `grow` there is a bucket.
    grow-Moves :
        (beq : K → K → Bool)
        → t.num_bits < 30
        → Returns (grow end_hash t) λ r. Moves beq t r × (0 < num_buckets r)
    unfolding grow rehash target_bits
    grow-Moves beq few = elim (Bool-cases (leb (num_buckets t) t.size)) [
      | inl full ↦
          let b = if ltb (t.num_bits + 1) 4 then 4 else t.num_bits + 1 in
          let more : (t.num_bits == b) ≡ false = ground arith in
          let (r, run, (moves, _, pos)) =
            change_bits-Moves beq end_hash t v apart b (ground arith) in
          (r, rw (full, more) run, (moves, pos))
      | inr room ↦
          (t, rw room, (record { valid = v; size = refl; finds = λ k h. refl }, ground arith))
    ]

  add_node-IsValid :
      (n : Node K V) (t : Table K V) → IsValid t → 0 < num_buckets t → IsValid (add_node n t)
  unfolding add_node
  add_node-IsValid n t v pos = record {
    placed = λ j.
        rw
          (
            length-append_run n.hash (n ∷ []) t.buckets,
            chain-append_run n.hash (n ∷ []) t.buckets j pos,
          )
          (All-append (λ x. x.hash % num_buckets t ≡ j) (get_or t.buckets j []) _ (v.placed j)
            (elim (Bool-cases (n.hash % num_buckets t == j)) [
              | inl e ↦ rw e (ground arith, tt)
              | inr e ↦ rw e tt
            ]));
    counted =
        unfold append_run in
        omega (
          arith,
          v.counted,
          length-flat-set t.buckets (n.hash % num_buckets t) (n ∷ []) (mod-lt n.hash pos),
        );
  }

module _ {K V : Type 0} (beq : K → K → Bool) (beq_iff : (a b : K) → beq a b ≡ true → a ≡ b)
    (beq_refl : (a : K) → beq a a ≡ true) (hash : K → ℕ) where
  abbrev pub lookup : K → Table K V → Option V
  lookup q t = value_of (find beq hash q t)

  same_self : (k : K) (v : V) → same_key_with beq k (hash k) (new_node beq hash k v) ≡ true
  unfolding same_key_with
  same_self k v = ground (arith, beq_refl k)

  same_other :
      (q k : K) (v : V)
      → beq q k ≡ false
      → same_key_with beq q (hash q) (new_node beq hash k v) ≡ false
  unfolding same_key_with
  same_other q k v e = rw e

  -- What is found with a chain's last node new.
  module _ (k : K) (v : V) (c : List (Node K V)) where
    find_new :
        find_in beq k (hash k) c ≡ none
        → value_of (find_in beq k (hash k) (c ++ new_node beq hash k v ∷ [])) ≡ some v
    unfolding find_in
    find_new absent =
        rw (find_in-append beq k (hash k) c (new_node beq hash k v ∷ []), absent, same_self k v)

    find_old :
        (q : K)
        → beq q k ≡ false
        → find_in beq q (hash q) (c ++ new_node beq hash k v ∷ []) ≡ find_in beq q (hash q) c
    unfolding find_in
    find_old q e =
        find_in-append beq q (hash q) c (new_node beq hash k v ∷ [])
        ∙ rw (same_other q k v e) (or_else-none (find_in beq q (hash q) c))

  module _ (k : K) (v : V) (t : Table K V) (pos : 0 < num_buckets t) where
    after_chain :
        (q : K)
        → chain_of (add_node (new_node beq hash k v) t).buckets (hash q)
          ≡ chain_of t.buckets (hash q)
            ++ (if hash k % num_buckets t == hash q % num_buckets t
                then new_node beq hash k v ∷ []
                else [])
    unfolding add_node
    after_chain q = rw (length-append_run (hash k) (new_node beq hash k v ∷ []) t.buckets) (
        chain-append_run (hash k) (new_node beq hash k v ∷ []) t.buckets (hash q % num_buckets t)
          pos)

    lookup_new : find beq hash k t ≡ none → lookup k (add_node (new_node beq hash k v) t) ≡ some v
    unfolding find
    lookup_new absent =
        let home : (hash k % num_buckets t == hash k % num_buckets t) ≡ true = ground arith in
        rw (after_chain k, home) (find_new k v (chain_of t.buckets (hash k)) absent)

    lookup_old :
        (q : K) → beq q k ≡ false → lookup q (add_node (new_node beq hash k v) t) ≡ lookup q t
    unfolding find
    lookup_old q e = elim (Bool-cases (hash k % num_buckets t == hash q % num_buckets t)) [
      | inl s ↦ rw (after_chain q, s, find_old k v (chain_of t.buckets (hash q)) q e)
      | inr s ↦ rw (after_chain q, s, append-nil (chain_of t.buckets (hash q)))
    ]

  -- What an insertion does to the map.
  pub record Adds (k : K) (v : V) (t r : Table K V) : Type 0 where
    pub valid : IsValid r
    pub size : r.size ≡ t.size + (elim (lookup k t) [ none ↦ 1 | some w ↦ 0 ])
    pub lookups :
        (q : K) → lookup q r ≡ (if beq q k then or_else (lookup k t) (some v) else lookup q t)

  module _ (end_hash : ℕ) (t : Table K V) (valid : IsValid t)
      (apart : Apart end_hash (flat t.buckets)) where
    lookup_grown : (r : Table K V) → Moves beq t r → (q : K) → find beq hash q r ≡ find beq hash q t
    unfolding find
    lookup_grown r moves q = moves.finds q (hash q)

    -- `insert` into a valid table returns a valid table: a key that was not there has the new value, a
    -- key that was there keeps its old one, no other key is touched, and `size` counts the new key. It
    -- is taken for granted that no node has the hash that lies at the end of the chains, and that the
    -- `int`s have room: the table has fewer than 30 bits, and fewer than 2 ^ 31 - 1 nodes.
    pub insert-Adds :
        (k : K) (v : V)
        → t.num_bits < 30
        → t.size + 1 < 2 ^ 31
        → Returns (insert beq hash end_hash k v t) (Adds k v t)
    unfolding insert create_node add_node
    insert-Adds k v few room = elim (Option-cases (find beq hash k t)) [
      | inr (n, e) ↦ (
        t,
        rw (e, insert),
        record {
          valid = valid;
          size = rw e (omega arith);
          lookups = λ q. rw e (elim (Bool-cases (beq q k)) [
            | inl s ↦ let same : q ≡ k = beq_iff q k s in rw (s, same, e)
            | inr s ↦ rw s
          ]);
        },
      )
      | inl e ↦
          let (g, run, (moves, pos)) = grow-Moves end_hash t valid apart beq few in
          let counts : ltb (g.size + 1) (2 ^ 31) ≡ true =
            lt→ltb _ _ (omega (arith, moves.size, room)) in
          let absent : find beq hash k g ≡ none = lookup_grown g moves k ∙ e in
          (
            add_node (new_node beq hash k v) g,
            rw (e, run, insert, create_node, counts),
            record {
              valid = add_node-IsValid (new_node beq hash k v) g moves.valid pos;
              size = rw e (unfold add_node in omega (arith, moves.size));
              lookups = λ q. rw e (elim (Bool-cases (beq q k)) [
                | inl s ↦
                    let same : q ≡ k = beq_iff q k s in rw (s, same) (lookup_new k v g pos absent)
                | inr s ↦ rw s (lookup_old k v g pos q s ∙ ap value_of (lookup_grown g moves q))
              ]);
            },
          )
    ]
