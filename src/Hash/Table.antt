-- ===== src/Hash/Table.antt =====
-- The table of utils/src/hash.cpp, `HashData`, with the operations of utils/include/utils/hash.h on it.
-- A chain is the list of its nodes: the pointer to the `HashData` that ends it is the list's end.
-- `numBuckets` is the length of `buckets`. Requests for memory are met.
pub mod Chains
pub mod Place
pub mod Rehash
pub mod Insert
pub mod Assign
pub mod Order
pub mod Back
pub mod Next
mod Tests
use alias.Prelude.{
  ℕ, zero, suc, ◌+◌, ◌-◌, ◌%◌, ◌^◌, ◌==◌, leb, ltb, if◌then◌else◌, Bool, true, false, ◌&&◌, List,
  [], ◌∷◌, ◌++◌, Option, none, some, length, get_or, get_elem?, replicate,
}
use alias.Prelude
use alias.Outcome.{Outcome, ok, throws, crash, ◌>>=◌}
use alias.Hash.{Prime, Hint, bits, capacity, target_bits, prime_for_num_bits, min_num_bits}

pub record Node (K V : Type 0) : Type 0 where
  pub hash : ℕ
  pub key : K
  pub value : V

pub record Table (K V : Type 0) : Type 0 where
  pub buckets : List (List (Node K V))
  pub size : ℕ
  pub num_bits : ℕ

module _ {K V : Type 0} where
  -- `shared_null`
  abbrev pub shared_null : Table K V
  shared_null = record { buckets = []; size = 0; num_bits = min_num_bits }

  abbrev pub num_buckets : Table K V → ℕ
  num_buckets t = length t.buckets

  -- The chain that `findNode` walks; without buckets there is none.
  abbrev pub chain_of : List (List (Node K V)) → ℕ → List (Node K V)
  chain_of bs h = get_or bs (h % length bs) []

  -- The nodes of a run behind its first one, of the given hash, and those behind the run. The loop also
  -- reads the hash of the end, which is no node: `end_hash` is what lies there in the `HashData`. If it
  -- is the hash of the run, the loop goes on with the end as a node and its `next`, which is null.
  pub take_run : ℕ → ℕ → List (Node K V) → Outcome (List (Node K V) × List (Node K V))
  take_run end_hash h [] = if end_hash == h then crash else ok ([], [])
  take_run end_hash h (n ∷ ns) =
      let rest = take_run end_hash h ns in
      if n.hash == h then rest >>= (λ r. ok (n ∷ r.0, r.1)) else ok ([], n ∷ ns)

  -- A run goes to the end of its new chain.
  pub append_run : ℕ → List (Node K V) → List (List (Node K V)) → List (List (Node K V))
  append_run h run bs = Prelude.set bs (h % length bs) (chain_of bs h ++ run)

  -- The loop over a chain. It moves a node or more in each round.
  pub move_chain :
      ℕ → ℕ → List (Node K V) → List (List (Node K V)) → Outcome (List (List (Node K V)))
  move_chain fuel end_hash [] bs = ok bs
  move_chain zero end_hash (n ∷ ns) bs = crash
  move_chain (suc fuel) end_hash (n ∷ ns) bs =
      take_run end_hash n.hash ns
      >>= (λ r. move_chain fuel end_hash (r.1) (append_run n.hash (n ∷ r.0) bs))

  pub move_all :
      ℕ → List (List (Node K V)) → List (List (Node K V)) → Outcome (List (List (Node K V)))
  unfolding move_chain
  move_all end_hash [] bs = ok bs
  move_all end_hash (c ∷ cs) bs = move_chain (length c) end_hash c bs >>= move_all end_hash cs

  -- The new table of `rehash`, with `b` bits. `resize` by a negative number throws.
  pub change_bits : ℕ → ℕ → Table K V → Outcome (Table K V)
  change_bits end_hash b t = elim (prime_for_num_bits b) [
    | Prime.fits p ↦
        move_all end_hash t.buckets (replicate p [])
        >>= (λ bs. ok (record t { buckets = bs; num_bits = b }))
    | Prime.negative ↦ throws
    | Prime.outside ↦ crash
  ]

  pub rehash : ℕ → Hint → Table K V → Outcome (Table K V)
  rehash end_hash hint t =
      target_bits hint (num_buckets t)
      >>= (λ b. if t.num_bits == b then ok t else change_bits end_hash b t)

  -- `grow`, whose result says only whether the place has to be looked up again
  pub grow : ℕ → Table K V → Outcome (Table K V)
  grow end_hash t =
      if leb (num_buckets t) t.size then rehash end_hash (bits (t.num_bits + 1)) t else ok t

  -- `createNode` at the end of the chain, and `++size`, an `int` that must not overflow.
  pub add_node : Node K V → Table K V → Table K V
  add_node n t = record t { buckets = append_run n.hash (n ∷ []) t.buckets; size = t.size + 1 }

  pub create_node : Node K V → Table K V → Outcome (Table K V)
  create_node n t = if ltb (t.size + 1) (2 ^ 31) then ok (add_node n t) else crash

-- `operator==` of the keys.
module _ {K V : Type 0} (beq : K → K → Bool) where
  pub same_key_with : K → ℕ → Node K V → Bool
  same_key_with k h n = beq k n.key && h == n.hash

  -- `findNode`: the node found on the way down the chain.
  pub find_in : K → ℕ → List (Node K V) → Option (Node K V)
  find_in k h [] = none
  find_in k h (n ∷ ns) = let rest = find_in k h ns in if same_key_with k h n then some n else rest

  -- A write through the reference to the value of the node found.
  pub write_in : K → ℕ → V → List (Node K V) → List (Node K V)
  write_in k h v [] = []
  write_in k h v (n ∷ ns) =
      let rest = write_in k h v ns in
      if same_key_with k h n then record n { value = v } ∷ ns else n ∷ rest

-- Also the keys' `hash()`.
module _ {K V : Type 0} (beq : K → K → Bool) (hash : K → ℕ) where
  pub find : K → Table K V → Option (Node K V)
  find k t = find_in beq k (hash k) (chain_of t.buckets (hash k))

  abbrev pub new_node : K → V → Node K V
  new_node k v = record { hash = hash k; key = k; value = v }

  -- `insert`: the value of a key that is there stays as it is.
  pub insert : ℕ → K → V → Table K V → Outcome (Table K V)
  insert end_hash k v t = elim (find k t) [
    | some n ↦ ok t
    | none ↦ grow end_hash t >>= (λ t'. create_node (new_node k v) t')
  ]

  -- `at(key)` of a map that is not shared, whose result is written through: a new key comes in with
  -- the default value first.
  pub write_at : K → V → Table K V → Table K V
  write_at k v t = record t {
    buckets =
        Prelude.set t.buckets (hash k % num_buckets t)
          (write_in beq k (hash k) v (chain_of t.buckets (hash k)));
  }

  pub assign_at : V → ℕ → K → V → Table K V → Outcome (Table K V)
  assign_at initial end_hash k v t = insert end_hash k initial t >>= (λ t'. ok (write_at k v t'))

  -- `at(key, v) const`
  pub at_or : K → V → Table K V → V
  at_or k v t = elim (find k t) [ none ↦ v | some n ↦ n.value ]

-- Where an iterator points: to the node at a place of a chain, to the end, or to memory that is neither.
pub data Position : Type 0 where
  node : ℕ → ℕ → Position
  end wild : Position

module _ {K V : Type 0} where
  pub first_from : ℕ → List (List (Node K V)) → Position
  first_from i [] = end
  first_from i ([] ∷ cs) = first_from (i + 1) cs
  first_from i ((n ∷ ns) ∷ cs) = node i 0

  -- `firstNode`
  pub first_node : Table K V → Position
  first_node t = first_from 0 t.buckets

  -- The loop of `nextNode` over the chain at `start`, `n` rounds: `++bucket` goes behind the end, which
  -- no round takes for the end.
  pub next_chain : ℕ → ℕ → List (Node K V) → Position
  next_chain zero start chain = end
  next_chain (suc n) start (c ∷ cs) = node start 0
  next_chain (suc zero) start [] = end
  next_chain (suc (suc n)) start [] = wild

  pub node_at : Table K V → ℕ → ℕ → Option (Node K V)
  node_at t i j = get_elem? (get_or t.buckets i []) j

  -- Behind the last node of a chain, which starts at the bucket of the node's hash.
  pub next_bucket : Table K V → ℕ → Position
  next_bucket t start =
      if ltb start (num_buckets t)
      then next_chain (num_buckets t - start) start (get_or t.buckets start [])
      else end

  -- `nextNode`. An assertion refuses the end.
  pub next_node : Table K V → Position → Position
  next_node t (node i j) = elim (node_at t i j) [
    | none ↦ wild
    | some n ↦
        if ltb (j + 1) (length (get_or t.buckets i []))
        then node i (j + 1)
        else next_bucket t (n.hash % num_buckets t + 1)
  ]
  next_node t end = wild
  next_node t wild = wild

  -- `previousNode` from chain `i` down, whose nodes before place `j` are looked at: all of them, from
  -- the second round on.
  pub previous_from : List (List (Node K V)) → ℕ → ℕ → Position
  previous_from bs i (suc j) = node i j
  previous_from bs zero zero = end
  previous_from bs (suc i) zero = previous_from bs i (length (get_or bs i []))

  -- `previousNode`. In another chain than that of its hash, the walk does not meet the node.
  pub previous_node : Table K V → Position → Position
  previous_node t (node i j) = elim (node_at t i j) [
    | none ↦ wild
    | some n ↦ if n.hash % num_buckets t == i then previous_from t.buckets i j else wild
  ]
  previous_node t end = previous_from t.buckets (num_buckets t) 0
  previous_node t wild = wild
