-- ===== src/Hash/Table/Tests.antt =====
-- Tables of numbers, whose hash is the number itself.
use alias.Prelude.{
  ℕ, zero, suc, ◌+◌, ◌==◌, if◌then◌else◌, ◌≡◌, refl, Bool, true, [], ◌∷◌, some, arith,
}
use alias.Outcome.{crash, Returns}
use alias.Hash.{bits, target_bits, prime_for_num_bits}
use alias.Hash.Sizes.{FitsInt}
use alias.Hash.Table.{
  Node, Table, node, wild, take_run, append_run, move_chain, move_all, change_bits, rehash, find_in,
  find, insert, assign_at, at_or, first_node, first_from, next_node, next_bucket, next_chain,
  previous_node, previous_from, node_at, same_key_with,
}
use alias.Hash.Table.Chains.{flat, IsPlaced}
use alias.Hash.Table.Place.{Apart}
use alias.Hash.Table.Rehash.{IsValid, Moves, rehash-Moves}
use alias.Hash.Table.Insert.{lookup, Adds, insert-Adds}
use alias.Hash.Table.Assign.{Shows, assign_at-Shows}

abbrev beq : ℕ → ℕ → Bool
beq a b = a == b

abbrev hash : ℕ → ℕ
hash k = k

beq_iff : (a b : ℕ) → beq a b ≡ true → a ≡ b
beq_iff a b e = ground arith

beq_refl : (a : ℕ) → beq a a ≡ true
beq_refl a = ground arith

abbrev item : ℕ → Node ℕ ℕ
item k = record { hash = k; key = k; value = k + 100 }

-- Three buckets, all taken: 3 stands in the first one, 2 and 5 in the last one.
abbrev three : Table ℕ ℕ
three = record {
  buckets = (item 3 ∷ []) ∷ [] ∷ (item 2 ∷ item 5 ∷ []) ∷ [];
  size = 3;
  num_bits = 4;
}

three-IsPlaced : IsPlaced three.buckets
three-IsPlaced zero = (refl, tt)
three-IsPlaced (suc zero) = tt
three-IsPlaced (suc (suc zero)) = (refl, (refl, tt))
three-IsPlaced (suc (suc (suc j))) = tt

three-IsValid : IsValid three
three-IsValid = record { placed = three-IsPlaced; counted = refl }

three-Apart : Apart 9 (flat three.buckets)
three-Apart = (refl, (refl, (refl, tt)))

rehash-Moves_example : Returns (rehash 9 (bits 5) three) (Moves beq three)
rehash-Moves_example =
    rehash-Moves beq 9 three three-IsValid three-Apart (bits 5) (unfold FitsInt in omega arith)
      (omega arith)

insert-Adds_example :
    Returns (insert beq hash 9 4 104 three) (Adds beq beq_iff beq_refl hash 4 104 three)
insert-Adds_example =
    insert-Adds beq beq_iff beq_refl hash 9 three three-IsValid three-Apart 4 104 (omega arith)
      (omega arith)

assign_at-Shows_example : Returns (assign_at beq hash 0 9 5 7 three) (
    Shows beq beq_iff beq_refl hash
      λ q. if beq q 5 then some 7 else lookup beq beq_iff beq_refl hash q three)
assign_at-Shows_example =
    assign_at-Shows beq beq_iff beq_refl hash 0 9 5 7 three three-IsValid three-Apart (omega arith)
      (omega arith)

-- The bucket behind the one of 3 is empty: the iterator leaves the table.
next_node_test : next_node three (node 0 0) ≡ wild
unfolding next_node next_bucket next_chain node_at
next_node_test = refl

previous_node_test : previous_node three (node 2 0) ≡ node 0 0
unfolding previous_node previous_from node_at
previous_node_test = refl

first_node_test : first_node {K = ℕ} {V = ℕ} three ≡ node 0 0
unfolding first_node first_from
first_node_test = refl

find_test : find beq hash 5 three ≡ some (item 5)
unfolding find find_in same_key_with
find_test = refl

at_or_test : at_or beq hash 4 1 three ≡ 1
unfolding at_or find find_in same_key_with
at_or_test = refl

-- A node whose hash is what lies at the end of its chain.
rehash_test : rehash 5 (bits 5) three ≡ crash
unfolding rehash change_bits prime_for_num_bits move_all move_chain take_run append_run target_bits
rehash_test = refl
