-- ===== src/Hash/Sharing/Tests.antt =====
-- Shared tables of numbers, whose hash is the number itself.
use alias.Prelude.{
  ℕ, zero, suc, ◌-◌, ◌^◌, ◌==◌, ◌≡◌, refl, ◌≢◌, Bool, true, if◌then◌else◌, [], ◌∷◌, none, some,
  arith,
}
use alias.Outcome.{ok, crash, Returns, ◌>>=◌}
use alias.Hash.Table.{Table, shared_null}
use alias.Hash.Table.Chains.{IsPlaced}
use alias.Hash.Table.Rehash.{IsValid}
use alias.Hash.Table.Insert.{Adds}
use alias.Hash.Sharing.{Data, Store, copy, destroy, insert_shared, detach}
use alias.Hash.Sharing.Copies.{destroy-copy, insert_shared-copy}

abbrev beq : ℕ → ℕ → Bool
beq a b = a == b

abbrev hash : ℕ → ℕ
hash k = k

beq_iff : (a b : ℕ) → beq a b ≡ true → a ≡ b
beq_iff a b e = ground arith

beq_refl : (a : ℕ) → beq a a ≡ true
beq_refl a = ground arith

-- One bucket with one node.
abbrev one : Table ℕ ℕ
one = record {
  buckets = (record { hash = 3; key = 3; value = 103 } ∷ []) ∷ [];
  size = 1;
  num_bits = 4;
}

one-IsPlaced : IsPlaced one.buckets
one-IsPlaced zero = (refl, tt)
one-IsPlaced (suc j) = tt

one-IsValid : IsValid one
one-IsValid = record { placed = one-IsPlaced; counted = refl }

-- The first state of `shared_null`, and one map at address 1.
abbrev data_of_one : Data ℕ ℕ
data_of_one = record { refs = 1; table = one }

abbrev data_of_null : Data ℕ ℕ
data_of_null = record { refs = 2 ^ 32 - 1; table = shared_null }

abbrev maps : Store ℕ ℕ
maps = record {
  next = 2;
  cell = λ a. if a == 0 then some data_of_null else if a == 1 then some data_of_one else none;
}

destroy-copy_example : (copy 0 maps >>= (λ r. destroy (r.0) (r.1))) ≡ crash
destroy-copy_example = destroy-copy maps data_of_null refl refl

insert_shared-copy_example :
    Returns (copy 1 maps >>= (λ r. insert_shared beq hash 9 4 104 (r.0) (r.1))) λ r.
      (r.0 ≢ 1)
      × (r.1.cell 1 ≡ some data_of_one)
      × ((y : Data ℕ ℕ) × (r.1.cell (r.0) ≡ some y)
          × Adds beq beq_iff beq_refl hash 4 104 one y.table)
insert_shared-copy_example =
    insert_shared-copy beq beq_iff beq_refl hash 9 4 104 1 maps data_of_one refl (omega arith)
      (omega arith) (omega arith) (omega arith) one-IsValid (refl, tt) (omega arith) (omega arith)

-- A table with one owner is not copied.
detach_test : detach 1 maps ≡ ok (1, maps)
unfolding detach
detach_test = refl
