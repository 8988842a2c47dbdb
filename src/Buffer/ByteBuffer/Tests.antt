-- ===== src/Buffer/ByteBuffer/Tests.antt =====
-- Buffers on a small heap.
use alias.Prelude.{
  ℕ, ◌==◌, ◌≡◌, refl, true, [], ◌∷◌, ◌++◌, Option, none, some, take, drop, if◌then◌else◌, arith,
}
use alias.Outcome.{ok, Returns}
use alias.Buffer.Heap.{Block, Heap, IsFresh}
use alias.Buffer.ByteBuffer.{ByteBuffer, set, insert, real_offset}
use alias.Buffer.ByteBuffer.Write.{IsValid, contents, Writes, set-Writes}
use alias.Buffer.ByteBuffer.Insert.{Inserts, insert-Inserts}

-- A block of four bytes with two owners.
abbrev shared : Block
shared = record { refs = 2; bytes = 7 ∷ 8 ∷ 9 ∷ 0 ∷ [] }

abbrev cell : ℕ → Option Block
cell n = if n == 0 then some shared else none

abbrev heap : Heap
heap = record { next = 1; cell = cell; grants = λ n. true; junk = 42 }

abbrev three : ByteBuffer
three = record { buf = some 0; size = 3; capacity = 4 }

heap-IsFresh : IsFresh heap
heap-IsFresh x le = ground arith

abbrev three-IsValid : IsValid heap three
three-IsValid = record {
  address = 0;
  block = shared;
  points = refl;
  at = refl;
  owned = omega arith;
  room = omega arith;
  within = omega arith;
  limit = omega arith;
  fresh = heap-IsFresh;
}

set-Writes_example :
    Returns
      (set (some (5 ∷ 6 ∷ [])) 2 1 three heap)
      (Writes heap 0 2 three (take (real_offset three 1) (contents heap three) ++ (5 ∷ 6 ∷ [])))
set-Writes_example = set-Writes heap three three-IsValid (5 ∷ 6 ∷ []) 1 (omega arith) (omega arith)

insert-Inserts_example : Returns (insert (some (5 ∷ 6 ∷ [])) 2 1 three heap) (
    Inserts heap 0 2 three
      (take 1 (contents heap three) ++ ((5 ∷ 6 ∷ []) ++ drop 1 (contents heap three))))
insert-Inserts_example =
    insert-Inserts heap three three-IsValid (λ x. refl) (5 ∷ 6 ∷ []) 1 (omega arith) (omega arith)

insert_test : insert (some (5 ∷ [])) 1 9 three heap ≡ ok ((0, three), heap)
unfolding insert
insert_test = refl
