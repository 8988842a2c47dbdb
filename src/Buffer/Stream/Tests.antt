-- ===== src/Buffer/Stream/Tests.antt =====
-- A stream on a small heap.
use alias.Prelude.{
  ℕ, ◌==◌, ◌≡◌, refl, true, [], ◌∷◌, Option, none, some, take, drop, if◌then◌else◌, arith,
}
use alias.Outcome.{ok, Returns}
use alias.Buffer.Heap.{Block, Heap, IsFresh, ◌>>=◌}
use alias.Buffer.ByteBuffer.{ByteBuffer}
use alias.Buffer.ByteBuffer.Write.{contents}
use alias.Buffer.ByteBuffer.Write
use alias.Buffer.Stream.{write, read, put_int, get_int}
use alias.Buffer.Stream.Integers.{get_int-put_int}
use alias.Buffer.Stream.Pending.{over, IsValid, pending, read-pending}
use alias.Buffer.Stream.Queue.{Queues, write-Queues}

abbrev block : Block
block = record { refs = 1; bytes = 7 ∷ 8 ∷ 9 ∷ 0 ∷ [] }

abbrev cell : ℕ → Option Block
cell n = if n == 0 then some block else none

abbrev heap : Heap
heap = record { next = 1; cell = cell; grants = λ n. true; junk = 42 }

abbrev three : ByteBuffer
three = record { buf = some 0; size = 3; capacity = 4 }

heap-IsFresh : IsFresh heap
heap-IsFresh x le = ground arith

abbrev three-IsValid : Write.IsValid heap three
three-IsValid = record {
  address = 0;
  block = block;
  points = refl;
  at = refl;
  owned = omega arith;
  room = omega arith;
  within = omega arith;
  limit = omega arith;
  fresh = heap-IsFresh;
}

abbrev one_read-IsValid : IsValid heap three 1 3
one_read-IsValid = record {
  valid = three-IsValid;
  written = refl;
  ahead = omega arith;
  small = omega arith;
}

all_read-IsValid : IsValid heap three 3 3
all_read-IsValid = record {
  valid = three-IsValid;
  written = refl;
  ahead = omega arith;
  small = omega arith;
}

read-pending_example :
    (read 2 (over three 1 3) heap
      ≡ ok ((some (take 2 (pending heap three 1)), over three 3 3), heap))
    × IsValid heap three 3 3
    × (pending heap three 3 ≡ drop 2 (pending heap three 1))
read-pending_example = read-pending heap three 1 3 2 one_read-IsValid (omega arith)

write-Queues_example :
    Returns (write (5 ∷ 6 ∷ []) 2 (over three 1 3) heap) (Queues (5 ∷ 6 ∷ []) heap three 1 0)
write-Queues_example =
    write-Queues (5 ∷ 6 ∷ []) heap three (λ x. refl) (omega arith) 1 3 one_read-IsValid
      (omega arith) (λ all started. absurd (omega arith))

get_int-put_int_example :
    Returns ((put_int 1 200 (over three 3 3) >>= get_int 1) heap) λ r. r.0.0 ≡ 200
get_int-put_int_example =
    get_int-put_int heap three 3 3 1 200 all_read-IsValid refl (λ a. refl) (omega arith)
      (omega arith) (omega arith) (λ started. omega arith)
