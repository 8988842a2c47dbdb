-- ===== src/Buffer/ByteBuffer.antt =====
-- `ByteBuffer` of utils/src/buffer.cpp and utils/include/utils/buffer.h. A buffer is a value of its
-- three fields; its bytes lie in a block of the heap, which several buffers may own. The block at
-- address 0 is the empty one that all default buffers share.
pub mod Write
pub mod Insert
pub mod Sharing
mod Tests
use alias.Prelude.{
  ℕ, zero, suc, ◌+◌, ◌-◌, ◌*◌, ◌/◌, ◌^◌, ◌==◌, leb, ltb, if◌then◌else◌, Bool, true, false, ◌&&◌,
  List, [], ◌∷◌, ◌++◌, Option, none, some, length, get_or, take, drop, replicate,
}
use alias.Outcome.{Outcome, ok, throws, crash}
use alias.Buffer.Heap.{
  Block, Heap, M, pure, fault, raise, ◌>>=◌, ◌>>◌, load, store, request, on_block,
}
use alias.Buffer.Shared.{alloc, acquire, release, edit, edit_resize, reset}

pub record ByteBuffer : Type 0 where
  pub buf : Option ℕ
  pub size : ℕ
  pub capacity : ℕ

abbrev pub empty_address : ℕ
empty_address = 0

-- `GetEmptyBuffer`, once the shared empty block is there
pub new_empty : M ByteBuffer
new_empty = do
  acquire empty_address
  pure (record { buf = some empty_address; size = 0; capacity = 0 })

-- `mCapacity` when the bytes of the block at `p` are in use
abbrev pub block_size : ℕ → M ℕ
block_size p = load p >>= (λ b. pure (length b.bytes))

pub new_sized : ℕ → M ByteBuffer
unfolding new_empty
new_sized n = do
  b ← new_empty
  if n == 0
      then pure b
      else (reset empty_address n >>= (λ q. elim q [
        | none ↦ pure b
        | some p ↦ (block_size p >>= (λ k. pure (record b { buf = some p; capacity = k })))
      ]))

-- `memmove` of the first `n` bytes of `src` to offset `off`: neither side may be left.
pub write_bytes : List ℕ → ℕ → List ℕ → ℕ → M (List ℕ)
write_bytes bytes off src n =
    if leb n (length src) && leb (off + n) (length bytes)
    then pure (take off bytes ++ (take n src ++ drop (off + n) bytes))
    else fault

-- `dataSize *= 1.5`, exact up to 2 ^ 53 / 3, and off by one at most below 2 ^ 52
pub calculate : ℕ → ℕ
calculate n = if leb 256 n then n * 3 / 2 else 256

-- The block of its own that a write of `new_size` bytes in all needs.
pub writable : ℕ → ℕ → ByteBuffer → M (Option ℕ)
writable new_size p b =
    if ltb b.capacity new_size then edit_resize p (calculate new_size) else edit p

-- The end of `set`, from the block that the edit gave.
pub put_at : List ℕ → ℕ → ℕ → ByteBuffer → Option ℕ → M (ℕ × ByteBuffer)
put_at d n off b none = pure (0, b)
put_at d n off b (some q) = do
  blk ← load q
  bytes ← write_bytes blk.bytes off d n
  store q (some (record blk { bytes = bytes }))
  pure (n, record { buf = some q; size = n + off; capacity = length blk.bytes })

-- The offset that `set` uses: one past the data is taken for 0.
unfoldable pub real_offset : ByteBuffer → ℕ → ℕ
real_offset b off = if leb off b.size then off else 0

-- `set`: `d` is what lies at `data`, absent for a null pointer.
pub set : Option (List ℕ) → ℕ → ℕ → ByteBuffer → M (ℕ × ByteBuffer)
set none n off b = pure (0, b)
set (some d) n off b =
    if n == 0
    then pure (0, b)
    else if leb (2 ^ 64) (n + real_offset b off)
    then pure (0, b)
    else on_block b.buf
        (λ p. writable (n + real_offset b off) p b >>= put_at d n (real_offset b off) b)

-- `strlen`: a text with no NUL is read past its end.
pub strlen : List ℕ → M ℕ
strlen [] = fault
strlen (c ∷ cs) = let rest = strlen cs in if c == 0 then pure 0 else (rest >>= (λ n. pure (n + 1)))

-- The overloads of `append`.
pub append : Option (List ℕ) → ℕ → ByteBuffer → M (ℕ × ByteBuffer)
append data' n b = set data' n b.size b

pub append_chars : Option (List ℕ) → ℕ → ByteBuffer → M (ℕ × ByteBuffer)
append_chars none n b = pure (0, b)
append_chars (some d) n b =
    if n == 0
    then pure (0, b)
    else if n == 2 ^ 64 - 1
    then (strlen d >>= (λ k. set (some d) k b.size b))
    else set (some d) n b.size b

-- The bytes of a block with `n` of `d` put in at `off`, of the `size` that it shows: those from `off`
-- on are saved and put back behind the new ones.
pub shift_bytes : List ℕ → ℕ → List ℕ → ℕ → ℕ → M (List ℕ)
shift_bytes bytes off d n size =
    write_bytes bytes off d n
    >>= (λ first. write_bytes first (off + n) (take (size - off) (drop off bytes)) (size - off))

-- The end of `insert`, from the block that the edit gave. The three fields are set before the request
-- for the block that saves the bytes behind `off`.
pub make_room : List ℕ → ℕ → ℕ → ByteBuffer → Option ℕ → M (ℕ × ByteBuffer)
make_room d n off b none = pure (0, b)
make_room d n off b (some q) = do
  blk ← load q
  let b' : ByteBuffer = record { buf = some q; size = n + b.size; capacity = length blk.bytes }
  (saved, _) ← (if b.size - off == 0 then pure (true, 0) else request)
  if saved
      then ((if b.size - off == 0
            then write_bytes blk.bytes b.size d n
            else shift_bytes blk.bytes off d n b.size)
          >>= (λ bytes. store q (some (record blk { bytes = bytes })) >> pure (n, b')))
      else pure (0, b')

pub insert : Option (List ℕ) → ℕ → ℕ → ByteBuffer → M (ℕ × ByteBuffer)
insert none n off b = pure (0, b)
insert (some d) n off b =
    if ltb b.size off
    then pure (0, b)
    else if leb (2 ^ 64) (n + b.size)
    then pure (0, b)
    else on_block b.buf (λ p. writable (n + b.size) p b >>= make_room d n off b)

-- `allocBuffer`: a cleared block if the pointer is null, and the new capacity. What a failed request
-- gives is not tested before it is written to.
pub alloc_buffer : ℕ → ByteBuffer → M (ℕ × ByteBuffer)
alloc_buffer n b =
    let size = if n == 0 then 256 else n in
    elim b.buf [
      | some p ↦ pure (0, b)
      | none ↦
          (alloc size >>= (λ q. elim q [
            | none ↦ fault
            | some p ↦
                (store p (some (record { refs = 1; bytes = replicate size 0 }))
                  >> pure (size, record b { buf = some p }))
          ]))
    ]

pub new_bytes : Option (List ℕ) → ℕ → M ByteBuffer
new_bytes data' n = do
  (k, b) ← alloc_buffer n (record { buf = none; size = 0; capacity = 0 })
  (_, b') ← set data' n 0 (record b { capacity = k })
  pure b'

pub new_chars : Option (List ℕ) → ℕ → M ByteBuffer
new_chars none n = new_empty
new_chars (some d) n = do
  b ← new_empty
  if n == 0 then pure b else do
    k ← (if n == 2 ^ 64 - 1 then strlen d else pure n)
    (_, b') ← set (some d) k 0 b
    pure b'

-- The copy constructor: the copy owns the same block.
pub copy : ByteBuffer → M ByteBuffer
copy b = on_block b.buf (λ p. acquire p >> pure b)

-- `operator=`: the block that the left side owned before is not released.
pub assign : Bool → ByteBuffer → ByteBuffer → M ByteBuffer
assign same self other =
    if same then pure self else on_block other.buf (λ p. acquire p >> pure other)

-- `moveAssign`: both buffers, the target first
pub move_assign : ByteBuffer → ByteBuffer → ByteBuffer × ByteBuffer
move_assign self other = (other, self)

-- The destructor and `freeBuffer`.
pub free_buffer : ByteBuffer → M ByteBuffer
free_buffer b = elim b.buf [
  | none ↦ pure (record { buf = none; size = 0; capacity = 0 })
  | some p ↦ (release false p >>= (λ _. pure (record { buf = none; size = 0; capacity = 0 })))
]

-- `operator[]`, read
pub index : ByteBuffer → ℕ → M ℕ
index b i =
    if leb b.capacity i
    then raise
    else on_block b.buf (λ p.
      load p >>= (λ blk. if ltb i (length blk.bytes) then pure (get_or blk.bytes i 0) else fault))

pub reserve : ℕ → ByteBuffer → M ByteBuffer
reserve n b = if n == 0 then pure b else elim b.buf [
  | none ↦ (alloc_buffer n b >>= (λ r. pure (record (r.1) { capacity = r.0; size = 0 })))
  | some p ↦
      (edit_resize p n >>= (λ q. elim q [
        | none ↦ pure b
        | some a ↦ (block_size a >>= (λ k. pure (record b { buf = some a; capacity = k })))
      ]))
]

pub detach : ByteBuffer → M ByteBuffer
detach b = elim b.buf [
  | none ↦ (alloc_buffer 256 b >>= (λ r. pure (record (r.1) { capacity = r.0; size = 0 })))
  | some p ↦
      (load p >>= (λ blk.
        if blk.refs == 1
        then pure b
        else (edit p
            >>= (λ q. elim q [ none ↦ pure b | some a ↦ pure (record b { buf = some a }) ]))))
]

pub clear : ByteBuffer → M ByteBuffer
clear b = detach b >>= (λ b'. pure (record b' { size = 0 }))

pub resize : ℕ → ByteBuffer → ByteBuffer
resize sz b = record b { size = if ltb b.capacity sz then b.capacity else sz }
