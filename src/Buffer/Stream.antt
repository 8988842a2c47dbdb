-- ===== src/Buffer/Stream.antt =====
-- `BufferStream` of utils/src/buffer_stream.cpp. The stream points to a buffer that its user owns: the
-- buffer stands in the record, absent for a null pointer.
pub mod Pending
pub mod Queue
pub mod Integers
mod Tests
use alias.Prelude.{
  ℕ, zero, suc, ◌+◌, ◌-◌, ◌*◌, ◌/◌, ◌%◌, ◌^◌, ◌==◌, leb, ltb, not, if◌then◌else◌, Bool, true, false,
  ◌&&◌, List, [], ◌∷◌, ◌++◌, Option, none, some, length, take, drop,
}
use alias.Outcome.{Outcome, ok, throws, crash}
use alias.Buffer.Heap.{Block, Heap, M, pure, fault, raise, ◌>>=◌, ◌>>◌, load, on_block}
use alias.Buffer.ByteBuffer.{ByteBuffer, set, append}

-- The two positions are `uint32_t`.
pub record BufferStream : Type 0 where
  pub buffer : Option ByteBuffer
  pub rpos : ℕ
  pub wpos : ℕ

abbrev pub wrap : ℕ → ℕ
wrap n = n % 2 ^ 32

pub empty_stream : BufferStream
empty_stream = record { buffer = none; rpos = 0; wpos = 0 }

pub open_stream : ByteBuffer → BufferStream
open_stream b = record { buffer = some b; rpos = 0; wpos = wrap b.size }

-- The move constructor: the new stream, and what it leaves behind.
pub move_stream : BufferStream → BufferStream × BufferStream
move_stream other = (other, record { buffer = none; rpos = 0; wpos = 0 })

-- The bytes that `memcpy` reads from offset `off` of the buffer.
pub bytes_at : ℕ → ℕ → ByteBuffer → M (List ℕ)
bytes_at off n b = on_block b.buf (λ p. load p >>= (λ blk.
    if leb (off + n) (length blk.bytes) then pure (take n (drop off blk.bytes)) else fault))

-- The end of `write`: `append`, whose result is not looked at, and the new position.
pub push : List ℕ → ℕ → ByteBuffer → ℕ → ℕ → M BufferStream
push d n b rpos wpos =
    append (some d) n b
    >>= (λ r. pure (record { buffer = some (r.1); rpos = rpos; wpos = wrap (wpos + n) }))

-- The bytes not yet read are moved to the start of the buffer.
pub compact : List ℕ → ℕ → ByteBuffer → ℕ → ℕ → M BufferStream
compact d n b rpos wpos =
    let copy_size = wrap (wpos + 2 ^ 32 - rpos) in
    bytes_at rpos copy_size b >>= (λ old.
      set (some old) copy_size 0 b
      >>= (λ r. if r.0 == copy_size then push d n (r.1) 0 copy_size else raise))

pub write : List ℕ → ℕ → BufferStream → M BufferStream
write d n s = elim s.buffer [
  | none ↦ raise
  | some b ↦
      if not (s.rpos == 0) && ltb (wrap b.capacity) (wrap (s.wpos + n))
      then compact d n b s.rpos s.wpos
      else push d n b s.rpos s.wpos
]

-- The bytes read, if there are enough.
pub read : ℕ → BufferStream → M (Option (List ℕ) × BufferStream)
read n s = elim s.buffer [
  | none ↦ raise
  | some b ↦
      if leb (wrap (s.rpos + n)) s.wpos
      then (bytes_at s.rpos n b >>= (λ bs. pure (some bs, record s { rpos = wrap (s.rpos + n) })))
      else pure (none, s)
]

-- An integer of `w` bytes as it lies in memory, the lowest byte first.
pub to_bytes : ℕ → ℕ → List ℕ
to_bytes zero x = []
to_bytes (suc w) x = x % 256 ∷ to_bytes w (x / 256)

pub of_bytes : List ℕ → ℕ
of_bytes [] = 0
of_bytes (x ∷ xs) = x + 256 * of_bytes xs

-- `operator<<` for the types of `w` bytes, the value as its bit pattern
pub put_int : ℕ → ℕ → BufferStream → M BufferStream
put_int w x s = write (to_bytes w x) w s

-- `operator>>` for the types of `w` bytes
pub get_int : ℕ → BufferStream → M (ℕ × BufferStream)
get_int w s = read w s >>= (λ r. elim r.0 [ none ↦ raise | some bs ↦ pure (of_bytes bs, r.1) ])

-- `operator<<` for texts: nothing is written for the empty one.
pub put_text : List ℕ → BufferStream → M BufferStream
put_text [] s = pure s
put_text (c ∷ cs) s = write ((c ∷ cs) ++ (0 ∷ [])) (length cs + 2) s

-- `operator>>` for texts: the characters up to the NUL come behind those that `item` already holds.
-- Each round reads one byte, so `wpos` rounds are enough.
pub get_chars : ℕ → List ℕ → BufferStream → M (List ℕ × BufferStream)
get_chars zero item s = raise
get_chars (suc fuel) item s = read 1 s >>= (λ r. elim r.0 [
  | none ↦ raise
  | some [] ↦ raise
  | some (c ∷ cs) ↦ if c == 0 then pure (item, r.1) else get_chars fuel (item ++ (c ∷ [])) (r.1)
])

pub get_text : List ℕ → BufferStream → M (List ℕ × BufferStream)
get_text item s = get_chars (s.wpos + 1) item s
