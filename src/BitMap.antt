-- ===== src/BitMap.antt =====
-- The bit map of utils/src/bitmap.cpp. The byte array is a list of bytes, absent while the pointer is
-- null. Whether a call of `malloc` succeeds is the argument `granted`.
pub mod Bytes
pub mod Access
pub mod Storage
pub mod Ones
pub mod Count
mod Tests
use Prim.Native.Nat.{bit_and, bit_or}
use alias.Prelude.{
  ℕ, ◌+◌, ◌-◌, ◌*◌, ◌/◌, ◌%◌, ◌^◌, zero, suc, ◌==◌, leb, ltb, if◌then◌else◌, Bool, true, false, not,
  List, [], ◌∷◌, ◌++◌, Option, none, some, length, get_or, replicate, drop,
}
use alias.Prelude
use alias.Outcome.{Outcome, ok, throws, crash, ◌>>=◌, copy_bytes}

pub record BitMap : Type 0 where
  pub mem : Option (List ℕ)
  pub capacity : ℕ

-- The state before a constructor's body runs.
abbrev pub null_map : BitMap
null_map = record { mem = none; capacity = 0 }

-- `POS[i]` and `NPOS[i]` as `init` fills them.
unfoldable pub pos_mask : ℕ → ℕ
pos_mask i = 2 ^ i % 256

unfoldable pub npos_mask : ℕ → ℕ
unfolding pos_mask
npos_mask i = 255 - pos_mask i

-- The block that `malloc` gave, if any, and the new value of `mCapacity`, a `uint32_t`.
pub alloc : Bool → ℕ → Option (List ℕ) × ℕ
alloc granted bit_size =
    let bytes = if bit_size % 8 == 0 then bit_size / 8 else bit_size / 8 + 1 in
    if granted then (some (replicate bytes 0), (bytes * 8) % 2 ^ 32) else (none, 0)

pub new_default : Bool → BitMap
unfolding alloc
new_default granted = let (m, cap) = alloc granted 1024 in record { mem = m; capacity = cap }

-- The rest of `reserve`, from what `alloc` gave.
pub move_to : BitMap → Option (List ℕ) × ℕ → Outcome (Bool × BitMap)
move_to b (none, cap) = ok (false, b)
move_to b (some fresh, cap) =
    copy_bytes (some fresh) b.mem (if ltb cap b.capacity then cap / 8 else b.capacity / 8)
    >>= (λ m. ok (true, record { mem = m; capacity = cap }))

-- Returns whether the room is there, and the map afterwards.
pub reserve : Bool → BitMap → ℕ → Outcome (Bool × BitMap)
reserve granted b bit_size =
    if leb bit_size b.capacity then ok (true, b) else move_to b (alloc granted bit_size)

pub new_sized : Bool → ℕ → Outcome BitMap
unfolding reserve move_to alloc
new_sized granted bit_size = reserve granted null_map bit_size >>= (λ r. ok r.1)

-- The copy of `src` into what `alloc` gave: `memcpy` takes `mCapacity`, a number of bits, for the
-- byte count.
pub fill_from : List ℕ → Option (List ℕ) × ℕ → Outcome BitMap
fill_from src (m, cap) =
    copy_bytes m (some src) cap >>= (λ m'. ok (record { mem = m'; capacity = cap }))

-- The copy constructor.
pub copy : Bool → BitMap → Outcome BitMap
copy granted other = elim other.mem [
  | none ↦ ok null_map
  | some src ↦
      if other.capacity == 0 then ok null_map else fill_from src (alloc granted other.capacity)
]

-- `operator=`; `same` says that both sides are one object. The old block is dropped, not freed.
pub assign : Bool → Bool → BitMap → BitMap → Outcome BitMap
unfolding copy
assign same granted b other = if same then ok b else copy granted other

-- The byte with the bit at `p` set to `v`.
pub write_bit : ℕ → ℕ → Bool → ℕ
unfolding npos_mask
write_bit x p v = if v then bit_or x (pos_mask p) else bit_and x (npos_mask p)

pub read_bit : ℕ → ℕ → Bool
unfolding pos_mask
read_bit x p = not (bit_and x (pos_mask p) == 0)

-- Reading `mBitMap[index]` out of its block.
abbrev pub load : List ℕ → ℕ → Outcome ℕ
load ms i = if ltb i (length ms) then ok (get_or ms i 0) else crash

pub set : BitMap → ℕ → Bool → Outcome (Bool × BitMap)
set b idx v = if leb b.capacity idx then ok (false, b) else elim b.mem [
  | none ↦ throws
  | some ms ↦ load ms (idx / 8) >>= (λ x.
      ok (true, record b { mem = some (Prelude.set ms (idx / 8) (write_bit x (idx % 8) v)) }))
]

pub at : BitMap → ℕ → Outcome Bool
at b idx = if leb b.capacity idx then ok false else elim b.mem [
  | none ↦ throws
  | some ms ↦ load ms (idx / 8) >>= (λ x. ok (read_bit x (idx % 8)))
]

pub clear : BitMap → Outcome BitMap
clear b =
    copy_bytes b.mem (some (replicate (b.capacity / 8) 0)) (b.capacity / 8)
    >>= (λ m. ok (record b { mem = m }))

-- `release` on destruction: the pointer is null afterwards.
pub release : BitMap → BitMap
release b = record b { mem = none }

-- Eight bytes read as a `uint64_t`, the lowest byte first.
pub word64 : List ℕ → ℕ
word64 [] = 0
word64 (x ∷ xs) = x + 256 * word64 xs

-- `popcount` is the compiler's `__builtin_popcount` on Linux.
module _ (popcount : ℕ → ℕ) where
  -- `count_bits` for `uint64_t`
  pub count_bits64 : ℕ → ℕ
  count_bits64 v = popcount (v % 2 ^ 32) + popcount (v / 2 ^ 32)

  -- the loop over whole words, `len` rounds, then the one over the bytes left
  pub count_words : ℕ → List ℕ → ℕ
  unfolding word64 count_bits64
  count_words zero ms = 0
  count_words (suc len) ms = count_bits64 (word64 (Prelude.take 8 ms)) + count_words len (drop 8 ms)

  pub count_rest : List ℕ → ℕ
  count_rest [] = 0
  count_rest (x ∷ xs) = (if x == 0 then 0 else popcount x) + count_rest xs

  -- `count`: the sums are `uint32_t`
  pub count : BitMap → Outcome ℕ
  unfolding count_words count_rest
  count b = elim b.mem [
    | none ↦ if b.capacity / 8 == 0 then ok 0 else crash
    | some ms ↦
        let bytes = b.capacity / 8 in
        if leb bytes (length ms)
        then ok (
            (count_words (bytes / 8) ms
              + count_rest (Prelude.take (bytes % 8) (drop (bytes / 8 * 8) ms)))
            % 2 ^ 32)
        else crash
  ]
