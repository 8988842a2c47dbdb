-- ===== src/Hash.antt =====
-- The sizes of the hash table and the hash functions of utils/src/hash.cpp.
pub mod Sizes
pub mod Table
pub mod Sharing
mod Tests
use Prim.Native.Nat.{bit_xor, bit_or}
use alias.Prelude.{
  ℕ, zero, suc, ◌+◌, ◌-◌, ◌*◌, ◌/◌, ◌%◌, ◌^◌, ◌==◌, leb, ltb, not, if◌then◌else◌, Bool, true, false,
  List, [], ◌∷◌, get_or, length, take, drop,
}
use alias.Outcome.{Outcome, ok, crash, ◌>>=◌}

abbrev pub prime_deltas : List ℕ
prime_deltas =
    0 ∷ 0 ∷ 1 ∷ 3 ∷ 1 ∷ 5 ∷ 3 ∷ 3 ∷ 1 ∷ 9 ∷ 7 ∷ 5 ∷ 3 ∷ 17 ∷ 27 ∷ 3 ∷ 1 ∷ 29 ∷ 3 ∷ 21 ∷ 7 ∷ 17 ∷ 15
    ∷ 9 ∷ 43 ∷ 35 ∷ 15 ∷ 29 ∷ 3 ∷ 11 ∷ 3 ∷ 11 ∷ []

-- The sum of `primeForNumBits` as a number.
pub prime_at : ℕ → ℕ
prime_at num_bits = 2 ^ num_bits + get_or prime_deltas num_bits 0

-- What the `int` of `primeForNumBits` is: the sum up to 30 bits, a negative number for 31 bits, whose
-- shift overflows, and read from behind the table of deltas for more.
pub data Prime : Type 0 where
  fits : ℕ → Prime
  negative outside : Prime

unfoldable pub prime_for_num_bits : ℕ → Prime
prime_for_num_bits num_bits =
    if leb num_bits 30
    then fits (prime_at num_bits)
    else if num_bits == 31
    then negative
    else outside

-- `primeForNumBits(numBits) < n`, for an `n` that is not negative
unfoldable pub prime_below : ℕ → ℕ → Outcome Bool
prime_below num_bits n = elim (prime_for_num_bits num_bits) [
  | fits p ↦ ok (ltb p n)
  | negative ↦ ok true
  | outside ↦ crash
]

-- The loop of `countBits`. A positive `int` has at most 31 binary digits, so that
-- 30 rounds are enough, and the prime of `countBits` fits an `int`.
pub count_loop : ℕ → ℕ → ℕ → ℕ
count_loop zero bits num_bits = num_bits
count_loop (suc fuel) bits num_bits =
    if ltb 1 bits then count_loop fuel (bits / 2) (num_bits + 1) else num_bits

pub count_bits : ℕ → ℕ
count_bits hint =
    let num_bits = count_loop 30 hint 0 in
    if leb (length prime_deltas) num_bits
    then length prime_deltas - 1
    else if ltb (prime_at num_bits) hint
    then num_bits + 1
    else num_bits

abbrev pub min_num_bits : ℕ
min_num_bits = 4

-- The hint of `rehash`: a capacity where it is negative, else a number of bits.
pub data Hint : Type 0 where
  capacity bits : ℕ → Hint

-- The loop of `rehash`: more bits until the table has half of the buckets it had. It reads behind the
-- table of deltas from 32 bits on, so that 33 rounds are more than it takes.
pub raise_bits : ℕ → ℕ → ℕ → Outcome ℕ
raise_bits zero half hint = crash
raise_bits (suc fuel) half hint =
    prime_below hint half >>= (λ short. if short then raise_bits fuel half (hint + 1) else ok hint)

-- The first part of `rehash`: the number of bits that it changes to.
pub target_bits : Hint → ℕ → Outcome ℕ
target_bits (capacity n) num_buckets =
    let hint = count_bits n in
    raise_bits 33 (num_buckets / 2) (if ltb hint min_num_bits then min_num_bits else hint)
target_bits (bits n) num_buckets = ok (if ltb n min_num_bits then min_num_bits else n)

-- `compute`: FNV-1a on 32 bits.
pub compute_from : ℕ → List ℕ → ℕ
compute_from val [] = val
compute_from val (k ∷ key) = compute_from (bit_xor val k * 16777619 % 2 ^ 32) key

pub compute : List ℕ → ℕ
compute key = compute_from 2166136261 key

-- `compute2`: words of four bytes, the lowest first, and then the bytes that are left.
pub rotate_left : ℕ → ℕ → ℕ
rotate_left n hash = bit_or (hash * 2 ^ n % 2 ^ 32) (hash / 2 ^ (32 - n))

pub compute2_bytes : ℕ → List ℕ → ℕ
compute2_bytes hash [] = hash
compute2_bytes hash (k ∷ key) = compute2_bytes (rotate_left 8 (bit_xor hash k)) key

pub compute2_from : ℕ → List ℕ → ℕ
compute2_from hash (a ∷ b ∷ c ∷ d ∷ key) =
    compute2_from (rotate_left 13 (bit_xor hash (a + b * 256 + c * 65536 + d * 16777216))) key
compute2_from hash key = compute2_bytes hash key

pub compute2 : List ℕ → ℕ
compute2 key = compute2_from 0 key
