-- ===== src/BitMap/Access.antt =====
-- `set`, `at` and `clear` of a bit map against the bits that it shows.
use alias.Prelude.{
  ℕ, zero, suc, ◌+◌, ◌-◌, ◌*◌, ◌/◌, ◌%◌, ◌^◌, ◌≤◌, ◌<◌, ◌==◌, ltb, leb, ◌≡◌, refl, ap, sym, ◌≢◌,
  Bool, true, false, ◌&&◌, List, [], ◌∷◌, ◌++◌, Option, none, some, if◌then◌else◌, arith, length,
  get_or, replicate, take, drop, All, length-set, get_or-set_self, get_or-set_ne, Bool-cases, inl,
  inr, append-nil, take_all, length-replicate,
}
use alias.Prelude
use alias.Outcome.{ok, Returns, copy_bytes_whole}
use alias.BitMap.{BitMap, set, at, clear, write_bit}
use alias.BitMap.Bytes.{bit_of, read_bit-bit_of, write_bit-lt, bit_of-write_bit}

abbrev pub bytes : BitMap → List ℕ
bytes b = elim b.mem [ none ↦ [] | some ms ↦ ms ]

-- The capacity counts the bits of the block, and each byte is one.
pub record IsValid (b : BitMap) : Type 0 where
  pub sized : b.capacity ≡ length (bytes b) * 8
  pub small : b.capacity < 2 ^ 32
  pub are_bytes : All (λ x. x < 256) (bytes b)

-- The bits that a map shows: bit `i` is bit `i % 8` of byte `i / 8`, by arithmetic.
abbrev pub view : BitMap → ℕ → Bool
view b i = ltb i b.capacity && bit_of (get_or (bytes b) (i / 8) 0) (i % 8)

All-get_or : (xs : List ℕ) (i : ℕ) → All (λ x. x < 256) xs → get_or xs i 0 < 256
All-get_or [] i h = omega arith
All-get_or (x ∷ xs) zero h = h.0
All-get_or (x ∷ xs) (suc i) h = All-get_or xs i h.1

All-set :
    (xs : List ℕ) (i v : ℕ)
    → All (λ x. x < 256) xs
    → v < 256
    → All (λ x. x < 256) (Prelude.set xs i v)
All-set [] i v h hv = h
All-set (x ∷ xs) zero v h hv = (hv, h.1)
All-set (x ∷ xs) (suc i) v h hv = (h.0, All-set xs i v h.1 hv)

pub All-replicate : (n : ℕ) → All (λ x. x < 256) (replicate n 0)
All-replicate zero = tt
All-replicate (suc n) = (omega arith, All-replicate n)

pub get_or-replicate : (n i : ℕ) → get_or {A = ℕ} (replicate n 0) i 0 ≡ 0
get_or-replicate zero i = refl
get_or-replicate (suc n) zero = refl
get_or-replicate (suc n) (suc i) = get_or-replicate n i

abbrev of : Option (List ℕ) → ℕ → BitMap
of m cap = record { mem = m; capacity = cap }

at_by_mem :
    (m : Option (List ℕ)) (cap i : ℕ)
    → IsValid (of m cap)
    → at (of m cap) i ≡ ok (view (of m cap) i)
unfolding at
at_by_mem none cap i v = ground arith
at_by_mem (some ms) cap i v = ground (
  arith,
  read_bit-bit_of (get_or ms (i / 8) 0) (i % 8) (All-get_or ms (i / 8) v.are_bytes) (omega arith),
)

-- In a valid map `at` neither throws nor leaves its block: it returns the bit shown, which is false
-- out of range.
pub at-view : (b : BitMap) (i : ℕ) → IsValid b → at b i ≡ ok (view b i)
at-view b i v = at_by_mem b.mem b.capacity i v

-- What `set` does to the bits.
pub record SetsBit (b : BitMap) (i : ℕ) (x : Bool) (r : Bool × BitMap) : Type 0 where
  pub done : r.0 ≡ ltb i b.capacity
  pub valid : IsValid r.1
  pub capacity : r.1.capacity ≡ b.capacity
  pub bits : (j : ℕ) → view r.1 j ≡ (if j == i && ltb i b.capacity then x else view b j)

module _ (ms : List ℕ) (cap i : ℕ) (x : Bool) (v : IsValid (of (some ms) cap)) where
  after : List ℕ
  after = Prelude.set ms (i / 8) (write_bit (get_or ms (i / 8) 0) (i % 8) x)

  bits_after :
      (j : ℕ)
      → i < cap
      → view (of (some after) cap) j ≡ (if j == i then x else view (of (some ms) cap) j)
  unfolding after
  bits_after j hi = elim (Bool-cases (j / 8 == i / 8)) [
    | inl same ↦
        let e : j / 8 ≡ i / 8 = ground arith in
        rw
          (
            e,
            get_or-set_self ms (i / 8) (write_bit (get_or ms (i / 8) 0) (i % 8) x) 0 (omega arith),
          )
          (ground (
            arith,
            bit_of-write_bit (get_or ms (i / 8) 0) (i % 8) (j % 8) x
                (All-get_or ms (i / 8) v.are_bytes) (omega arith) (omega arith),
          ))
    | inr other ↦
        rw
          (get_or-set_ne ms {i = i / 8} {j = j / 8} (write_bit (get_or ms (i / 8) 0) (i % 8) x) 0
            (ground arith))
          (ground arith)
  ]

  set_in_range : i < cap → Returns (set (of (some ms) cap) i x) (SetsBit (of (some ms) cap) i x)
  unfolding set after
  set_in_range hi = (
    (true, of (some after) cap),
    ground arith,
    record {
      done = ground arith;
      valid = record {
        sized = rw (length-set ms) (v.sized);
        small = omega arith;
        are_bytes =
            All-set ms (i / 8) _ v.are_bytes
              (write_bit-lt _ (i % 8) x (All-get_or ms (i / 8) v.are_bytes) (omega arith));
      };
      capacity = refl;
      bits = λ j. ground (arith, bits_after j hi);
    },
  )

set_by_mem :
    (m : Option (List ℕ)) (cap i : ℕ) (x : Bool)
    → IsValid (of m cap)
    → Returns (set (of m cap) i x) (SetsBit (of m cap) i x)
unfolding set
set_by_mem none cap i x v = (
  (false, of none cap),
  ground arith,
  record { done = ground arith; valid = v; capacity = refl; bits = λ j. ground arith },
)
set_by_mem (some ms) cap i x v = elim (Bool-cases (ltb i cap)) [
  | inl inside ↦ set_in_range ms cap i x v (ground arith)
  | inr outside ↦ (
    (false, of (some ms) cap),
    ground arith,
    record { done = ground arith; valid = v; capacity = refl; bits = λ j. ground arith },
  )
]

-- In a valid map `set` returns whether the index is in range, keeps the map valid and its capacity,
-- and changes that bit and no other; out of range it changes nothing.
pub set-SetsBit : (b : BitMap) (i : ℕ) (x : Bool) → IsValid b → Returns (set b i x) (SetsBit b i x)
set-SetsBit b i x v = set_by_mem b.mem b.capacity i x v

clear_by_mem :
    (m : Option (List ℕ)) (cap : ℕ)
    → IsValid (of m cap)
    → Returns (clear (of m cap)) λ c. IsValid c × (c.capacity ≡ cap) × ((j : ℕ) → view c j ≡ false)
unfolding clear
clear_by_mem none cap v = (of none cap, ground arith, (v, refl, λ j. ground arith))
clear_by_mem (some ms) cap v =
    let n = cap / 8 in
    let e : n ≡ length ms = omega (arith, v.sized) in
    (
      of (some (replicate n 0)) cap,
      rw (copy_bytes_whole ms (replicate n 0) n (length-replicate {A = ℕ} n 0) (omega arith)),
      (
        record {
          sized = omega (arith, length-replicate {A = ℕ} n 0, v.sized);
          small = omega arith;
          are_bytes = All-replicate n;
        },
        refl,
        λ j. ground (arith, get_or-replicate n (j / 8)),
      ),
    )

-- `clear` of a valid map keeps it valid and its capacity, and no bit is set afterwards.
pub clear-view :
    (b : BitMap)
    → IsValid b
    → Returns (clear b) λ c. IsValid c × (c.capacity ≡ b.capacity) × ((j : ℕ) → view c j ≡ false)
clear-view b v = clear_by_mem b.mem b.capacity v
