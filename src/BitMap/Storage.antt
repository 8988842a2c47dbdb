-- ===== src/BitMap/Storage.antt =====
-- Construction, growth and copying of a bit map.
use alias.Prelude.{
  ℕ, zero, suc, ◌+◌, ◌-◌, ◌*◌, ◌/◌, ◌^◌, ◌≤◌, ◌<◌, ◌==◌, ltb, leb, ◌≡◌, refl, ap, ◌∙◌, Bool, true,
  false, List, [], ◌∷◌, ◌++◌, Option, none, some, if◌then◌else◌, arith, length, get_or, replicate,
  drop, All-append, Bool-cases, inl, inr, take_all, length-replicate, length-append, length-drop,
}
use alias.Outcome.{ok, crash, ◌>>=◌, Returns, copy_bytes, copy_bytes_within}
use alias.BitMap.{BitMap, null_map, alloc, move_to, reserve, copy, fill_from}
use alias.BitMap.Access.{IsValid, view, All-replicate, get_or-replicate}

pub null_map-IsValid : IsValid null_map
null_map-IsValid = omega arith

-- The bytes that a request for `n` bits takes.
abbrev pub byte_count : ℕ → ℕ
byte_count n = (n + 7) / 8

pub alloc_lem :
    (n : ℕ) → n ≤ 2 ^ 32 - 8 → alloc true n ≡ (some (replicate (byte_count n) 0), byte_count n * 8)
unfolding alloc
alloc_lem n h = ground arith

get_or-append :
    (xs ys : List ℕ) (i : ℕ)
    → get_or (xs ++ ys) i 0
      ≡ (if ltb i (length xs) then get_or xs i 0 else get_or ys (i - length xs) 0)
get_or-append [] ys i = ground arith
get_or-append (x ∷ xs) ys zero = ground arith
get_or-append (x ∷ xs) ys (suc i) = ground (arith, get_or-append xs ys i)

drop-replicate : (n m : ℕ) → drop n (replicate {A = ℕ} m 0) ≡ replicate (m - n) 0
drop-replicate zero m = ap (λ k. replicate {A = ℕ} k 0) (omega arith)
drop-replicate (suc n) zero =
    ap (λ k. replicate {A = ℕ} k 0) (let e : 0 ≡ 0 - suc n = omega arith in e)
drop-replicate (suc n) (suc m) = drop-replicate n m ∙ ap (λ k. replicate {A = ℕ} k 0) (omega arith)

-- What growing to `n` bits gives.
pub record Grows (b : BitMap) (n : ℕ) (r : Bool × BitMap) : Type 0 where
  pub done : r.0 ≡ true
  pub valid : IsValid r.1
  pub room : n ≤ r.1.capacity
  pub keeps : b.capacity ≤ r.1.capacity
  pub bits : (j : ℕ) → view r.1 j ≡ view b j

abbrev of : Option (List ℕ) → ℕ → BitMap
of m k = record { mem = m; capacity = k }

module _ (n : ℕ) (h : n ≤ 2 ^ 32 - 8) where
  abbrev fresh : List ℕ
  fresh = replicate (byte_count n) 0

  move_to_by_mem :
      (m : Option (List ℕ)) (k : ℕ)
      → k < n
      → IsValid (of m k)
      → Returns (move_to (of m k) (some fresh, byte_count n * 8)) (Grows (of m k) n)
  unfolding move_to
  move_to_by_mem none k small v = (
    (true, of (some fresh) (byte_count n * 8)),
    ground arith,
    record {
      done = refl;
      valid = record {
        sized = omega (arith, length-replicate {A = ℕ} (byte_count n) 0);
        small = omega arith;
        are_bytes = All-replicate (byte_count n);
      };
      room = omega arith;
      keeps = omega arith;
      bits = λ j. ground (arith, get_or-replicate (byte_count n) (j / 8));
    },
  )
  move_to_by_mem (some ms) k small v =
      let len : length ms ≡ k / 8 = omega (arith, v.sized) in
      let size = length-replicate {A = ℕ} (byte_count n) 0 in
      let rest = drop (k / 8) fresh in
      let rest_eq : rest ≡ replicate (byte_count n - k / 8) 0 =
        drop-replicate (k / 8) (byte_count n) in
      let step : move_to (of (some ms) k) (some fresh, byte_count n * 8)
          ≡ ok (true, of (some (ms ++ rest)) (byte_count n * 8)) =
        ap (λ c. copy_bytes (some fresh) (some ms) c >>= (λ m. ok (true, of m (byte_count n * 8))))
          (let e : (if ltb (byte_count n * 8) k then byte_count n * 8 / 8 else k / 8) ≡ k / 8 =
              ground arith in
            e)
        ∙ rw (
          copy_bytes_within fresh ms (k / 8) (omega arith) (omega arith),
          take_all (k / 8) ms (omega arith),
        ) in
      (
        (true, of (some (ms ++ rest)) (byte_count n * 8)),
        step,
        record {
          done = refl;
          valid = record {
            sized = rw (length-append ms rest, length-drop (k / 8) fresh) (omega (arith, size));
            small = omega arith;
            are_bytes =
                All-append (λ x. x < 256) ms rest v.are_bytes (rw rest_eq (All-replicate _));
          };
          room = omega arith;
          keeps = omega arith;
          bits = λ j. rw (get_or-append ms rest (j / 8), rest_eq, get_or-replicate) (ground arith);
        },
      )

-- A map asked for at most 2 ^ 32 - 8 bits has at least that room afterwards, is valid, has lost no
-- capacity and shows the same bits.
pub reserve-Grows :
    (b : BitMap) (n : ℕ) → IsValid b → n ≤ 2 ^ 32 - 8 → Returns (reserve true b n) (Grows b n)
unfolding reserve
reserve-Grows b n v h = elim (Bool-cases (leb n b.capacity)) [
  | inl roomy ↦ (
    (true, b),
    rw roomy,
    record { done = refl; valid = v; room = ground arith; keeps = omega arith; bits = λ j. refl },
  )
  | inr small ↦ rw (small, alloc_lem n h) (move_to_by_mem n h b.mem b.capacity (ground arith) v)
]

fill_from_crash :
    (ms : List ℕ) (n : ℕ)
    → 0 < n
    → n ≤ 2 ^ 32 - 8
    → fill_from ms (some (replicate (byte_count n) 0), byte_count n * 8) ≡ crash
unfolding fill_from
fill_from_crash ms n pos h = ground (arith, length-replicate {A = ℕ} (byte_count n) 0)

copy_by_mem :
    (m : Option (List ℕ)) (k : ℕ)
    → IsValid (of m k)
    → 0 < k
    → k ≤ 2 ^ 32 - 8
    → copy true (of m k) ≡ crash
unfolding copy
copy_by_mem none k v pos h = absurd (omega arith)
copy_by_mem (some ms) k v pos h =
    let e : (k == 0) ≡ false = ground arith in rw (e, alloc_lem k h) (fill_from_crash ms k pos h)

-- The copy constructor makes no copy of a valid map that has room: its `memcpy` takes the number of
-- bits for the number of bytes and leaves the block that it has just got.
pub copy-crash :
    (b : BitMap) → IsValid b → 0 < b.capacity → b.capacity ≤ 2 ^ 32 - 8 → copy true b ≡ crash
copy-crash b v pos h = copy_by_mem b.mem b.capacity v pos h
