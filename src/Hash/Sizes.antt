-- ===== src/Hash/Sizes.antt =====
-- How many buckets a table gets.
use native.Mathlib.Nat.{pow-suc, pow-le-pow_right, one-le-pow}
use alias.Prelude.{
  ℕ, zero, suc, ◌+◌, ◌*◌, ◌/◌, ◌^◌, ◌≤◌, ◌<◌, ◌==◌, leb, ltb, ltb→lt, lt→ltb, ◌∙◌, if◌then◌else◌,
  ap, ◌≡◌, refl, Bool, true, false, length, arith, Bool-cases, inl, inr,
}
use alias.Prelude.Bits.{every, every_lem}
use alias.Outcome.{Outcome, ok}
use alias.Hash.{
  Hint, bits, Prime, prime_for_num_bits, prime_below, prime_deltas, prime_at, count_loop,
  count_bits, capacity, raise_bits, target_bits,
}

-- One less than the number of binary digits of `x`, as the loop adds it to what it has counted.
record Counts (fuel x m : ℕ) : Type 0 where
  n : ℕ
  counted : count_loop fuel x m ≡ m + n
  lower : 2 ^ n ≤ x
  upper : x < 2 * 2 ^ n
  enough : n ≤ fuel

count_loop-Counts : (fuel x m : ℕ) → 0 < x → x < 2 ^ suc fuel → Counts fuel x m
unfolding count_loop
count_loop-Counts zero x m pos bound = record {
  n = 0;
  counted = omega arith;
  lower = omega arith;
  upper = omega arith;
  enough = omega arith;
}
count_loop-Counts (suc fuel) x m pos bound = elim (Bool-cases (ltb 1 x)) [
  | inl more ↦
      let large : 1 < x = ltb→lt 1 x more in
      let rest =
        count_loop-Counts fuel (x / 2) (m + 1) (omega arith)
          (omega (arith, pow-suc 2 (suc fuel))) in
      record {
        n = suc rest.n;
        counted = rw more (omega (arith, rest.counted));
        lower = omega (arith, rest.lower, pow-suc 2 rest.n);
        upper = omega (arith, rest.upper, pow-suc 2 rest.n);
        enough = omega (arith, rest.enough);
      }
  | inr last ↦
      let small : x ≡ 1 = ground arith in
      record {
        n = 0;
        counted = rw last (omega arith);
        lower = omega arith;
        upper = omega arith;
        enough = omega arith;
      }
]

-- The delta of `n` bits is less than 2 ^ n.
small_table : every (λ n. ltb (prime_at n) (2 * 2 ^ n)) 32 ≡ true
unfolding every prime_at
small_table = refl

prime_small : (n : ℕ) → n < 32 → prime_at n < 2 * 2 ^ n
prime_small n bound = ltb→lt _ _ (every_lem _ 32 n small_table bound)

prime_large : (n : ℕ) → 2 ^ n ≤ prime_at n
unfolding prime_at
prime_large n = omega arith

-- Each number of bits below `n` has too small a prime.
abbrev pub all_short : ℕ → ℕ → Bool
all_short hint n = every (λ k. ltb (prime_at k) hint) n

powers_short : (hint n : ℕ) → n < 32 → 2 ^ n ≤ hint → all_short hint n ≡ true
unfolding every
powers_short hint zero bound lower = refl
powers_short hint (suc n) bound lower =
    let before = powers_short hint n (omega arith) (omega (arith, pow-suc 2 n)) in
    let here : ltb (prime_at n) hint ≡ true =
      lt→ltb _ _ (omega (arith, prime_small n (omega arith), pow-suc 2 n)) in
    rw (before, here)

module _ (hint : ℕ) (pos : 0 < hint) (bound : hint < 2 ^ 31) where
  abbrev found : Counts 30 hint 0
  found = count_loop-Counts 30 hint 0 pos bound

  abbrev smaller : Bool
  smaller = ltb (prime_at found.n) hint

  counted_bits : count_bits hint ≡ (if smaller then found.n + 1 else found.n)
  unfolding count_bits
  counted_bits =
      let n : count_loop 30 hint 0 ≡ found.n = omega (arith, found.counted) in
      let fits : leb (length prime_deltas) found.n ≡ false = ground (arith, found.enough) in
      rw (n, fits)

  -- For every positive `int`, `countBits` gives the least number of bits whose prime is at least the
  -- hint.
  pub count_bits-least :
      (hint ≤ prime_at (count_bits hint)) × (all_short hint (count_bits hint) ≡ true)
  unfolding every
  count_bits-least =
      let shorter = powers_short hint found.n (omega (arith, found.enough)) found.lower in
      elim (Bool-cases smaller) [
        | inl more ↦
            let e : count_bits hint ≡ suc found.n = counted_bits ∙ rw more (omega arith) in
            (
              rw e (omega (arith, prime_large (suc found.n), pow-suc 2 found.n, found.upper)),
              rw (e, shorter, more),
            )
        | inr enough ↦
            let e : count_bits hint ≡ found.n = counted_bits ∙ rw enough in
            (rw e (ground arith), rw (e, shorter))
      ]

pow_le : (a b : ℕ) → a ≤ b → 2 ^ a ≤ 2 ^ b
pow_le a b le = pow-le-pow_right (omega arith) le

prime_mono : (a b : ℕ) → a < 32 → a < b → prime_at a < prime_at b
prime_mono a b bound lt =
    omega (arith, prime_small a bound, pow-suc 2 a, pow_le (suc a) b (omega arith), prime_large b)

pub prime_for_num_bits_lem : (b : ℕ) → b ≤ 30 → prime_for_num_bits b ≡ Prime.fits (prime_at b)
unfolding prime_for_num_bits
prime_for_num_bits_lem b le = let small : leb b 30 ≡ true = ground arith in rw small

prime_below_lem : (b n : ℕ) → b ≤ 30 → prime_below b n ≡ ok (ltb (prime_at b) n)
unfolding prime_below
prime_below_lem b n le = rw (prime_for_num_bits_lem b le, prime_below)

prime_30 : prime_at 30 ≡ 2 ^ 30 + 3
unfolding prime_at
prime_30 = refl

-- Where the loop ends, from a number of bits that fits.
record Raises (half hint : ℕ) (r : Outcome ℕ) : Type 0 where
  b : ℕ
  gives : r ≡ ok b
  more : hint ≤ b
  within : b ≤ 30
  holds : half ≤ prime_at b

not_last : (hint half : ℕ) → half < 2 ^ 30 → hint ≤ 30 → ltb (prime_at hint) half ≡ true → hint < 30
not_last hint half bound le short = elim (Bool-cases (hint == 30)) [
  | inl last ↦
      let e : hint ≡ 30 = ground arith in
      absurd (omega (arith, ltb→lt _ _ short, ap prime_at e, prime_30))
  | inr other ↦ ground arith
]

raise_bits_lem :
    (fuel half hint : ℕ)
    → half < 2 ^ 30
    → hint ≤ 30
    → 31 ≤ hint + fuel
    → Raises half hint (raise_bits fuel half hint)
unfolding raise_bits
raise_bits_lem zero half hint bound le enough = absurd (omega arith)
raise_bits_lem (suc fuel) half hint bound le enough = elim (Bool-cases (ltb (prime_at hint) half)) [
  | inl short ↦
      let below : hint < 30 = not_last hint half bound le short in
      let rest = raise_bits_lem fuel half (hint + 1) bound (omega arith) (omega arith) in
      record {
        b = rest.b;
        gives = rw (prime_below_lem hint half le, short) rest.gives;
        more = omega (arith, rest.more);
        within = rest.within;
        holds = rest.holds;
      }
  | inr long ↦ record {
    b = hint;
    gives = rw (prime_below_lem hint half le, long) refl;
    more = omega arith;
    within = le;
    holds = ground arith;
  }
]

prime_holds : (hint a b : ℕ) → hint < 2 ^ 31 → hint ≤ prime_at a → a ≤ b → hint ≤ prime_at b
prime_holds hint a b bound holds le = elim (Bool-cases (ltb a 32)) [
  | inr e ↦ omega (arith, pow_le 31 b (ground arith), prime_large b)
  | inl e ↦ elim (Bool-cases (a == b)) [
    | inl same ↦ let q : a ≡ b = ground arith in rw (← q) holds
    | inr other ↦ omega (arith, prime_mono a b (ground arith) (ground arith))
  ]
]

-- A hint for which no `int` overflows: up to 30 bits, or a capacity up to their prime, 2 ^ 30 + 3.
unfoldable pub FitsInt : Hint → Type 0
FitsInt (capacity n) = (0 < n) × (n ≤ prime_at 30)
FitsInt (bits n) = n ≤ 30

count_bits_bound : (n : ℕ) → 0 < n → n ≤ prime_at 30 → count_bits n ≤ 30
count_bits_bound n pos bound =
    let below : n < 2 ^ 31 = omega (arith, prime_30) in
    elim (Bool-cases (smaller n pos below)) [
      | inr enough ↦
          let e : count_bits n ≡ (found n pos below).n = counted_bits n pos below ∙ rw enough in
          omega (arith, e, (found n pos below).enough)
      | inl more ↦ elim (Bool-cases ((found n pos below).n == 30)) [
        | inl last ↦
            let e : (found n pos below).n ≡ 30 = ground arith in
            absurd (omega (arith, ltb→lt _ _ more, ap prime_at e, bound))
        | inr other ↦
            let few : (found n pos below).n < 30 = ground (arith, (found n pos below).enough) in
            let e : count_bits n ≡ (found n pos below).n + 1 = counted_bits n pos below ∙ rw more in
            omega (arith, e, few)
      ]
    ]

-- The number of bits is at least what the hint asks for, and a capacity leaves half of the buckets.
unfoldable pub Serves : Hint → ℕ → ℕ → Type 0
Serves (bits n) num_buckets b = n ≤ b
Serves (capacity n) num_buckets b = (n ≤ prime_at b) × (num_buckets / 2 ≤ prime_at b)

-- `rehash` changes to at least 4 bits and at most 30, and for a capacity to a prime that is at least
-- the capacity and at least half of the present number of buckets.
pub target_bits-enough :
    (hint : Hint) (num_buckets : ℕ)
    → FitsInt hint
    → num_buckets < 2 ^ 31
    → (b : ℕ) × (target_bits hint num_buckets ≡ ok b)
      × (4 ≤ b)
      × (b ≤ 30)
      × Serves hint num_buckets b
unfolding target_bits FitsInt Serves
target_bits-enough (bits n) num_buckets fit few = elim (Bool-cases (ltb n 4)) [
  | inl low ↦ (4, rw low refl, omega arith, omega arith, ground arith)
  | inr high ↦ (n, rw high refl, ground arith, fit, omega arith)
]
target_bits-enough (capacity n) num_buckets fit few =
    let start = if ltb (count_bits n) 4 then 4 else count_bits n in
    let bound : n < 2 ^ 31 = omega (arith, fit.1, prime_30) in
    let counted : count_bits n ≤ 30 = count_bits_bound n fit.0 fit.1 in
    let low : (4 ≤ start) × (count_bits n ≤ start) × (start ≤ 30) = ground arith in
    let r =
      raise_bits_lem 33 (num_buckets / 2) start (omega arith) (omega (arith, low.2))
        (omega arith) in
    let (holds, _) = count_bits-least n fit.0 bound in
    (
      r.b,
      r.gives,
      omega (arith, low.0, r.more),
      r.within,
      (prime_holds n (count_bits n) r.b bound holds (omega (arith, low.1, r.more)), r.holds),
    )

pub prime_pos : (n : ℕ) → 0 < prime_at n
prime_pos n = omega (arith, prime_large n, one-le-pow n 2 (omega arith))
