-- ===== src/BitMap/Count.antt =====
-- `count` against the bits that a map shows.
use alias.Prelude.{
  ℕ, zero, suc, ◌+◌, ◌*◌, ◌/◌, ◌%◌, ◌^◌, ◌≤◌, ◌<◌, leb, ◌≡◌, refl, ap, sym, ◌∙◌, Bool, true, List,
  [], ◌∷◌, Option, none, some, arith, length, get_or, take, drop, All, All-drop, drop-drop,
  take_all, length-drop,
}
use alias.Outcome.{ok}
use alias.BitMap.{BitMap, count, count_words, count_rest, count_bits64, word64}
use alias.BitMap.Bytes.{bit_of}
use alias.BitMap.Access.{IsValid, view, bytes}
use alias.BitMap.Ones.{
  ones, tally, plus, ones-plus, ones-zero, sum_ones, ones_word, word_lo, word_hi, tally_byte,
}

module _ (popcount : ℕ → ℕ) (counts : (x : ℕ) → x < 2 ^ 32 → popcount x ≡ ones 32 x) where
  eight :
      (ms : List ℕ)
      → 8 ≤ length ms
      → All (λ x. x < 256) ms
      → count_bits64 popcount (word64 (take 8 ms)) + sum_ones (drop 8 ms) ≡ sum_ones ms
  unfolding count_bits64 word64 sum_ones
  eight (a ∷ b ∷ c ∷ d ∷ e ∷ f ∷ g ∷ h ∷ r) len all =
      let hi : ℕ = e + 256 * (f + 256 * (g + 256 * (h + 0))) in
      let lo : ℕ = a + 256 * (b + 256 * (c + 256 * d)) in
      let lo_lem = word_lo a b c d hi all.0 all.1.0 all.1.1.0 all.1.1.1.0 in
      let hi_lem = word_hi a b c d hi all.0 all.1.0 all.1.1.0 all.1.1.1.0 in
      let hi_eq : hi ≡ e + 256 * (f + 256 * (g + 256 * h)) = omega arith in
      rw
        (
          lo_lem,
          hi_lem,
          counts lo (omega arith),
          hi_eq,
          counts (e + 256 * (f + 256 * (g + 256 * h))) (omega arith),
        )
        (omega (
          arith,
          ones_word a b c d (omega arith) (omega arith) (omega arith) (omega arith),
          ones_word e f g h (omega arith) (omega arith) (omega arith) (omega arith),
        ))
  eight _ len all = absurd (omega arith)

  words :
      (len : ℕ) (ms : List ℕ)
      → 8 * len ≤ length ms
      → All (λ x. x < 256) ms
      → count_words popcount len ms + sum_ones (drop (8 * len) ms) ≡ sum_ones ms
  unfolding count_words
  words zero ms h all = omega arith
  words (suc len) ms h all =
      let e : drop (8 * len) (drop 8 ms) ≡ drop (8 * suc len) ms =
        drop-drop (8 * len) 8 ms ∙ ap (λ k. drop k ms) (omega arith) in
      let tail = words len (drop 8 ms) (omega (arith, length-drop 8 ms)) (All-drop _ 8 ms all) in
      omega (arith, ap sum_ones e, tail, eight ms (omega arith) all)

  rest_ones : (ms : List ℕ) → All (λ x. x < 256) ms → count_rest popcount ms ≡ sum_ones ms
  unfolding count_rest sum_ones
  rest_ones [] all = refl
  rest_ones (x ∷ ms) all = ground (
    arith,
    counts x (omega arith),
    ones-plus 8 24 x 0 all.0,
    ones-zero 24,
    rest_ones ms all.1,
    ones-zero 32,
  )

  all_ones :
      (ms : List ℕ) (n : ℕ)
      → length ms ≡ n
      → All (λ x. x < 256) ms
      → count_words popcount (n / 8) ms + count_rest popcount (take (n % 8) (drop (n / 8 * 8) ms))
        ≡ sum_ones ms
  all_ones ms n len all =
      let tail = drop (n / 8 * 8) ms in
      let whole : take (n % 8) tail ≡ tail =
        take_all (n % 8) tail (omega (arith, length-drop (n / 8 * 8) ms)) in
      let e : drop (8 * (n / 8)) ms ≡ tail = ap (λ k. drop k ms) (omega arith) in
      rw whole (
        omega (
          arith,
          rest_ones tail (All-drop _ (n / 8 * 8) ms all),
          words (n / 8) ms (omega arith) all,
          ap sum_ones e,
        ))

-- A byte has at most eight ones.
ones-le : (w x : ℕ) → ones w x ≤ w
unfolding ones
ones-le zero x = omega arith
ones-le (suc w) x = omega (arith, ones-le w (x / 2))

sum_ones-le : (ms : List ℕ) → sum_ones ms ≤ length ms * 8
unfolding sum_ones
sum_ones-le [] = omega arith
sum_ones-le (x ∷ ms) = omega (arith, ones-le 8 x, sum_ones-le ms)

abbrev widths : List ℕ → ℕ
widths [] = 0
widths (x ∷ ms) = plus 8 (widths ms)

widths_lem : (ms : List ℕ) → widths ms ≡ length ms * 8
widths_lem [] = omega arith
widths_lem (x ∷ ms) = omega (arith, widths_lem ms)

nil_ones : sum_ones [] ≡ 0
unfolding sum_ones
nil_ones = refl

tally-zero : (f : ℕ → Bool) (i : ℕ) → tally f i 0 ≡ 0
unfolding tally
tally-zero f i = refl

tally_bytes :
    (f : ℕ → Bool) (k : ℕ) (ms : List ℕ)
    → ((j p : ℕ) → p < 8 → j < length ms → f (k * 8 + j * 8 + p) ≡ bit_of (get_or ms j 0) p)
    → tally f (k * 8) (widths ms) ≡ sum_ones ms
unfolding sum_ones
tally_bytes f k [] h = tally-zero f (k * 8)
tally_bytes f k (x ∷ ms) h =
    let here = tally_byte f (k * 8) x (widths ms) (λ p lt.
      ap f (let e : k * 8 + p ≡ k * 8 + 0 * 8 + p = omega arith in e) ∙ h 0 p lt (omega arith)) in
    let next = tally_bytes f (k + 1) ms (λ j p lt within.
      ap f (let e : (k + 1) * 8 + j * 8 + p ≡ k * 8 + suc j * 8 + p = omega arith in e)
      ∙ h (suc j) p lt (omega arith)) in
    let at_next : tally f (k * 8 + 8) (widths ms) ≡ tally f ((k + 1) * 8) (widths ms) =
      ap (λ i. tally f i (widths ms)) (omega arith) in
    omega (arith, here, next, at_next)

abbrev of : Option (List ℕ) → ℕ → BitMap
of m k = record { mem = m; capacity = k }

tally-view :
    (m : Option (List ℕ)) (k : ℕ)
    → IsValid (of m k)
    → tally (view (of m k)) 0 k ≡ sum_ones (bytes (of m k))
tally-view m k v =
    let ms = bytes (of m k) in
    let same = tally_bytes (view (of m k)) 0 ms (λ j p lt within.
      let q : (0 * 8 + j * 8 + p) / 8 ≡ j = omega arith in
      let r : (0 * 8 + j * 8 + p) % 8 ≡ p = omega arith in rw (q, r) (ground (arith, v.sized))) in
    let e : widths ms ≡ k = omega (arith, widths_lem ms, v.sized) in
    ap (λ n. tally (view (of m k)) 0 n) (sym e) ∙ same

count_by_mem :
    (popcount : ℕ → ℕ)
    → ((x : ℕ) → x < 2 ^ 32 → popcount x ≡ ones 32 x)
    → (m : Option (List ℕ)) (k : ℕ) → IsValid (of m k)
    → count popcount (of m k) ≡ ok (sum_ones (bytes (of m k)))
unfolding count
count_by_mem popcount counts none k v = ground (arith, v.sized, nil_ones)
count_by_mem popcount counts (some ms) k v =
    let size : k / 8 ≡ length ms = omega (arith, v.sized) in
    let fits : leb (k / 8) (length ms) ≡ true = ground arith in
    rw (fits, all_ones popcount counts ms (k / 8) (omega arith) v.are_bytes)
      (ap ok (omega (arith, sum_ones-le ms, v.small, v.sized)))

-- In a valid map `count` returns how many of the bits shown are set.
pub count-view :
    (popcount : ℕ → ℕ)
    → ((x : ℕ) → x < 2 ^ 32 → popcount x ≡ ones 32 x)
    → (b : BitMap) → IsValid b
    → count popcount b ≡ ok (tally (view b) 0 b.capacity)
count-view popcount counts b v =
    count_by_mem popcount counts b.mem b.capacity v ∙ ap ok (sym (tally-view b.mem b.capacity v))
