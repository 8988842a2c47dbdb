-- ===== src/BitMap/Ones.antt =====
-- Numbers of ones, in bytes and words.
use alias.Prelude.{
  ℕ, zero, suc, ◌+◌, ◌*◌, ◌/◌, ◌%◌, ◌^◌, ◌<◌, ◌≡◌, refl, ap, ◌∙◌, Bool, List, [], ◌∷◌,
  if◌then◌else◌, arith,
}
use native.Mathlib.Nat.{pow-suc}
use alias.BitMap.Bytes.{bit_of}

-- The number of ones among the lowest `w` binary digits.
unfoldable pub ones : ℕ → ℕ → ℕ
ones zero x = 0
ones (suc w) x = x % 2 + ones w (x / 2)

-- The number of the `n` indices from `i` on at which `f` is true.
unfoldable pub tally : (ℕ → Bool) → ℕ → ℕ → ℕ
tally f i zero = 0
tally f i (suc n) = (if f i then 1 else 0) + tally f (i + 1) n

abbrev pub plus : ℕ → ℕ → ℕ
plus zero b = b
plus (suc a) b = suc (plus a b)

pub ones-plus : (a b x y : ℕ) → x < 2 ^ a → ones (plus a b) (x + 2 ^ a * y) ≡ ones a x + ones b y
unfolding ones
ones-plus zero b x y h = let e : x + 2 ^ zero * y ≡ y = omega arith in rw e (omega arith)
ones-plus (suc a) b x y h =
    let p : 2 ^ suc a ≡ 2 * 2 ^ a = omega (arith, pow-suc 2 a) in
    let q : 2 ^ suc a * y ≡ 2 * (2 ^ a * y) = rw p (omega arith) in
    let half : (x + 2 ^ suc a * y) / 2 ≡ x / 2 + 2 ^ a * y = omega arith in
    omega (arith, ap (ones (plus a b)) half, ones-plus a b (x / 2) y (omega arith))

pub ones-zero : (w : ℕ) → ones w 0 ≡ 0
unfolding ones
ones-zero zero = refl
ones-zero (suc w) = omega (arith, ones-zero w)

unfoldable pub sum_ones : List ℕ → ℕ
sum_ones [] = 0
sum_ones (x ∷ xs) = ones 8 x + sum_ones xs

-- Four bytes as one word have the ones of the four.
pub ones_word :
    (a b c d : ℕ)
    → a < 256
    → b < 256
    → c < 256
    → d < 256
    → ones 32 (a + 256 * (b + 256 * (c + 256 * d))) ≡ ones 8 a + ones 8 b + ones 8 c + ones 8 d
ones_word a b c d ha hb hc hd = omega (
  arith,
  ones-plus 8 24 a (b + 256 * (c + 256 * d)) ha,
  ones-plus 8 16 b (c + 256 * d) hb,
  ones-plus 8 8 c d hc,
)

pub word_lo :
    (a b c d e : ℕ)
    → a < 256
    → b < 256
    → c < 256
    → d < 256
    → (a + 256 * (b + 256 * (c + 256 * (d + 256 * e)))) % 2 ^ 32
      ≡ a + 256 * (b + 256 * (c + 256 * d))
word_lo a b c d e ha hb hc hd = omega arith

pub word_hi :
    (a b c d e : ℕ)
    → a < 256
    → b < 256
    → c < 256
    → d < 256
    → (a + 256 * (b + 256 * (c + 256 * (d + 256 * e)))) / 2 ^ 32 ≡ e
word_hi a b c d e ha hb hc hd = omega arith

pub bit_value : (x p : ℕ) → (if bit_of x p then 1 else 0) ≡ x / 2 ^ p % 2
bit_value x p = ground arith

-- The eight bits of a byte, one after the other.
pub tally_byte :
    (f : ℕ → Bool) (i x n : ℕ)
    → ((p : ℕ) → p < 8 → f (i + p) ≡ bit_of x p)
    → tally f i (plus 8 n) ≡ ones 8 x + tally f (i + 8) n
unfolding tally ones
tally_byte f i x n h = omega (
  arith,
  digit 0 i (omega arith) (omega arith),
  digit 1 (i + 1) (omega arith) (omega arith),
  digit 2 (i + 1 + 1) (omega arith) (omega arith),
  digit 3 (i + 1 + 1 + 1) (omega arith) (omega arith),
  digit 4 (i + 1 + 1 + 1 + 1) (omega arith) (omega arith),
  digit 5 (i + 1 + 1 + 1 + 1 + 1) (omega arith) (omega arith),
  digit 6 (i + 1 + 1 + 1 + 1 + 1 + 1) (omega arith) (omega arith),
  digit 7 (i + 1 + 1 + 1 + 1 + 1 + 1 + 1) (omega arith) (omega arith),
  rest (i + 1 + 1 + 1 + 1 + 1 + 1 + 1 + 1) (omega arith),
)
  where
    digit : (p j : ℕ) → j ≡ i + p → p < 8 → (if f j then 1 else 0) ≡ x / 2 ^ p % 2
    digit p j e lt = ap (λ b. if b then 1 else 0) (ap f e ∙ h p lt) ∙ bit_value x p

    rest : (j : ℕ) → j ≡ i + 8 → tally f j n ≡ tally f (i + 8) n
    rest j e = ap (λ k. tally f k n) e
