-- ===== src/BitMap/Bytes.antt =====
-- One byte under the masks: reading a bit after writing one.
use alias.Prelude.{
  ℕ, ◌/◌, ◌%◌, ◌^◌, ◌<◌, ◌==◌, ltb, ltb→lt, ◌≡◌, refl, Bool, true, false, ◌&&◌, if◌then◌else◌,
  arith,
}
use alias.Prelude.Bits.{every, every_lem}
use alias.BitMap.{write_bit, read_bit}

-- The bit at `p` by arithmetic, without the masks.
abbrev pub bit_of : ℕ → ℕ → Bool
bit_of x p = x / 2 ^ p % 2 == 1

abbrev same : Bool → Bool → Bool
same true b = b
same false true = false
same false false = true

same→≡ : (a b : Bool) → same a b ≡ true → a ≡ b
same→≡ true b h = ground arith
same→≡ false b h = ground arith

read_table : every (λ x. every (λ p. same (read_bit x p) (bit_of x p)) 8) 256 ≡ true
unfolding every read_bit
read_table = refl

-- Over a byte the mask reads the bit.
pub read_bit-bit_of : (x p : ℕ) → x < 256 → p < 8 → read_bit x p ≡ bit_of x p
read_bit-bit_of x p hx hp = same→≡ _ _ (every_lem _ 8 p (every_lem _ 256 x read_table hx) hp)

abbrev written : Bool → Bool
written v =
    every
      (λ x.
        every
          (λ p.
            ltb (write_bit x p v) 256
            && every (λ q. same (bit_of (write_bit x p v) q) (if q == p then v else bit_of x q)) 8)
          8)
      256

write_table : (v : Bool) → written v ≡ true
unfolding every write_bit
write_table true = refl
write_table false = refl

and_left : (a b : Bool) → (a && b) ≡ true → a ≡ true
and_left a b h = ground arith

and_right : (a b : Bool) → (a && b) ≡ true → b ≡ true
and_right a b h = ground arith

pub write_bit-lt : (x p : ℕ) (v : Bool) → x < 256 → p < 8 → write_bit x p v < 256
write_bit-lt x p v hx hp =
    ltb→lt _ _ (and_left _ _ (every_lem _ 8 p (every_lem _ 256 x (write_table v) hx) hp))

-- Writing the bit at `p` changes that bit and no other.
pub bit_of-write_bit :
    (x p q : ℕ) (v : Bool)
    → x < 256
    → p < 8
    → q < 8
    → bit_of (write_bit x p v) q ≡ (if q == p then v else bit_of x q)
bit_of-write_bit x p q v hx hp hq =
    same→≡ _ _ (
      every_lem _ 8 q (and_right _ _ (every_lem _ 8 p (every_lem _ 256 x (write_table v) hx) hp))
        hq)
