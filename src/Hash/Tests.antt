-- ===== src/Hash/Tests.antt =====
-- The sizes and the hash function on small inputs.
use alias.Prelude.{◌≡◌, refl, [], ◌∷◌}
use alias.Hash.{
  Prime, prime_at, prime_for_num_bits, count_bits, count_loop, compute, compute_from, compute2,
  compute2_from, compute2_bytes, rotate_left,
}

prime_for_num_bits_test : prime_for_num_bits 8 ≡ Prime.fits 257
unfolding prime_for_num_bits prime_at
prime_for_num_bits_test = refl

count_bits_test : count_bits 131 ≡ 7
unfolding count_bits count_loop prime_at
count_bits_test = refl

-- The published FNV-1a value of the text "a".
compute_test : compute (97 ∷ []) ≡ 0xe40c292c
unfolding compute compute_from
compute_test = refl

compute2_test : compute2 (1 ∷ 0 ∷ 0 ∷ 0 ∷ 2 ∷ []) ≡ 0x200200
unfolding compute2 compute2_from compute2_bytes rotate_left
compute2_test = refl
