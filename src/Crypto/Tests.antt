-- ===== src/Crypto/Tests.antt =====
-- The theorems on signatures of layer1-core/crypto/schnorr.cpp in a group of seven elements.
use drachma_block_chain.Common.{
  ℕ, zero, suc, ◌+◌, ◌-◌, ◌*◌, ◌%◌, ◌≡◌, ◌≢◌, length, refl, arith, List, [], ◌∷◌, ◌++◌, replicate,
  some, true, false, ◌==◌, bytes_eq,
}
use native.Mathlib.Nat.{suc-mul}
use drachma_block_chain.Crypto.{
  OpenSsl, tagged_hash_bip340, load_pub_key, recovered, matches, verify_schnorr,
}
use drachma_block_chain.Crypto.Sample.{sample_ssl}
use drachma_block_chain.Crypto.Signatures.{
  GroupLaws, PaddingLaws, shifted, challenge, verify_schnorr_complete, verify_schnorr_malleable,
}

-- A point is a number below 7, and 0 is the point at infinity; the hash is that of the stand-in.
abbrev cyclic_ssl : OpenSsl
cyclic_ssl = record sample_ssl {
  order = 7;
  set_compressed_even = λ x. some (x % 7);
  mul_generator = λ s. s % 7;
  mul = λ p e. e * p % 7;
  invert = λ p. (7 - p) % 7;
  add = λ p q. (p + q) % 7;
  is_at_infinity = λ p. p == 0;
  bn_to_bin_pad = λ n. replicate 31 0 ++ n ∷ [];
}

times_mod : (e d : ℕ) → e * (d % 7) % 7 ≡ e * d % 7
times_mod zero d = omega arith
times_mod (suc e) d = omega (arith, times_mod e d, suc-mul e (d % 7), suc-mul e d)

cyclic_laws : GroupLaws cyclic_ssl
cyclic_laws = record {
  add-invert = λ a b. omega arith;
  generator_sum = λ a b. omega arith;
  generator_mul = λ d e. times_mod e d;
  generator_order = λ a. omega arith;
}

abbrev number_bytes : ℕ → List ℕ
number_bytes n = replicate 31 0 ++ n ∷ []

challenge_is : challenge cyclic_ssl (number_bytes 4) (number_bytes 2) (1 ∷ []) ≡ 2
unfolding challenge tagged_hash_bip340
challenge_is = refl

verify_schnorr_complete_example :
    verify_schnorr cyclic_ssl (number_bytes 2) (number_bytes 4 ++ number_bytes 1) (1 ∷ []) ≡ true
unfolding load_pub_key matches challenge tagged_hash_bip340 bytes_eq
verify_schnorr_complete_example =
    verify_schnorr_complete cyclic_ssl cyclic_laws (number_bytes 2) (number_bytes 4)
      (number_bytes 1) (1 ∷ []) 2 4 refl refl refl refl refl

cyclic_padding : PaddingLaws cyclic_ssl
cyclic_padding = record { padded_size = λ n small. refl; padded_value = λ n small. omega arith }

abbrev small_signature : List ℕ
small_signature = number_bytes 4 ++ number_bytes 1

verify_schnorr_malleable_example :
    (length (shifted cyclic_ssl small_signature) ≡ 64)
    × (shifted cyclic_ssl small_signature ≢ small_signature)
    × (verify_schnorr cyclic_ssl (number_bytes 2) (shifted cyclic_ssl small_signature) (1 ∷ [])
        ≡ true)
verify_schnorr_malleable_example =
    verify_schnorr_malleable cyclic_ssl cyclic_laws cyclic_padding (number_bytes 2) small_signature
      (1 ∷ []) refl (omega arith) (omega arith) verify_schnorr_complete_example

-- A signature for another message does not pass.
other_message :
    verify_schnorr cyclic_ssl (number_bytes 2) (number_bytes 4 ++ number_bytes 1) (2 ∷ []) ≡ false
unfolding verify_schnorr load_pub_key matches recovered tagged_hash_bip340 bytes_eq
other_message = refl
