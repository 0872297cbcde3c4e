-- ===== src/Crypto/Sample.antt =====
-- A stand-in for OpenSSL with which the tests run: a context keeps the bytes it was given, a hash is
-- their last 32, points are numbers, and a signature passes if its first half is 32 bytes of 1.
use drachma_block_chain.Common.{
  ℕ, ◌+◌, ◌*◌, List, [], ◌∷◌, ◌++◌, drop, length, replicate, some, true, false,
}
use drachma_block_chain.Crypto.{OpenSsl}

abbrev be_number : ℕ → List ℕ → ℕ
be_number acc [] = acc
be_number acc (b ∷ bs) = be_number (acc * 256 + b) bs

abbrev pub sample_ssl : OpenSsl
sample_ssl = record {
  Context = List ℕ;
  sha256_init = [];
  sha256_update = λ c bytes. c ++ bytes;
  sha256_final = λ c. drop (length c) (replicate 32 0 ++ c);
  bin_to_bn = be_number 0;
  bn_to_bin_pad = λ n. replicate 32 1;
  Point = ℕ;
  order = 7;
  set_compressed_even = λ x. some x;
  is_on_curve = λ p. true;
  mul_generator = λ s. s;
  mul = λ p e. p * e;
  invert = λ p. p;
  add = λ p q. p + q;
  is_at_infinity = λ p. false;
  affine = λ p. (p, 0);
}
