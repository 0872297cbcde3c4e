-- ===== src/Crypto.antt =====
-- layer1-core/pow/sha256d.cpp, layer1-core/crypto/tagged_hash.cpp and layer1-core/crypto/schnorr.cpp.
-- What they call of OpenSSL is a parameter: the streaming SHA-256 and the arithmetic of secp256k1. A
-- `BIGNUM` is a number, and an allocation that fails is left out.
pub mod Sample
pub mod Signatures
mod Tests
use drachma_block_chain.Common.{
  ℕ, ◌%◌, List, [], ◌∷◌, ◌++◌, take, drop, Option, none, some, Bool, false, ◌==◌, if◌then◌else◌,
  ◌&&◌, not, bytes_eq, codes,
}

-- A context is what `SHA256_CTX` holds. `set_compressed_even` is `EC_POINT_set_compressed_coordinates_GFp`
-- with the bit of y 0 (`none` when it fails), `mul_generator s` is `EC_POINT_mul` by a scalar of the
-- generator, and `mul p e` by a scalar of a point.
pub record OpenSsl : Type 1 where
  pub Context : Type 0
  pub sha256_init : Context
  pub sha256_update : Context → List ℕ → Context
  pub sha256_final : Context → List ℕ
  pub bin_to_bn : List ℕ → ℕ
  pub bn_to_bin_pad : ℕ → List ℕ
  pub Point : Type 0
  pub order : ℕ
  pub set_compressed_even : ℕ → Option Point
  pub is_on_curve : Point → Bool
  pub mul_generator : ℕ → Point
  pub mul : Point → ℕ → Point
  pub invert : Point → Point
  pub add : Point → Point → Point
  pub is_at_infinity : Point → Bool
  pub affine : Point → ℕ × ℕ

module _ (ssl : OpenSsl) where
  -- `SHA256`
  unfoldable pub sha256 : List ℕ → List ℕ
  sha256 bytes = ssl.sha256_final (ssl.sha256_update ssl.sha256_init bytes)

  -- `SHA256d`
  unfoldable pub sha256d : List ℕ → List ℕ
  sha256d bytes = sha256 (sha256 bytes)

  -- `TaggedHash`
  unfoldable pub tagged_hash : List ℕ → List ℕ → List ℕ
  tagged_hash tag bytes = let h = sha256 tag in sha256 (h ++ (h ++ bytes))

  -- `TaggedHashBIP340`
  unfoldable pub tagged_hash_bip340 : List ℕ → List ℕ
  tagged_hash_bip340 msg =
      let h = ssl.sha256_final (ssl.sha256_update ssl.sha256_init (codes "BIP0340/challenge")) in
      let once = ssl.sha256_update ssl.sha256_init h in
      let twice = ssl.sha256_update once h in ssl.sha256_final (ssl.sha256_update twice msg)

  -- `LoadPubKey`: the point, if there is one and it is on the curve.
  unfoldable pub load_pub_key : List ℕ → Option ssl.Point
  load_pub_key xonly = elim (ssl.set_compressed_even (ssl.bin_to_bn xonly)) [
    | none ↦ none
    | some p ↦ if ssl.is_on_curve p then some p else none
  ]

  -- `s*G - e*P`, which has to be the point R of the signature.
  unfoldable pub recovered : ssl.Point → ℕ → ℕ → ssl.Point
  recovered p s e = ssl.add (ssl.mul_generator s) (ssl.invert (ssl.mul p e))

  -- The last test: R has an even y and the x that the signature names.
  unfoldable pub matches : ssl.Point → List ℕ → Bool
  matches r r_bytes =
      let (x, y) = ssl.affine r in y % 2 == 0 && bytes_eq (ssl.bn_to_bin_pad x) r_bytes

  -- `VerifySchnorr`, which is called with a signature of 64 bytes.
  unfoldable pub verify_schnorr : List ℕ → List ℕ → List ℕ → Bool
  verify_schnorr pubkey sig msg =
      let r_bytes = take 32 sig in
      let s = ssl.bin_to_bn (drop 32 sig) in
      elim (load_pub_key pubkey) [
        | none ↦ false
        | some p ↦
            let e = ssl.bin_to_bn (tagged_hash_bip340 (r_bytes ++ (pubkey ++ msg))) % ssl.order in
            let r = recovered p s e in if ssl.is_at_infinity r then false else matches r r_bytes
      ]
