-- ===== src/Crypto/Signatures.antt =====
-- `VerifySchnorr` of layer1-core/crypto/schnorr.cpp against the signatures of BIP 340.
use drachma_block_chain.Common.{
  ℕ, ◌+◌, ◌*◌, ◌%◌, ◌≡◌, ◌≢◌, ◌^◌, ◌<◌, refl, sym, ap, ◌∙◌, arith, List, ◌++◌, length, take, drop,
  take-append, drop-append, take-append-drop, length-take, length-append, true, false, Option, some,
  none, if◌then◌else◌, if_false, Bool,
}
use native.Mathlib.Nat.{add-mod_right}
use drachma_block_chain.Crypto.{
  OpenSsl, tagged_hash_bip340, load_pub_key, recovered, matches, verify_schnorr,
}

-- The laws of the group that the arithmetic of OpenSSL computes in, for multiples of the generator.
pub record GroupLaws (ssl : OpenSsl) : Type 0 where
  pub add-invert :
      (a b : ℕ)
      → ssl.add
          (ssl.add (ssl.mul_generator a) (ssl.mul_generator b))
          (ssl.invert (ssl.mul_generator b))
        ≡ ssl.mul_generator a
  pub generator_sum :
      (a b : ℕ) → ssl.mul_generator (a + b) ≡ ssl.add (ssl.mul_generator a) (ssl.mul_generator b)
  pub generator_mul : (d e : ℕ) → ssl.mul (ssl.mul_generator d) e ≡ ssl.mul_generator (e * d)
  pub generator_order : (a : ℕ) → ssl.mul_generator (a % ssl.order) ≡ ssl.mul_generator a

module _ (ssl : OpenSsl) where
  -- The number e of a signature: the hash of r, the key and the message.
  unfoldable pub challenge : List ℕ → List ℕ → List ℕ → ℕ
  challenge r pubkey msg = ssl.bin_to_bn (tagged_hash_bip340 ssl (r ++ (pubkey ++ msg))) % ssl.order

  point_verdict : List ℕ → ssl.Point → Bool
  point_verdict r point = if ssl.is_at_infinity point then false else matches ssl point r

  -- The verdict by the key and the multiple of the generator.
  unfoldable key_verdict : Option ssl.Point → List ℕ → ℕ → ssl.Point → Bool
  key_verdict none r e signed = false
  key_verdict (some p) r e signed = point_verdict r (ssl.add signed (ssl.invert (ssl.mul p e)))

  -- The verdict on a signature that is taken apart.
  unfoldable verdict : List ℕ → List ℕ → ℕ → List ℕ → Bool
  verdict pubkey r s msg =
      key_verdict (load_pub_key ssl pubkey) r (challenge r pubkey msg) (ssl.mul_generator s)

  by_key :
      (o : Option ssl.Point) (r : List ℕ) (s e : ℕ)
      → (elim o [
        | none ↦ false
        | some p ↦
            let point = recovered ssl p s e in
            if ssl.is_at_infinity point then false else matches ssl point r
      ])
        ≡ key_verdict o r e (ssl.mul_generator s)
  unfolding key_verdict recovered point_verdict
  by_key none r s e = refl
  by_key (some p) r s e = refl

  verify-parts :
      (pubkey r s msg : List ℕ)
      → length r ≡ 32
      → verify_schnorr ssl pubkey (r ++ s) msg ≡ verdict pubkey r (ssl.bin_to_bn s) msg
  unfolding verify_schnorr verdict challenge
  verify-parts pubkey r s msg e =
      by_key (load_pub_key ssl pubkey) (take 32 (r ++ s)) (ssl.bin_to_bn (drop 32 (r ++ s))) _
      ∙ ap (λ t. verdict pubkey t (ssl.bin_to_bn (drop 32 (r ++ s))) msg)
          (take-append r s 32 (sym e))
      ∙ ap (λ t. verdict pubkey r (ssl.bin_to_bn t) msg) (drop-append r s 32 (sym e))

module _ (ssl : OpenSsl) (laws : GroupLaws ssl) where
  recovered_nonce :
      (d k e s : ℕ)
      → s ≡ (k + e * d) % ssl.order
      → recovered ssl (ssl.mul_generator d) s e ≡ ssl.mul_generator k
  unfolding recovered
  recovered_nonce d k e s h =
      let signed : ssl.mul_generator s ≡ ssl.add (ssl.mul_generator k) (ssl.mul_generator (e * d)) =
        ap ssl.mul_generator h ∙ laws.generator_order (k + e * d) ∙ laws.generator_sum k (e * d) in
      ap (λ p. ssl.add p (ssl.invert (ssl.mul (ssl.mul_generator d) e))) signed
      ∙ ap (λ p. ssl.add (ssl.add (ssl.mul_generator k) (ssl.mul_generator (e * d))) (ssl.invert p))
          (laws.generator_mul d e)
      ∙ laws.add-invert k (e * d)

  point_passes :
      (k e s d : ℕ) (r : List ℕ)
      → ssl.is_at_infinity (ssl.mul_generator k) ≡ false
      → matches ssl (ssl.mul_generator k) r ≡ true
      → s ≡ (k + e * d) % ssl.order
      → key_verdict ssl (some (ssl.mul_generator d)) r e (ssl.mul_generator s) ≡ true
  unfolding key_verdict point_verdict recovered
  point_passes k e s d r finite x_is_r signed =
      ap (point_verdict ssl r) (recovered_nonce d k e s signed)
      ∙ if_false (ssl.is_at_infinity (ssl.mul_generator k)) _ _ finite
      ∙ x_is_r

  around : (s : ℕ) → ssl.mul_generator (s + ssl.order) ≡ ssl.mul_generator s
  around s =
      sym (laws.generator_order (s + ssl.order))
      ∙ ap ssl.mul_generator (add-mod_right s ssl.order)
      ∙ laws.generator_order s

  -- A signature that was made as BIP 340 says passes: for the secret key d whose point has the x of the
  -- public key and an even y, and a nonce k whose point is not at infinity and has the x that the
  -- signature names and an even y, the second half of the signature is k + e * d modulo the order of the
  -- group, where e is the challenge. The group laws are those that OpenSSL computes with.
  pub verify_schnorr_complete :
      (pubkey r s msg : List ℕ) (d k : ℕ)
      → length r ≡ 32
      → load_pub_key ssl pubkey ≡ some (ssl.mul_generator d)
      → ssl.is_at_infinity (ssl.mul_generator k) ≡ false
      → matches ssl (ssl.mul_generator k) r ≡ true
      → ssl.bin_to_bn s ≡ (k + challenge ssl r pubkey msg * d) % ssl.order
      → verify_schnorr ssl pubkey (r ++ s) msg ≡ true
  verify_schnorr_complete pubkey r s msg d k size key finite x_is_r signed =
      verify-parts ssl pubkey r s msg size
      ∙ unfold verdict in
        (ap
            (λ o.
              key_verdict ssl o r (challenge ssl r pubkey msg)
                (ssl.mul_generator (ssl.bin_to_bn s)))
            key
          ∙ point_passes k (challenge ssl r pubkey msg) (ssl.bin_to_bn s) d r finite x_is_r signed)

  verify-around :
      (pubkey r s s' msg : List ℕ)
      → length r ≡ 32
      → ssl.bin_to_bn s' ≡ ssl.bin_to_bn s + ssl.order
      → verify_schnorr ssl pubkey (r ++ s') msg ≡ verify_schnorr ssl pubkey (r ++ s) msg
  verify-around pubkey r s s' msg size more =
      verify-parts ssl pubkey r s' msg size
      ∙ unfold verdict in
        ap (key_verdict ssl (load_pub_key ssl pubkey) r (challenge ssl r pubkey msg))
          (ap ssl.mul_generator more ∙ around (ssl.bin_to_bn s))
        ∙ sym (verify-parts ssl pubkey r s msg size)

-- What `BN_bn2binpad` with 32 bytes and `BN_bin2bn` promise of each other.
pub record PaddingLaws (ssl : OpenSsl) : Type 0 where
  pub padded_size : (n : ℕ) → n < 2 ^ 256 → length (ssl.bn_to_bin_pad n) ≡ 32
  pub padded_value : (n : ℕ) → n < 2 ^ 256 → ssl.bin_to_bn (ssl.bn_to_bin_pad n) ≡ n

-- The signature whose second half is greater by the order of the group.
unfoldable pub shifted : OpenSsl → List ℕ → List ℕ
shifted ssl sig = take 32 sig ++ ssl.bn_to_bin_pad (ssl.bin_to_bn (drop 32 sig) + ssl.order)

module _ (ssl : OpenSsl) (laws : GroupLaws ssl) (padding : PaddingLaws ssl) where
  moved_half :
      (sig : List ℕ)
      → length sig ≡ 64
      → 0 < ssl.order
      → ssl.bin_to_bn (drop 32 sig) + ssl.order < 2 ^ 256
      → shifted ssl sig ≢ sig
  unfolding shifted
  moved_half sig size positive room same =
      let half = ssl.bn_to_bin_pad (ssl.bin_to_bn (drop 32 sig) + ssl.order) in
      let e : half ≡ drop 32 sig =
        sym (drop-append (take 32 sig) half 32 (omega (arith, length-take 32 sig, size)))
        ∙ ap (drop 32) same in
      omega (
        arith,
        padding.padded_value (ssl.bin_to_bn (drop 32 sig) + ssl.order) room,
        ap ssl.bin_to_bn e,
        positive,
      )

  -- For a signature of 64 bytes that passes and whose second half s leaves room for the order n of the
  -- group (s + n is below 2^256), the signature with s + n in its place has 64 bytes, is another one and
  -- passes too. The group laws and the laws of the padded encoding are those of OpenSSL.
  pub verify_schnorr_malleable :
      (pubkey sig msg : List ℕ)
      → length sig ≡ 64
      → 0 < ssl.order
      → ssl.bin_to_bn (drop 32 sig) + ssl.order < 2 ^ 256
      → verify_schnorr ssl pubkey sig msg ≡ true
      → (length (shifted ssl sig) ≡ 64)
        × (shifted ssl sig ≢ sig)
        × (verify_schnorr ssl pubkey (shifted ssl sig) msg ≡ true)
  verify_schnorr_malleable pubkey sig msg size positive room passes =
      let more = ssl.bin_to_bn (drop 32 sig) + ssl.order in
      let first : length (take 32 sig) ≡ 32 = omega (arith, length-take 32 sig, size) in
      (
        unfold shifted in
            (length-append (take 32 sig) (ssl.bn_to_bin_pad more)
              ∙ omega (arith, first, padding.padded_size more room)),
        moved_half sig size positive room,
        unfold shifted in
            (verify-around ssl laws pubkey (take 32 sig) (drop 32 sig) (ssl.bn_to_bin_pad more) msg
                first (padding.padded_value more room)
              ∙ ap (λ t. verify_schnorr ssl pubkey t msg) (take-append-drop 32 sig)
              ∙ passes),
      )
