-- ===== src/Genesis/Work.antt =====
-- The proof-of-work test of layer1-core/consensus/genesis.cpp beside that of layer1-core/pow.
use drachma_block_chain.Common.{
  ℕ, zero, suc, ◌+◌, ◌-◌, ◌*◌, ◌/◌, ◌%◌, ◌^◌, ◌≤◌, ◌<◌, bit_and, bit_or, ◌≡◌, refl, sym, ap, ◌∙◌,
  arith, List, [], ◌∷◌, All, Result, ok, Bool, false, leb, ◌==◌, if◌then◌else◌, Bool-cases, leb→le,
  le→ltb, inl, inr, ◌||◌, ltb,
}
use drachma_block_chain.Common.Bits.{bit_and-mask, shift-bit_or, pow-pos}
use drachma_block_chain.Common.Bytes.{IsByte, shift_eight}
use drachma_block_chain.Crypto.{OpenSsl}
use drachma_block_chain.Block.{BlockHeader, block_hash}
use drachma_block_chain.Consensus.Params.{Params}
use drachma_block_chain.Pow.{compact_to_target, scale, hash_value, check_proof_of_work}
use drachma_block_chain.Genesis.{
  target_bytes, shifted, target_from_compact, to_integer, check_genesis_work,
}
use native.Mathlib.Nat.{div-add-mod', mod-lt, mod-eq_of_lt, add-mul-mod_self_right}

-- The remainder by one more byte.
byte_mod : (a m : ℕ) → 0 < m → a % (m * 256) ≡ a / 2 ^ 8 % m * 2 ^ 8 + a % 2 ^ 8
byte_mod a m h =
    let q : ℕ = a / 256 / m in
    let r : ℕ = a / 256 % m in
    let whole : a ≡ r * 256 + a % 256 + q * (m * 256) = omega (arith, div-add-mod' (a / 256) m) in
    let small : r * 256 + a % 256 < m * 256 = omega (arith, mod-lt (a / 256) h) in
    ap (λ (t : ℕ). t % (m * 256)) whole
    ∙ add-mul-mod_self_right (r * 256 + a % 256) q (m * 256)
    ∙ mod-eq_of_lt small

join_byte :
    (k t : ℕ) → bit_or (t / 2 ^ 8 % 2 ^ (8 * k) * 2 ^ 8) (bit_and t 0xff) ≡ t % 2 ^ (8 * suc k)
join_byte k t =
    ap (bit_or (t / 2 ^ 8 % 2 ^ (8 * k) * 2 ^ 8)) (bit_and-mask 8 t)
    ∙ shift-bit_or 8 (t / 2 ^ 8 % 2 ^ (8 * k)) (t % 2 ^ 8) (omega arith)
    ∙ sym (byte_mod t (2 ^ (8 * k)) (pow-pos (8 * k)))
    ∙ ap (λ (m : ℕ). t % m) (sym (shift_eight k))

-- The bytes that the loop writes stand for the target, less what 32 bytes cannot hold.
to_integer-target_bytes :
    (k t : ℕ) (out : List ℕ)
    → to_integer 0 (target_bytes k t out) ≡ to_integer (t % 2 ^ (8 * k)) out
unfolding to_integer target_bytes
to_integer-target_bytes zero t out = ap (λ (n : ℕ). to_integer n out) (omega arith)
to_integer-target_bytes (suc k) t out =
    to_integer-target_bytes k (t / 2 ^ 8) (bit_and t 0xff ∷ out)
    ∙ ap (λ (n : ℕ). to_integer n out) (join_byte k t)

-- Both files read a hash in the same way.
to_integer-hash_value :
    (acc : ℕ) (bs : List ℕ) → All IsByte bs → to_integer acc bs ≡ hash_value acc bs
unfolding to_integer hash_value
to_integer-hash_value acc [] h = refl
to_integer-hash_value acc (b ∷ bs) h =
    ap (λ (n : ℕ). to_integer n bs) (shift-bit_or 8 acc b h.0)
    ∙ to_integer-hash_value (acc * 2 ^ 8 + b) bs h.1

-- The two files shift a mantissa to the left in the same way.
scale_left : (m e : ℕ) → 3 ≤ e → m * 2 ^ (8 * (e - 3)) ≡ scale m e
unfolding scale
scale_left m e h = elim (Bool-cases (leb e 3)) [
  | inl small ↦
      let three : e ≡ 3 = omega (arith, leb→le e 3 small) in
      ap (λ (n : ℕ). m * 2 ^ (8 * (n - 3))) three
      ∙ omega arith
      ∙ ap (λ (n : ℕ). if leb n 3 then m / 2 ^ (8 * (3 - n)) else m * 2 ^ (8 * (n - 3))) (sym three)
  | inr large ↦ rw large
]

decoded :
    (bits target : ℕ)
    → compact_to_target bits ≡ ok target
    → ◌≡◌ {A = Result ℕ} (ok (scale (bit_and bits 0x007fffff) (bits / 2 ^ 24))) (ok target)
unfolding compact_to_target
decoded bits target e = ground arith

within :
    (v target limit : ℕ)
    → target ≤ limit
    → ◌≡◌ {A = Result Bool}
        (ok (if target == 0 then false else leb v target))
        (ok (if target == 0 || ltb limit target then false else leb v target))
within v target limit le = ground arith

module _ (shift_negative : ℕ → ℕ → Result ℕ) where
  shifted-scale : (m e : ℕ) → 3 ≤ e → shifted shift_negative m e ≡ ok (scale m e)
  unfolding shifted
  shifted-scale m e h = rw (le→ltb e 3 h) (ap (λ n. ok n) (scale_left m e h))

  shifted-target :
      (bits target : ℕ)
      → 3 ≤ bits / 2 ^ 24
      → compact_to_target bits ≡ ok target
      → shifted shift_negative (bit_and bits 0x007fffff) (bits / 2 ^ 24) ≡ ok target
  shifted-target bits target h e =
      shifted-scale (bit_and bits 0x007fffff) (bits / 2 ^ 24) h ∙ decoded bits target e

  -- The target as 32 bytes and back, where 32 bytes hold it.
  target_bytes_lem :
      (target : ℕ) → target < 2 ^ 256 → to_integer 0 (target_bytes 32 target []) ≡ target
  unfolding to_integer
  target_bytes_lem target h = to_integer-target_bytes 32 target [] ∙ mod-eq_of_lt h

  module _ (ssl : OpenSsl) where
    -- Bits that stand for a target of at most 32 bytes: what the test answers.
    pub check_genesis_work_lem :
        (header : BlockHeader) (target : ℕ)
        → 3 ≤ header.bits / 2 ^ 24
        → compact_to_target header.bits ≡ ok target
        → target < 2 ^ 256
        → All IsByte (block_hash ssl header)
        → check_genesis_work shift_negative ssl header
          ≡ ok (if target == 0 then false else leb (hash_value 0 (block_hash ssl header)) target)
    unfolding check_genesis_work target_from_compact
    check_genesis_work_lem header target h e b bytes = rw (
      shifted-target header.bits target h e,
      target_bytes_lem target b,
      to_integer-hash_value 0 (block_hash ssl header) bytes,
    )

    -- The proof-of-work test of the genesis file and that of the pow directory agree on every header whose
    -- bits stand for a target within the limit and within 32 bytes, with an exponent of at least 3, when
    -- the hash is made of bytes.
    pub genesis_work_agrees :
        (header : BlockHeader) (params : Params) (target limit : ℕ)
        → 3 ≤ header.bits / 2 ^ 24
        → compact_to_target header.bits ≡ ok target
        → compact_to_target params.genesis_bits ≡ ok limit
        → target ≤ limit
        → target < 2 ^ 256
        → All IsByte (block_hash ssl header)
        → check_genesis_work shift_negative ssl header
          ≡ check_proof_of_work (block_hash ssl header) header.bits params
    unfolding check_proof_of_work
    genesis_work_agrees header params target limit h e el le b bytes =
        check_genesis_work_lem header target h e b bytes
        ∙ rw (e, el) (within (hash_value 0 (block_hash ssl header)) target limit le)
