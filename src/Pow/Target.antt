-- ===== src/Pow/Target.antt =====
-- `CalculateNextWorkRequired` and `CheckProofOfWork` of layer1-core/pow/difficulty.cpp.
use drachma_block_chain.Common.{
  ℕ, ◌+◌, ◌*◌, ◌/◌, ◌^◌, ◌≤◌, ◌<◌, ◌≡◌, ap, arith, ltb, ◌==◌, if◌then◌else◌, ◌⊎◌, ◌↔◌, true, false,
  List, [], ◌∷◌, ok, err, negative_compact_target, length,
}
use drachma_block_chain.Common.Bits.{bit, bit_and-bit}
use drachma_block_chain.Common.Int.{ℤ, pos, negsuc}
use drachma_block_chain.Consensus.Params.{Params}
use drachma_block_chain.Pow.{
  compact_to_target, target_to_compact, clamp, calculate_next_work_required, hash_value,
  check_proof_of_work,
}
use drachma_block_chain.Pow.Compact.{compact_rounds_down}
use native.Mathlib.Nat.{mul-le-mul_left, pow-suc, le_of_mul-le-mul_right, div-mul-le_self}

-- The timespan that is counted lies between three quarters and five quarters of the target's.
pub clamp_bounds : (v : ℤ) (lo hi : ℕ) → lo ≤ hi → (lo ≤ clamp v lo hi) × (clamp v lo hi ≤ hi)
unfolding clamp
clamp_bounds (negsuc v) lo hi h = omega arith
clamp_bounds (pos v) lo hi h = ground arith

abbrev capped : ℕ → ℕ → ℕ
capped limit t = if ltb limit t then limit else t

capped_le : (limit t : ℕ) → (capped limit t ≤ limit) × (capped limit t ≤ t)
capped_le limit t = ground arith

raw_le : (last span t : ℕ) → 0 < t → 4 * span ≤ 5 * t → 4 * (last * span / t) ≤ 5 * last
raw_le last span t h k =
    le_of_mul-le-mul_right (omega (arith, div-mul-le_self (last * span) t, mul-le-mul_left last k))
      h

positive : (n : ℕ) → 0 < n → (n == 0) ≡ false
positive n h = ground arith

-- With usable parameters and previous bits, a retarget answers bits that stand for a target: no more
-- than the limit, and no more than five quarters of the previous target. The measured timespan, which
-- miners influence, cannot raise it further.
pub next_work_bounded :
    (last_bits : ℕ) (actual : ℤ) (params : Params) (last limit : ℕ)
    → 0 < params.pow_target_timespan
    → compact_to_target last_bits ≡ ok last
    → compact_to_target params.genesis_bits ≡ ok limit
    → limit < 2 ^ 256
    → (bits : ℕ) × (next : ℕ) × (calculate_next_work_required last_bits actual params ≡ ok bits)
      × (compact_to_target bits ≡ ok next)
      × (next ≤ limit)
      × (4 * next ≤ 5 * last)
unfolding calculate_next_work_required
next_work_bounded last_bits actual params last limit h el eg b =
    let t = params.pow_target_timespan in
    let span = clamp actual (t * 3 / 4) (t * 5 / 4) in
    let (lo, hi) = clamp_bounds actual (t * 3 / 4) (t * 5 / 4) (omega arith) in
    let raw = last * span / t in
    let target = capped limit raw in
    let (c₁, c₂) = capped_le limit raw in
    let (back, e, le) = compact_rounds_down target (omega arith) in
    (
      target_to_compact target,
      back,
      rw (el, positive t h, eg),
      e,
      omega arith,
      omega (arith, raw_le last span t h (omega arith)),
    )

-- The hash as a number, most significant byte first.
abbrev pub be_value : List ℕ → ℕ
be_value [] = 0
be_value (b ∷ bs) = b * 256 ^ length bs + be_value bs

hash_value-be_value :
    (acc : ℕ) (bs : List ℕ) → hash_value acc bs ≡ acc * 256 ^ length bs + be_value bs
unfolding hash_value
hash_value-be_value acc [] = omega arith
hash_value-be_value acc (b ∷ bs) = omega (
  arith,
  hash_value-be_value (acc * 2 ^ 8 + b) bs,
  ap (λ (n : ℕ). acc * n) (pow-suc 256 (length bs)),
)

-- When does a header's hash pass: its bits must stand for a target that is positive and no easier than
-- the limit, and the hash, read with its first byte most significant, must not exceed that target.
pub check_proof_of_work_iff :
    (hash : List ℕ) (n_bits : ℕ) (params : Params) (target limit : ℕ)
    → compact_to_target n_bits ≡ ok target
    → compact_to_target params.genesis_bits ≡ ok limit
    → (check_proof_of_work hash n_bits params ≡ ok true)
      ↔ ((0 < target) × (target ≤ limit) × (be_value hash ≤ target))
unfolding check_proof_of_work
check_proof_of_work_iff hash n_bits params target limit et el =
    rw (et, el) (ground (arith, hash_value-be_value 0 hash))

-- The test throws exactly when one of the two compact words has its sign bit, bit 23, set: so a peer's
-- header makes it throw by its `bits` alone.
pub check_proof_of_work_throws :
    (hash : List ℕ) (n_bits : ℕ) (params : Params)
    → (check_proof_of_work hash n_bits params ≡ err negative_compact_target)
      ↔ ((bit 23 n_bits ≡ 1) ⊎ (bit 23 params.genesis_bits ≡ 1))
unfolding check_proof_of_work compact_to_target
check_proof_of_work_throws hash n_bits params =
    ground (arith, bit_and-bit 23 n_bits, bit_and-bit 23 params.genesis_bits)
