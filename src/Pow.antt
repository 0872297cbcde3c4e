-- ===== src/Pow.antt =====
-- layer1-core/pow/difficulty.cpp: compact targets, the retarget and the proof-of-work test. A `cpp_int`
-- of boost is a number without bound; its division by zero throws.
pub mod Size
pub mod Compact
pub mod Target
mod Tests
use drachma_block_chain.Common.{
  ℕ, zero, suc, ◌+◌, ◌-◌, ◌*◌, ◌/◌, ◌%◌, ◌^◌, bit_and, bit_or, List, [], ◌∷◌, Bool, true, false,
  ltb, leb, ◌==◌, not, ◌||◌, if◌then◌else◌, Result, ok, throw_if, ◌>>=◌, ◌>>◌,
  negative_compact_target, division_by_zero,
}
use drachma_block_chain.Common.Int.{ℤ, pos, negsuc}
use drachma_block_chain.Consensus.Params.{Params}

abbrev pub compact_mantissa_mask : ℕ
compact_mantissa_mask = 0x007fffff

abbrev pub compact_sign_mask : ℕ
compact_sign_mask = 0x00800000

-- The value of a mantissa and an exponent.
unfoldable pub scale : ℕ → ℕ → ℕ
scale mantissa exponent =
    if leb exponent 3
    then mantissa / 2 ^ (8 * (3 - exponent))
    else mantissa * 2 ^ (8 * (exponent - 3))

-- `CompactToTarget`
unfoldable pub compact_to_target : ℕ → Result ℕ
compact_to_target n_bits = do
  throw_if (not (bit_and n_bits compact_sign_mask == 0)) negative_compact_target
  ok (scale (bit_and n_bits compact_mantissa_mask) (n_bits / 2 ^ 24))

-- `while (tmp > 0) { tmp >>= 8; ++size; }`, on fuel.
unfoldable pub size_loop : ℕ → ℕ → ℕ → ℕ
size_loop zero tmp size = size
size_loop (suc fuel) tmp size =
    let rest = size_loop fuel (tmp / 2 ^ 8) (size + 1) in if ltb 0 tmp then rest else size

-- A shift makes a positive number smaller, so `target` rounds suffice.
unfoldable pub size_of : ℕ → ℕ
size_of target = size_loop target target 0

-- The two shifts of `compact`, with the size that goes with it.
unfoldable pub leading : ℕ → ℕ → ℕ
leading target size = if ltb 3 size then target / 2 ^ (8 * (size - 3)) else target

unfoldable pub normalise : ℕ → ℕ → ℕ × ℕ
normalise compact size =
    if not (bit_and compact 0x008000 == 0) then (compact / 2 ^ 8, size + 1) else (compact, size)

-- `result` from the final `compact` and `size`.
unfoldable pub assemble : ℕ → ℕ → ℕ
assemble compact size = bit_or (bit_and (compact % 2 ^ 32) 0x007fffff) (size * 2 ^ 24 % 2 ^ 32)

-- `TargetToCompact`
unfoldable pub target_to_compact : ℕ → ℕ
target_to_compact target =
    let size = size_of target in
    let (compact, size') = normalise (leading target size) size in
    if target == 0 then 0 else assemble compact size'

-- `std::clamp` on an `int64_t`, between two bounds that are not negative.
unfoldable pub clamp : ℤ → ℕ → ℕ → ℕ
clamp (negsuc v) lo hi = lo
clamp (pos v) lo hi = if ltb v lo then lo else if ltb hi v then hi else v

-- `CalculateNextWorkRequired`
unfoldable pub calculate_next_work_required : ℕ → ℤ → Params → Result ℕ
calculate_next_work_required last_bits actual_timespan params = do
  let target_timespan = params.pow_target_timespan
  let timespan = clamp actual_timespan (target_timespan * 3 / 4) (target_timespan * 5 / 4)
  last_target ← compact_to_target last_bits
  throw_if (target_timespan == 0) division_by_zero
  let new_target = last_target * timespan / target_timespan
  pow_limit ← compact_to_target params.genesis_bits
  ok (target_to_compact (if ltb pow_limit new_target then pow_limit else new_target))

-- `for (uint8_t byte : hash) { value <<= 8; value += byte; }`
unfoldable pub hash_value : ℕ → List ℕ → ℕ
hash_value value [] = value
hash_value value (byte ∷ bytes) = hash_value (value * 2 ^ 8 + byte) bytes

-- `CheckProofOfWork`
unfoldable pub check_proof_of_work : List ℕ → ℕ → Params → Result Bool
check_proof_of_work hash n_bits params = do
  target ← compact_to_target n_bits
  pow_limit ← compact_to_target params.genesis_bits
  ok (if target == 0 || ltb pow_limit target then false else leb (hash_value 0 hash) target)
