-- ===== src/Pow/Tests.antt =====
-- Runs of layer1-core/pow/difficulty.cpp, those of tests/pow/retarget_test.cpp among them, and its
-- theorems at concrete words.
use drachma_block_chain.Common.{
  ℕ, ◌+◌, ◌*◌, ◌^◌, ◌≤◌, ◌<◌, ◌≡◌, refl, arith, replicate, ok, true, ◌↔◌,
}
use drachma_block_chain.Common.Int.{pos, negsuc}
use drachma_block_chain.Consensus.Params.{main_params}
use drachma_block_chain.Pow.{
  scale, compact_to_target, size_loop, size_of, leading, normalise, assemble, target_to_compact,
  clamp, calculate_next_work_required, check_proof_of_work,
}
use drachma_block_chain.Pow.Size.{unit_of}
use drachma_block_chain.Pow.Compact.{compact_rounds_down, compact_loses_top_bit}
use drachma_block_chain.Pow.Target.{be_value, next_work_bounded, check_proof_of_work_iff}

retarget_same : calculate_next_work_required 0x1e0fffff (pos 3600) main_params ≡ ok 0x1f000fff
unfolding calculate_next_work_required compact_to_target scale clamp target_to_compact size_of
    size_loop leading normalise assemble
retarget_same = refl

retarget_slow : calculate_next_work_required 0x1e0fffff (pos 4500) main_params ≡ ok 0x1f000fff
unfolding calculate_next_work_required compact_to_target scale clamp target_to_compact size_of
    size_loop leading normalise assemble
retarget_slow = refl

retarget_fast : calculate_next_work_required 0x1e0fffff (pos 1800) main_params ≡ ok 0x1f000bff
unfolding calculate_next_work_required compact_to_target scale clamp target_to_compact size_of
    size_loop leading normalise assemble
retarget_fast = refl

abbrev main_limit : ℕ
main_limit = 0x0fffff * 2 ^ 216

main_limit_target : compact_to_target main_params.genesis_bits ≡ ok main_limit
unfolding compact_to_target scale
main_limit_target = refl

compact_rounds_down_example :
    (back : ℕ) × (compact_to_target (target_to_compact 1000001) ≡ ok back) × (back ≤ 1000001)
compact_rounds_down_example = compact_rounds_down 1000001 (omega arith)

size_three : size_of 0x120000 ≡ 3
unfolding size_of size_loop
size_three = refl

compact_loses_top_bit_example :
    (back : ℕ) × (compact_to_target (target_to_compact 0x800000) ≡ ok back)
    × (back + 2 ^ 23 * unit_of (size_of 0x800000) ≤ 0x800000)
    × (2 * back < 0x800000)
unfolding leading size_of size_loop
compact_loses_top_bit_example =
    compact_loses_top_bit 0x800000 (omega arith) (omega arith) refl (omega arith)

next_work_bounded_example :
    (bits : ℕ) × (next : ℕ) × (calculate_next_work_required 0x1e0fffff (negsuc 5) main_params
      ≡ ok bits)
    × (compact_to_target bits ≡ ok next)
    × (next ≤ main_limit)
    × (4 * next ≤ 5 * main_limit)
next_work_bounded_example =
    next_work_bounded 0x1e0fffff (negsuc 5) main_params main_limit main_limit (omega arith)
      main_limit_target main_limit_target (omega arith)

check_proof_of_work_iff_example :
    (check_proof_of_work (replicate 32 0) 0x1e0fffff main_params ≡ ok true)
    ↔ ((0 < main_limit) × (main_limit ≤ main_limit) × (be_value (replicate 32 0) ≤ main_limit))
check_proof_of_work_iff_example =
    check_proof_of_work_iff (replicate 32 0) 0x1e0fffff main_params main_limit main_limit
      main_limit_target main_limit_target
