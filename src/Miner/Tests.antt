-- ===== src/Miner/Tests.antt =====
-- Runs of miners/cpu/main.cpp and of layer2-services/rpc/rpcserver.cpp.
use drachma_block_chain.Common.{
  arith, ℕ, ◌*◌, ◌^◌, ◌-◌, ◌<◌, [], ◌∷◌, replicate, ok, err, true, false, ◌≡◌, refl, ◌⊎◌, codes,
  expected_hash, invalid_number,
}
use drachma_block_chain.Crypto.Sample.{sample_ssl}
use drachma_block_chain.Block.{BlockHeader}
use drachma_block_chain.Pow.{compact_to_target, scale}
use drachma_block_chain.Config.{drop_spaces, is_space}
use drachma_block_chain.Genesis.Mining.{at_nonce}
use drachma_block_chain.Miner.{
  digit_value, base_digit, scan_value, is_hex_digit, drop_prefix, drop_sign, negated,
  unsigned_value, stoul, from_hex, hex_char, print_hash, usage, found, exhausted, search_nonce,
  main,
}
use drachma_block_chain.Miner.Hex.{from_hex-print_hash}
use drachma_block_chain.Miner.Search.{Answers, search_nonce_finds_least}

prefixed : stoul 16 (codes " 0x1e0fffff;") ≡ ok 0x1e0fffff
unfolding stoul drop_spaces is_space drop_sign drop_prefix is_hex_digit unsigned_value base_digit
    digit_value scan_value negated
prefixed = refl

negative : stoul 10 (codes "-1") ≡ ok (2 ^ 64 - 1)
unfolding stoul drop_spaces is_space drop_sign drop_prefix is_hex_digit unsigned_value base_digit
    digit_value scan_value negated
negative = refl

no_number : stoul 16 (codes "xy") ≡ err invalid_number
unfolding stoul drop_spaces is_space drop_sign drop_prefix is_hex_digit unsigned_value base_digit
    digit_value scan_value negated
no_number = refl

too_few : main sample_ssl (codes "1" ∷ []) ≡ ok usage
unfolding main
too_few = refl

short_hash :
    main sample_ssl (codes "1" ∷ codes "ab" ∷ codes "ab" ∷ codes "5" ∷ codes "1e0fffff" ∷ [])
    ≡ err expected_hash
unfolding main from_hex stoul drop_spaces is_space drop_sign drop_prefix is_hex_digit unsigned_value
    base_digit digit_value scan_value negated
short_hash = refl

abbrev sample_header : BlockHeader
sample_header = record {
  version = 1;
  prev_block_hash = replicate 32 0;
  merkle_root = replicate 32 0;
  time = 5;
  bits = 0x1e0fffff;
  nonce = 0;
}

main_target : compact_to_target sample_header.bits ≡ ok (0x0fffff * 2 ^ 216)
unfolding compact_to_target scale
main_target = refl

search_nonce_finds_least_example :
    ((m : ℕ) × (m < 2 ^ 32)
      × Answers sample_ssl sample_header true m
      × ((k : ℕ) → k < m → Answers sample_ssl sample_header false k)
      × (search_nonce sample_ssl (at_nonce sample_header 0)
          ≡ ok (found (at_nonce sample_header m))))
    ⊎ (((k : ℕ) → k < 2 ^ 32 → Answers sample_ssl sample_header false k)
        × (search_nonce sample_ssl (at_nonce sample_header 0) ≡ ok exhausted))
search_nonce_finds_least_example =
    search_nonce_finds_least sample_ssl sample_header (0x0fffff * 2 ^ 216) main_target

hash_printed : print_hash (0x1e ∷ 0x0f ∷ []) ≡ codes "1e0f"
unfolding print_hash hex_char
hash_printed = refl

hash_read_back : from_hex (print_hash (replicate 32 0xab)) ≡ ok (replicate 32 0xab)
hash_read_back =
    let small : 0xab < 256 = omega arith in
    from_hex-print_hash (replicate 32 0xab) refl (search (small, tt))
