-- ===== src/Genesis/Tests.antt =====
-- Runs of layer1-core/consensus/genesis.cpp with a stand-in for OpenSSL whose hashes are the last 32
-- bytes of what is hashed, and its theorems at a concrete network.
use drachma_block_chain.Common.{
  ℕ, ◌-◌, ◌*◌, ◌/◌, ◌%◌, ◌^◌, ◌<◌, ◌≡◌, refl, arith, List, [], ◌∷◌, ◌++◌, All, Result, ok, err,
  true, false, Option, map, drop, length, replicate, codes, no_genesis_nonce, division_by_zero, ◌⊎◌,
}
use drachma_block_chain.Common.Bytes.{IsByte, le_bytes, write_uint32, write_uint64}
use drachma_block_chain.Common.Int.{ℤ}
use drachma_block_chain.Crypto.{OpenSsl, sha256, tagged_hash}
use drachma_block_chain.Crypto.Sample.{sample_ssl}
use drachma_block_chain.Tx.{serialize, write_each, write_input, write_output, write_var_bytes}
use drachma_block_chain.Merkle.{
  compute_merkle_root, root_of, reduce, hash_pair, next_layer, pair_layer, push_last,
}
use drachma_block_chain.Block.{Block, BlockHeader, block_hash, header_bytes, transaction_hash}
use drachma_block_chain.Consensus.Params.{Params, test_params}
use drachma_block_chain.Validation.{UtxoLookup, pass, reject, validate_block, validate_block_header}
use drachma_block_chain.Pow.{compact_to_target, scale, check_proof_of_work}
use drachma_block_chain.Genesis.{
  strip_zeros, low_mantissa, compact_of, compact_from_target, target_bytes, shifted,
  target_from_compact, to_integer, check_genesis_work, mine_genesis, genesis_header, settle_nonce,
  create_genesis_block, genesis_coinbase, build_genesis_script,
}
use drachma_block_chain.Common.Digits.{decimal, hexadecimal, digits, digit_char}
use drachma_block_chain.Genesis.Tool.{print_uint256}
use drachma_block_chain.Genesis.Work.{genesis_work_agrees}
use drachma_block_chain.Genesis.Mining.{at_nonce, Says, mine_genesis_finds_least}
use drachma_block_chain.Genesis.Creation.{genesis_block_refused}

compact_read :
    target_from_compact (λ m n. err division_by_zero) 0x04123456
    ≡ ok (replicate 28 0 ++ (0x12 ∷ 0x34 ∷ 0x56 ∷ 0 ∷ []))
unfolding target_from_compact shifted target_bytes
compact_read = refl

compact_written : compact_from_target (replicate 28 0 ++ (0x12 ∷ 0x34 ∷ 0x56 ∷ 0 ∷ [])) ≡ 0x04123456
unfolding compact_from_target strip_zeros compact_of
compact_written = refl

compact_small : compact_from_target (replicate 30 0 ++ (0x12 ∷ 0x34 ∷ [])) ≡ 0x02001234
unfolding compact_from_target strip_zeros compact_of low_mantissa
compact_small = refl

abbrev shift_right : ℕ → ℕ → Result ℕ
shift_right m n = ok (m / 2 ^ n)

abbrev byte_ssl : OpenSsl
byte_ssl = record sample_ssl {
  sha256_final = λ c. map (λ b. b % 256) (drop (length c) (replicate 32 0 ++ c));
}

bytes_of_map : (bs : List ℕ) → All IsByte (map (λ b. b % 256) bs)
bytes_of_map [] = tt
bytes_of_map (b ∷ bs) = (omega arith, bytes_of_map bs)

hashes :
    (bytes : List ℕ)
    → All IsByte (byte_ssl.sha256_final (byte_ssl.sha256_update byte_ssl.sha256_init bytes))
hashes bytes = bytes_of_map (drop (length bytes) (replicate 32 0 ++ bytes))

-- A network with an easy target.
abbrev easy_params : Params
easy_params = record test_params { genesis_bits = 0x207fffff }

abbrev easy_target : ℕ
easy_target = 0x7fffff * 2 ^ 232

easy_target_lem : compact_to_target easy_params.genesis_bits ≡ ok easy_target
unfolding compact_to_target scale
easy_target_lem = refl

abbrev easy_header : BlockHeader
easy_header = record {
  version = 1;
  prev_block_hash = replicate 32 0;
  merkle_root = replicate 32 3;
  time = 5;
  bits = 0x207fffff;
  nonce = 0;
}

abbrev easy_block : Block
easy_block = record {
  header = genesis_header shift_right byte_ssl easy_params;
  transactions = genesis_coinbase easy_params ∷ [];
}

easy_block_made : create_genesis_block shift_right byte_ssl easy_params ≡ ok easy_block
unfolding create_genesis_block check_genesis_work target_from_compact shifted target_bytes
    to_integer settle_nonce genesis_header block_hash tagged_hash sha256 header_bytes le_bytes
    compute_merkle_root push_last pair_layer root_of reduce hash_pair next_layer transaction_hash
    serialize genesis_coinbase build_genesis_script write_uint32 write_uint64 write_each write_input
    write_output write_var_bytes
easy_block_made = refl

mine_genesis_finds_least_example :
    ((m : ℕ) × (m < 2 ^ 32 - 1)
      × Says shift_right byte_ssl easy_header true m
      × ((k : ℕ) → k < m → Says shift_right byte_ssl easy_header false k)
      × (mine_genesis shift_right byte_ssl easy_header ≡ ok (at_nonce easy_header m)))
    ⊎ (((k : ℕ) → k < 2 ^ 32 - 1 → Says shift_right byte_ssl easy_header false k)
        × (mine_genesis shift_right byte_ssl easy_header ≡ err no_genesis_nonce))
mine_genesis_finds_least_example =
    mine_genesis_finds_least shift_right byte_ssl easy_header (omega arith)

genesis_block_refused_example :
    (validate_block_header byte_ssl easy_block.header easy_params ≡ pass tt)
    × ((height : ℤ) (lookup : Option UtxoLookup)
        → validate_block byte_ssl easy_params easy_block height lookup ≡ reject)
genesis_block_refused_example =
    genesis_block_refused shift_right byte_ssl easy_params easy_block easy_target (omega arith)
      easy_target_lem (omega arith) hashes easy_block_made

easy_hash_bytes : All IsByte (block_hash byte_ssl easy_header)
unfolding block_hash tagged_hash sha256
easy_hash_bytes =
    let tag = sha256 byte_ssl (codes "BLOCK") in hashes (tag ++ (tag ++ header_bytes easy_header))

genesis_work_agrees_example :
    check_genesis_work shift_right byte_ssl easy_header
    ≡ check_proof_of_work (block_hash byte_ssl easy_header) 0x207fffff easy_params
genesis_work_agrees_example =
    genesis_work_agrees shift_right byte_ssl easy_header easy_params easy_target easy_target
      (omega arith) easy_target_lem easy_target_lem (omega arith) (omega arith) easy_hash_bytes

time_printed : decimal 1700000000 ≡ codes "1700000000"
unfolding decimal digits digit_char
time_printed = refl

bits_printed : hexadecimal 0x1e0fffff ≡ codes "1e0fffff"
unfolding hexadecimal digits digit_char
bits_printed = refl

hash_printed : print_uint256 (0 ∷ 0xab ∷ []) ≡ codes "00ab"
unfolding print_uint256 digit_char
hash_printed = refl
