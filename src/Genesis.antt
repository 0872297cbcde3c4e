-- ===== src/Genesis.antt =====
-- layer1-core/consensus/genesis.cpp: the first block, with its own conversion of compact targets and its
-- own proof-of-work test. A `cpp_int` of boost is a number without bound; what it does when it is shifted
-- to the left by a negative number is a parameter, `shift_negative`.
pub mod Work
pub mod Mining
pub mod Creation
pub mod Tool
mod Tests
use drachma_block_chain.Common.{
  ℕ, zero, suc, ◌+◌, ◌-◌, ◌*◌, ◌/◌, ◌^◌, bit_and, bit_or, List, [], ◌∷◌, ◌++◌, length, replicate,
  Bool, true, false, ltb, leb, ◌==◌, not, if◌then◌else◌, Result, ok, err, ◌>>=◌, codes,
  bad_genesis_nonce, no_genesis_nonce,
}
use drachma_block_chain.Tx.{Transaction, TxOut}
use drachma_block_chain.Crypto.{OpenSsl}
use drachma_block_chain.Block.{Block, BlockHeader, block_hash}
use drachma_block_chain.Merkle.{compute_merkle_root}
use drachma_block_chain.Consensus.Params.{Params, coin}

-- The loop of `CompactFromTarget` over the leading zeros: the bytes that are left.
unfoldable pub strip_zeros : List ℕ → List ℕ
strip_zeros [] = []
strip_zeros (b ∷ bs) = if b == 0 then strip_zeros bs else b ∷ bs

-- `for (int i = 0; i < size; ++i) mantissa |= target[31 - i] << (8 * i)`, from the first byte on.
unfoldable pub low_mantissa : List ℕ → ℕ
low_mantissa [] = 0
low_mantissa (b ∷ bs) = bit_or (low_mantissa bs) (b * 2 ^ (8 * length bs))

unfoldable pub compact_of : List ℕ → ℕ
compact_of (a ∷ b ∷ c ∷ d ∷ rest) =
    let size = length rest + 4 in
    bit_or (size * 2 ^ 24) (bit_or (bit_or (a * 2 ^ 16) (b * 2 ^ 8)) c)
compact_of bytes = bit_or (length bytes * 2 ^ 24) (low_mantissa bytes)

-- `CompactFromTarget`
unfoldable pub compact_from_target : List ℕ → ℕ
compact_from_target target = compact_of (strip_zeros target)

-- The loop of `TargetFromCompact`, over the rounds left.
unfoldable pub target_bytes : ℕ → ℕ → List ℕ → List ℕ
target_bytes zero target out = out
target_bytes (suc k) target out = target_bytes k (target / 2 ^ 8) (bit_and target 0xff ∷ out)

-- `cpp_int(mantissa) << (8 * (exponent - 3))`
unfoldable pub shifted : (ℕ → ℕ → Result ℕ) → ℕ → ℕ → Result ℕ
shifted shift_negative mantissa exponent =
    if ltb exponent 3
    then shift_negative mantissa (8 * (3 - exponent))
    else ok (mantissa * 2 ^ (8 * (exponent - 3)))

-- `TargetFromCompact`
unfoldable pub target_from_compact : (ℕ → ℕ → Result ℕ) → ℕ → Result (List ℕ)
target_from_compact shift_negative compact = do
  target ← shifted shift_negative (bit_and compact 0x007fffff) (compact / 2 ^ 24)
  ok (target_bytes 32 target [])

-- `ToInteger`
unfoldable pub to_integer : ℕ → List ℕ → ℕ
to_integer result [] = result
to_integer result (byte ∷ bytes) = to_integer (bit_or (result * 2 ^ 8) byte) bytes

-- `BuildGenesisScript`
unfoldable pub build_genesis_script : List ℕ → List ℕ
build_genesis_script message = codes "OP_RETURN " ++ message

unfoldable pub genesis_coinbase : Params → Transaction
genesis_coinbase params = record {
  version = 1;
  vin = [];
  vout =
      record { value = 50 * coin; script_pub_key = build_genesis_script params.genesis_message }
      ∷ [];
  lock_time = 0;
}

module _ (shift_negative : ℕ → ℕ → Result ℕ) (ssl : OpenSsl) where
  -- `CheckProofOfWork` of this file
  unfoldable pub check_genesis_work : BlockHeader → Result Bool
  check_genesis_work header = do
    bytes ← target_from_compact shift_negative header.bits
    let target = to_integer 0 bytes
    ok (if target == 0 then false else leb (to_integer 0 (block_hash ssl header)) target)

  -- The loop of `MineGenesis`, over the nonces left.
  unfoldable pub mine : ℕ → ℕ → BlockHeader → Result BlockHeader
  mine zero nonce header = err no_genesis_nonce
  mine (suc left) nonce header = do
    let tried = record header { nonce = nonce }
    good ← check_genesis_work tried
    elim good [ true ↦ ok tried | false ↦ mine left (nonce + 1) tried ]

  -- `MineGenesis`
  unfoldable pub mine_genesis : BlockHeader → Result BlockHeader
  mine_genesis header = mine (2 ^ 32 - 1) 0 header

  -- The header of `CreateGenesisBlock`, before the proof of work.
  unfoldable pub genesis_header : Params → BlockHeader
  genesis_header params = record {
    version = 1;
    prev_block_hash = replicate 32 0;
    merkle_root = compute_merkle_root ssl (genesis_coinbase params ∷ []);
    time = params.genesis_time;
    bits = params.genesis_bits;
    nonce = params.genesis_nonce;
  }

  -- The end of `CreateGenesisBlock`, by the answer of the test.
  unfoldable pub settle_nonce : Params → Bool → Result BlockHeader
  settle_nonce params true = ok (genesis_header params)
  settle_nonce params false =
      if not (params.genesis_nonce == 0)
      then err bad_genesis_nonce
      else mine_genesis (genesis_header params)

  -- `CreateGenesisBlock`
  unfoldable pub create_genesis_block : Params → Result Block
  create_genesis_block params = do
    good ← check_genesis_work (genesis_header params)
    header ← settle_nonce params good
    ok (record { header = header; transactions = genesis_coinbase params ∷ [] })
