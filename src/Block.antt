-- ===== src/Block.antt =====
-- layer1-core/block/block.h and block.cpp, `TransactionHash` of layer1-core/tx/transaction.cpp, and
-- layer1-core/script/interpreter.cpp. A header is hashed as it lies in memory: its fields stand at
-- offsets 0, 4, 36, 68, 72 and 76 of 80 bytes, with no padding, and the host is little-endian.
use drachma_block_chain.Common.{
  ℕ, List, ◌++◌, length, Bool, false, ◌==◌, not, if◌then◌else◌, none, some, Result, ok, err,
  input_index_out_of_range, get_elem?, codes,
}
use drachma_block_chain.Common.Bytes.{le_bytes}
use drachma_block_chain.Tx.{Transaction, TxIn, TxOut, serialize}
use drachma_block_chain.Crypto.{OpenSsl, tagged_hash, verify_schnorr}

pub record BlockHeader : Type 0 where
  pub version : ℕ
  pub prev_block_hash : List ℕ
  pub merkle_root : List ℕ
  pub time : ℕ
  pub bits : ℕ
  pub nonce : ℕ

pub record Block : Type 0 where
  pub header : BlockHeader
  pub transactions : List Transaction

-- The 80 bytes of a header.
unfoldable pub header_bytes : BlockHeader → List ℕ
header_bytes h =
    le_bytes 4 h.version
    ++ (h.prev_block_hash
        ++ (h.merkle_root ++ (le_bytes 4 h.time ++ (le_bytes 4 h.bits ++ le_bytes 4 h.nonce))))

module _ (ssl : OpenSsl) where
  unfoldable pub block_hash : BlockHeader → List ℕ
  block_hash header = tagged_hash ssl (codes "BLOCK") (header_bytes header)

  unfoldable pub transaction_hash : Transaction → List ℕ
  transaction_hash tx = tagged_hash ssl (codes "TX") (serialize tx)

  -- The part of `VerifyScript` below the lookup of the input.
  unfoldable pub verify_input : Transaction → TxIn → TxOut → Bool
  verify_input tx i utxo =
      if not (length i.script_sig == 64)
      then false
      else if not (length utxo.script_pub_key == 32)
      then false
      else verify_schnorr ssl utxo.script_pub_key i.script_sig (serialize tx)

  -- `VerifyScript`
  unfoldable pub verify_script : Transaction → ℕ → TxOut → Result Bool
  verify_script tx input_index utxo = elim (get_elem? tx.vin input_index) [
    | none ↦ err input_index_out_of_range
    | some i ↦ ok (verify_input tx i utxo)
  ]
