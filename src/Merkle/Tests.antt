-- ===== src/Merkle/Tests.antt =====
-- Runs of layer1-core/merkle/merkle.cpp, and its theorems at concrete hashes and transactions.
use drachma_block_chain.Common.{
  ℕ, ◌≡◌, ◌⊎◌, ◌^◌, ◌<◌, ◌++◌, refl, codes, length, length-drop, length-append, arith, List, [],
  ◌∷◌, replicate,
}
use drachma_block_chain.Common.Bytes.{write_uint32, write_uint64}
use drachma_block_chain.Tx.{Transaction, serialize, write_each, write_output, write_var_bytes}
use drachma_block_chain.Tx.RoundTrip.{IsTransaction}
use drachma_block_chain.Block.{transaction_hash}
use drachma_block_chain.Crypto.{tagged_hash, sha256}
use drachma_block_chain.Merkle.Binding.{Collision, merkle_root_binds}
use drachma_block_chain.Crypto.Sample.{sample_ssl}
use drachma_block_chain.Merkle.{
  hash_pair, root_of, compute_merkle_root, reduce, next_layer, pair_layer,
}
use drachma_block_chain.Merkle.Laws.{root_of-append}

abbrev leaf : ℕ → List ℕ
leaf n = replicate 32 n

abbrev empty_at : ℕ → Transaction
empty_at n = record { version = 1; vin = []; vout = []; lock_time = n }

root_of-append_example :
    root_of sample_ssl (leaf 1 ∷ leaf 2 ∷ leaf 3 ∷ leaf 4 ∷ [])
    ≡ hash_pair sample_ssl
        (root_of sample_ssl (leaf 1 ∷ leaf 2 ∷ []))
        (root_of sample_ssl (leaf 3 ∷ leaf 4 ∷ []))
root_of-append_example =
    root_of-append sample_ssl 1 (leaf 1 ∷ leaf 2 ∷ []) (leaf 3 ∷ leaf 4 ∷ []) (omega arith)
      (omega arith)

-- Two transactions that the hash of the stand-in, the last 32 bytes, does not tell apart.
abbrev paying : ℕ → Transaction
paying version = record {
  version = version;
  vin = [];
  vout = record { value = 5; script_pub_key = replicate 32 9 } ∷ [];
  lock_time = 0;
}

sample_digest : (c : List ℕ) → length (sample_ssl.sha256_final c) ≡ 32
sample_digest c =
    omega (arith, length-drop (length c) (replicate 32 0 ++ c), length-append (replicate 32 0) c)

paying-IsTransaction : (version : ℕ) → version < 2 ^ 32 → IsTransaction (paying version)
paying-IsTransaction version h = omega (arith, h)

merkle_root_binds_example :
    (paying 1 ∷ paying 3 ∷ [] ≡ paying 2 ∷ paying 3 ∷ [])
    ⊎ (Collision sample_ssl (codes "TX") ⊎ Collision sample_ssl (codes "MERKLE"))
unfolding compute_merkle_root root_of reduce next_layer pair_layer hash_pair transaction_hash
    tagged_hash sha256 serialize write_each write_output write_var_bytes write_uint32 write_uint64
merkle_root_binds_example =
    merkle_root_binds sample_ssl sample_digest (paying 1 ∷ paying 3 ∷ []) (paying 2 ∷ paying 3 ∷ [])
      refl (paying-IsTransaction 1 (omega arith), (paying-IsTransaction 3 (omega arith), tt))
      (paying-IsTransaction 2 (omega arith), (paying-IsTransaction 3 (omega arith), tt)) refl
