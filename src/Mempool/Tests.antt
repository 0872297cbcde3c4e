-- ===== src/Mempool/Tests.antt =====
-- A theorem of layer2-services/mempool at a concrete pool.
use drachma_block_chain.Common.{
  ℕ, ◌≤◌, ◌≡◌, refl, arith, List, [], ◌∷◌, length, All, true, false, bytes_eq, if◌then◌else◌,
}
use drachma_block_chain.Common.Bytes.{write_uint32}
use drachma_block_chain.Common.Maps.{has, emplace}
use drachma_block_chain.Tx.{Transaction, serialize, write_each}
use drachma_block_chain.Crypto.{sha256, tagged_hash}
use drachma_block_chain.Crypto.Sample.{sample_ssl}
use drachma_block_chain.Block.{transaction_hash}
use drachma_block_chain.Mempool.{
  FeePolicy, Mempool, required_fee, is_fee_acceptable, accept, add_entry, exists,
}
use drachma_block_chain.Mempool.Invariant.{IsFiled, IsUnique, queued}
use drachma_block_chain.Mempool.History.{
  Reach, empty, accepts, reachable_pool, accept_evicts_oldest,
}

abbrev empty_pool : Mempool
empty_pool = record {
  policy = record { min_fee_rate = 1000; max_tx_bytes = 100000; max_entries = 5000 };
  entries = [];
  order = [];
}

abbrev empty_tx : Transaction
empty_tx = record { version = 1; vin = []; vout = []; lock_time = 0 }

-- A pool of one place.
abbrev small_policy : FeePolicy
small_policy = record { min_fee_rate = 1000; max_tx_bytes = 100000; max_entries = 1 }

abbrev tx_at : ℕ → Transaction
tx_at n = record { version = 1; vin = []; vout = []; lock_time = n }

abbrev pool_of : ℕ → Mempool
pool_of n =
    (accept sample_ssl (record { policy = small_policy; entries = []; order = [] }) (tx_at n) 1000
      5).1

pool_of-Reach : (n : ℕ) → Reach sample_ssl small_policy (pool_of n)
pool_of-Reach n = accepts (tx_at n) 1000 5 (empty refl) refl

reachable_pool_example :
    ((k : List ℕ) → exists (pool_of 1) k ≡ queued k (pool_of 1).order)
    × IsUnique (pool_of 1).order
    × (length (pool_of 1).entries ≤ 1)
    × All (IsFiled sample_ssl small_policy) (pool_of 1).entries
reachable_pool_example = reachable_pool sample_ssl small_policy (pool_of 1) (pool_of-Reach 1)

order_of_one : (pool_of 1).order ≡ transaction_hash sample_ssl (tx_at 1) ∷ []
unfolding accept is_fee_acceptable required_fee add_entry has emplace serialize write_uint32
    write_each
order_of_one = refl

full_of_one : 1 ≤ length (pool_of 1).entries
unfolding accept is_fee_acceptable required_fee add_entry has emplace serialize write_each
    write_uint32
full_of_one = omega arith

second_comes_in : (accept sample_ssl (pool_of 1) (tx_at 2) 1000 6).0 ≡ true
unfolding accept is_fee_acceptable required_fee add_entry has emplace serialize write_each
    write_uint32 transaction_hash tagged_hash sha256 bytes_eq
second_comes_in = refl

accept_evicts_oldest_example :
    ((accept sample_ssl (pool_of 1) (tx_at 2) 1000 6).1.order
      ≡ transaction_hash sample_ssl (tx_at 2) ∷ [])
    × ((k : List ℕ)
        → exists (accept sample_ssl (pool_of 1) (tx_at 2) 1000 6).1 k ≡ (
            if bytes_eq (transaction_hash sample_ssl (tx_at 2)) k
            then true
            else if bytes_eq (transaction_hash sample_ssl (tx_at 1)) k
            then false
            else exists (pool_of 1) k))
accept_evicts_oldest_example =
    accept_evicts_oldest sample_ssl small_policy (pool_of 1) (tx_at 2) 1000 6
      (transaction_hash sample_ssl (tx_at 1)) [] (pool_of-Reach 1) order_of_one full_of_one
      second_comes_in
