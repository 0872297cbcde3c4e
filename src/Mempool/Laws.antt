-- ===== src/Mempool/Laws.antt =====
-- What layer2-services/mempool/mempool.cpp lets in.
use drachma_block_chain.Common.{
  ℕ, ◌≤◌, ◌≡◌, ◌↔◌, refl, arith, length, Bool, true, false, if◌then◌else◌,
}
use drachma_block_chain.Common.Maps.{has, bytes_key}
use drachma_block_chain.Tx.{Transaction, serialize}
use drachma_block_chain.Crypto.{OpenSsl}
use drachma_block_chain.Block.{transaction_hash}
use drachma_block_chain.Mempool.{
  FeePolicy, Mempool, required_fee, is_fee_acceptable, accept, exists, add_entry,
}

fee_iff :
    (policy : FeePolicy) (tx : Transaction) (fee : ℕ)
    → (is_fee_acceptable policy tx fee ≡ true)
      ↔ ((length (serialize tx) ≤ policy.max_tx_bytes) × (required_fee policy tx ≤ fee))
unfolding is_fee_acceptable
fee_iff policy tx fee = ground arith

abbrev decide : Bool → Bool → Mempool → Mempool → Bool × Mempool
decide there fine pool added =
    if there then (false, pool) else if fine then (true, added) else (false, pool)

let_in :
    (there fine : Bool) (pool added : Mempool)
    → ((decide there fine pool added).0 ≡ true) ↔ ((there ≡ false) × (fine ≡ true))
let_in true fine pool added = ((λ h. cc), (λ h. cc (h.0)))
let_in false true pool added = ((λ h. (refl, refl)), (λ h. refl))
let_in false false pool added = ((λ h. cc), (λ h. cc (h.1)))

-- `Accept` answers true exactly for a transaction that is not in the pool, is not too long and pays the
-- required fee.
pub accept_iff :
    (ssl : OpenSsl) (pool : Mempool) (tx : Transaction) (fee now : ℕ)
    → ((accept ssl pool tx fee now).0 ≡ true) ↔ (
        (exists pool (transaction_hash ssl tx) ≡ false)
        × ((length (serialize tx) ≤ pool.policy.max_tx_bytes)
            × (required_fee pool.policy tx ≤ fee)))
unfolding accept exists
accept_iff ssl pool tx fee now =
    let (there, back) =
      let_in (has bytes_key (transaction_hash ssl tx) pool.entries)
        (is_fee_acceptable pool.policy tx fee) pool
        (add_entry pool (transaction_hash ssl tx) (record { tx = tx; fee = fee; added = now })) in
    let (fits, fits') = fee_iff pool.policy tx fee in
    ((λ h. let (a, b) = there h in (a, fits b)), (λ h. back (h.0, fits' h.1)))
