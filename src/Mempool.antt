-- ===== src/Mempool.antt =====
-- layer2-services/policy/policy.cpp and layer2-services/mempool/mempool.cpp. The steady clock's reading
-- is an argument, and the size of a serialized transaction is far from wrapping round.
pub mod Laws
pub mod Invariant
pub mod Steps
pub mod History
mod Tests
use drachma_block_chain.Common.{
  ℕ, ◌+◌, ◌*◌, ◌/◌, ◌%◌, ◌^◌, List, [], ◌∷◌, ◌++◌, length, Bool, true, false, ltb, leb,
  if◌then◌else◌,
}
use drachma_block_chain.Common.Maps.{Map, has, emplace, erase, bytes_key}
use drachma_block_chain.Tx.{Transaction, serialize}
use drachma_block_chain.Crypto.{OpenSsl}
use drachma_block_chain.Block.{transaction_hash}

pub record FeePolicy : Type 0 where
  pub min_fee_rate : ℕ
  pub max_tx_bytes : ℕ
  pub max_entries : ℕ

-- `required`, which wraps round at 64 bits.
unfoldable pub required_fee : FeePolicy → Transaction → ℕ
required_fee policy tx = (length (serialize tx) + 999) / 1000 * policy.min_fee_rate % 2 ^ 64

-- `IsFeeAcceptable`
unfoldable pub is_fee_acceptable : FeePolicy → Transaction → ℕ → Bool
is_fee_acceptable policy tx fee =
    if ltb policy.max_tx_bytes (length (serialize tx))
    then false
    else leb (required_fee policy tx) fee

pub record MempoolEntry : Type 0 where
  pub tx : Transaction
  pub fee : ℕ
  pub added : ℕ

pub record Mempool : Type 0 where
  pub policy : FeePolicy
  pub entries : Map (List ℕ) MempoolEntry
  pub order : List (List ℕ)

-- `EvictOldest`: the entries and the order that are left.
unfoldable pub evict_oldest :
    Map (List ℕ) MempoolEntry → List (List ℕ) → Map (List ℕ) MempoolEntry × List (List ℕ)
evict_oldest entries [] = (entries, [])
evict_oldest entries (hash ∷ order) =
    let rest = evict_oldest entries order in
    if has bytes_key hash entries then (erase bytes_key hash entries, order) else rest

-- The part of `Accept` below its two tests.
unfoldable pub add_entry : Mempool → List ℕ → MempoolEntry → Mempool
add_entry pool hash entry =
    let room =
      if leb pool.policy.max_entries (length pool.entries)
      then evict_oldest pool.entries pool.order
      else (pool.entries, pool.order) in
    record {
      policy = pool.policy;
      entries = emplace bytes_key hash entry room.0;
      order = room.1 ++ hash ∷ [];
    }

-- `Exists`
unfoldable pub exists : Mempool → List ℕ → Bool
exists pool hash = has bytes_key hash pool.entries

-- `Accept`: the answer and the pool that is left.
unfoldable pub accept : OpenSsl → Mempool → Transaction → ℕ → ℕ → Bool × Mempool
accept ssl pool tx fee now =
    let hash = transaction_hash ssl tx in
    if has bytes_key hash pool.entries
    then (false, pool)
    else if is_fee_acceptable pool.policy tx fee
    then (true, add_entry pool hash (record { tx = tx; fee = fee; added = now }))
    else (false, pool)

-- `Snapshot`
unfoldable pub snapshot : Map (List ℕ) MempoolEntry → List Transaction
snapshot [] = []
snapshot ((hash, entry) ∷ rest) = entry.tx ∷ snapshot rest

-- The first loop of `Remove`.
unfoldable pub erase_each : List (List ℕ) → Map (List ℕ) MempoolEntry → Map (List ℕ) MempoolEntry
erase_each [] entries = entries
erase_each (h ∷ hs) entries =
    erase_each hs (if has bytes_key h entries then erase bytes_key h entries else entries)

-- The second loop: the order of what remains.
unfoldable pub rebuild : Map (List ℕ) MempoolEntry → List (List ℕ) → List (List ℕ)
rebuild entries [] = []
rebuild entries (h ∷ order) =
    let rest = rebuild entries order in if has bytes_key h entries then h ∷ rest else rest

-- `Remove`
unfoldable pub remove : List (List ℕ) → Mempool → Mempool
remove hashes pool =
    let left = erase_each hashes pool.entries in
    record { policy = pool.policy; entries = left; order = rebuild left pool.order }
