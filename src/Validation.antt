-- ===== src/Validation.antt =====
-- layer1-core/validation/validation.cpp: the acceptance of a block's header and transactions. The
-- callback `UTXOLookup` is a function, or `none` where the `std::function` is empty. The set of the
-- previous outputs seen so far, an `unordered_set`, is a list that is only searched and added to.
mod Verdict
pub mod Outputs
pub mod Inputs
pub mod Fresh
pub mod Transactions
pub mod Safety
pub mod Ledger
pub mod Equivalence
pub mod Outcomes
pub mod Blocks
pub mod Repeats
mod Tests
pub use Verdict.*
use drachma_block_chain.Common.{
  ℕ, ◌+◌, ◌-◌, ◌^◌, List, [], ◌∷◌, length, Bool, true, false, ltb, leb, ◌==◌, not, ◌&&◌, ◌||◌,
  if◌then◌else◌, Option, none, some, bytes_eq,
}
use drachma_block_chain.Common.Int.{ℤ}
use drachma_block_chain.Tx.{OutPoint, TxIn, TxOut, Transaction}
use drachma_block_chain.Crypto.{OpenSsl}
use drachma_block_chain.Consensus.Params.{Params, get_block_subsidy, money_range}
use drachma_block_chain.Pow.{check_proof_of_work}
use drachma_block_chain.Block.{Block, BlockHeader, block_hash, verify_script}
use drachma_block_chain.Merkle.{compute_merkle_root}

abbrev pub UtxoLookup : Type 0
UtxoLookup = OutPoint → Option TxOut

unfoldable pub all_zero : List ℕ → Bool
all_zero [] = true
all_zero (b ∷ bs) = b == 0 && all_zero bs

unfoldable pub is_null_outpoint : OutPoint → Bool
is_null_outpoint p = all_zero p.hash && p.index == 2 ^ 32 - 1

-- `OutPointEq`
unfoldable pub outpoint_eq : OutPoint → OutPoint → Bool
outpoint_eq a b = a.index == b.index && bytes_eq a.hash b.hash

-- `SafeAdd`: `none` is `return false`.
unfoldable pub safe_add : ℕ → ℕ → Option ℕ
safe_add a b = if ltb (2 ^ 64 - 1 - b) a then none else some (a + b)

-- `tx.vin.size() == 1 && IsNullOutPoint(tx.vin.front().prevout)`
unfoldable pub is_null_input : List TxIn → Bool
is_null_input (i ∷ []) = is_null_outpoint i.prevout
is_null_input _ = false

unfoldable pub is_coinbase : Transaction → Bool
unfolding is_null_input
is_coinbase tx = is_null_input tx.vin

-- `ValidateBlockHeader`
unfoldable pub validate_block_header : OpenSsl → BlockHeader → Params → Check (Unit {0})
validate_block_header ssl header params =
    require_ok (check_proof_of_work (block_hash ssl header) header.bits params)

-- Whether `seenPrevouts` holds the outpoint.
unfoldable pub seen_before : OutPoint → List OutPoint → Bool
seen_before p [] = false
seen_before p (q ∷ qs) = outpoint_eq p q || seen_before p qs

-- The loop over the outputs of a transaction, which stands twice in `ValidateTransactions`.
unfoldable pub check_outputs : Params → ℕ → List TxOut → Check ℕ
check_outputs params total [] = pass total
check_outputs params total (o ∷ os) = do
  next ← or_reject (safe_add total o.value)
  require (money_range o.value params && money_range next params)
  require (length o.script_pub_key == 32)
  check_outputs params next os

-- `txs.front().vin.front().scriptSig`
unfoldable pub coinbase_sig : List TxIn → List ℕ
coinbase_sig [] = []
coinbase_sig (i ∷ is) = i.script_sig

module _ (ssl : OpenSsl) (params : Params) where
  -- The loop over the inputs of a transaction: the outpoints seen and the value that is spent.
  unfoldable pub check_inputs :
      UtxoLookup → Transaction → ℕ → List OutPoint → ℕ → List TxIn → Check (List OutPoint × ℕ)
  check_inputs lookup tx in_idx seen total [] = pass (seen, total)
  check_inputs lookup tx in_idx seen total (i ∷ is) = do
    require (not (is_null_outpoint i.prevout))
    require (not (length i.script_sig == 0))
    require (not (seen_before i.prevout seen))
    utxo ← or_reject (lookup i.prevout)
    require_ok (verify_script ssl tx in_idx utxo)
    next ← or_reject (safe_add total utxo.value)
    require (money_range next params)
    check_inputs lookup tx (in_idx + 1) (i.prevout ∷ seen) next is

  -- The body of the loop over the transactions, after the outputs, for a transaction that is not the
  -- first: the outpoints seen and the fees.
  unfoldable pub check_spend :
      Option UtxoLookup → Transaction → ℕ → List OutPoint → ℕ → Check (List OutPoint × ℕ)
  check_spend lookup tx total_out seen total_fees = do
    require (not (is_coinbase tx))
    look ← or_reject lookup
    require (not (length tx.vin == 0 || length tx.vout == 0))
    (seen', total_in) ← check_inputs look tx 0 seen 0 tx.vin
    require (not (ltb total_in total_out))
    next_fees ← or_reject (safe_add total_fees (total_in - total_out))
    require (money_range next_fees params)
    pass (seen', next_fees)

  -- The loop over the transactions, from number `i` on: the total fees.
  unfoldable pub check_transactions :
      Option UtxoLookup → ℕ → List OutPoint → ℕ → List Transaction → Check ℕ
  check_transactions lookup i seen total_fees [] = pass total_fees
  check_transactions lookup i seen total_fees (tx ∷ txs) = do
    total_out ← check_outputs params 0 tx.vout
    (seen', fees) ←
        if i == 0 then pass (seen, total_fees) else check_spend lookup tx total_out seen total_fees
    check_transactions lookup (i + 1) seen' fees txs

  -- `ValidateTransactions`
  unfoldable pub validate_transactions : List Transaction → ℤ → Option UtxoLookup → Check (Unit {0})
  validate_transactions [] height lookup = reject
  validate_transactions (coinbase ∷ txs) height lookup = do
    require (is_coinbase coinbase)
    require (not (length coinbase.vout == 0))
    require (
        not (
          ltb (length (coinbase_sig coinbase.vin)) 2
          || ltb 100 (length (coinbase_sig coinbase.vin))))
    coinbase_out_total ← check_outputs params 0 coinbase.vout
    total_fees ← check_transactions lookup 0 [] 0 (coinbase ∷ txs)
    max_coinbase ← or_reject (safe_add (get_block_subsidy height params) total_fees)
    require (not (ltb max_coinbase coinbase_out_total))
    pass tt

  -- `ValidateBlock`
  unfoldable pub validate_block : Block → ℤ → Option UtxoLookup → Check (Unit {0})
  validate_block block height lookup = do
    validate_block_header ssl block.header params
    validate_transactions block.transactions height lookup
    require (bytes_eq (compute_merkle_root ssl block.transactions) block.header.merkle_root)
    pass tt
