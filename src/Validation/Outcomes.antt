-- ===== src/Validation/Outcomes.antt =====
-- `ValidateBlock` of layer1-core/validation/validation.cpp: how it ends, for every block.
use drachma_block_chain.Common.{◌^◌, ◌<◌, ◌≡◌, ◌↔◌, List, [], ◌∷◌, Option, Error, ok, err, true}
use drachma_block_chain.Common.Int.{ℤ}
use drachma_block_chain.Tx.{Transaction}
use drachma_block_chain.Crypto.{OpenSsl}
use drachma_block_chain.Block.{Block, block_hash}
use drachma_block_chain.Merkle.{compute_merkle_root}
use drachma_block_chain.Pow.{check_proof_of_work}
use drachma_block_chain.Consensus.Params.{Params}
use drachma_block_chain.Validation.{pass, throws, UtxoLookup, validate_transactions, validate_block}
use drachma_block_chain.Validation.Transactions.{callback}
use drachma_block_chain.Validation.Ledger.{IsValidBlock}
use drachma_block_chain.Validation.Equivalence.{validate_transactions_iff}
use drachma_block_chain.Validation.Blocks.{validate_block_iff, validate_block_throws}

-- The transactions of a block, of which there has to be one.
unfoldable pub AreValid : OpenSsl → Params → ℤ → UtxoLookup → List Transaction → Type 0
AreValid ssl params height look [] = ⊥
AreValid ssl params height look (coinbase ∷ txs) = IsValidBlock ssl params coinbase txs height look

module _ (ssl : OpenSsl) (params : Params) (small : params.max_money_out < 2 ^ 64) where
  transactions_iff :
      (txs : List Transaction) (height : ℤ) (lookup : Option UtxoLookup)
      → (validate_transactions ssl params txs height lookup ≡ pass tt)
        ↔ AreValid ssl params height (callback lookup) txs
  unfolding AreValid
  transactions_iff [] height lookup =
      ((λ e. unfold validate_transactions in absurd (cc)), λ none. absurd none)
  transactions_iff (coinbase ∷ txs) height lookup =
      validate_transactions_iff ssl params small coinbase txs height lookup

  -- Under parameters whose greatest amount of money is below 2 ^ 64, a block is accepted exactly when its
  -- header passes the proof-of-work test, its transactions are valid and the header names their merkle
  -- root; and it makes `ValidateBlock` throw exactly when it makes the proof-of-work test throw.
  pub validate_block_outcomes :
      (block : Block) (height : ℤ) (lookup : Option UtxoLookup)
      → let work = check_proof_of_work (block_hash ssl block.header) block.header.bits params in
        ((validate_block ssl params block height lookup ≡ pass tt) ↔ (
          (work ≡ ok true)
          × AreValid ssl params height (callback lookup) block.transactions
          × (compute_merkle_root ssl block.transactions ≡ block.header.merkle_root)))
        × ((x : Error)
            → (validate_block ssl params block height lookup ≡ throws x) ↔ (work ≡ err x))
  validate_block_outcomes block height lookup =
      let (there, back) = validate_block_iff ssl params block height lookup in
      let (valid, passes) = transactions_iff block.transactions height lookup in
      (
        ((λ h. let (p, q, r) = there h in (p, valid q, r)), λ (p, q, r). back (p, passes q, r)),
        λ x. validate_block_throws ssl params block height lookup x,
      )
