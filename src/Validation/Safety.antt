-- ===== src/Validation/Safety.antt =====
-- What is known of a block that `ValidateTransactions` of layer1-core/validation/validation.cpp accepts.
use drachma_block_chain.Common.{
  ℕ, ◌+◌, ◌^◌, ◌≤◌, ◌<◌, ◌≡◌, arith, List, [], ◌∷◌, length, All, true, Option, ◌==◌, ltb, not, ◌||◌,
}
use drachma_block_chain.Common.Int.{ℤ}
use drachma_block_chain.Tx.{Transaction}
use drachma_block_chain.Crypto.{OpenSsl}
use drachma_block_chain.Consensus.Params.{Params, get_block_subsidy}
use drachma_block_chain.Validation.{
  Check, pass, UtxoLookup, safe_add, is_coinbase, coinbase_sig, check_outputs, check_transactions,
  validate_transactions, require, or_reject, >>=-eq-pass, require-eq-pass, ◌>>=◌, ◌>>◌,
}
use drachma_block_chain.Validation.Outputs.{out_value, HasKey, check_outputs_iff}
use drachma_block_chain.Validation.Inputs.{Fresh}
use drachma_block_chain.Validation.Transactions.{
  callback, IsSpend, paid_out, spent, spent_outpoints, spends_pass,
}

module _ (ssl : OpenSsl) (params : Params) where
  -- What is known of an accepted block: of its coinbase, its spends and the sums.
  pub record IsAccepted (coinbase : Transaction) (txs : List Transaction) (height : ℤ)
      (lookup : Option UtxoLookup) : Type 0 where
    pub first_is_coinbase : is_coinbase coinbase ≡ true
    pub coinbase_keys : All HasKey coinbase.vout
    pub spends : All (IsSpend ssl params (callback lookup)) txs
    pub fresh : Fresh [] (spent_outpoints txs)
    pub sums :
        out_value coinbase.vout + paid_out txs
        ≤ get_block_subsidy height params + spent (callback lookup) txs

  -- The last test of `ValidateTransactions`.
  abbrev pub limit_test : ℕ → ℕ → ℕ → Check (Unit {0})
  limit_test subsidy fees out = do
    max_coinbase ← or_reject (safe_add subsidy fees)
    require (not (ltb max_coinbase out))
    pass tt

module _ (ssl : OpenSsl) (params : Params) (small : params.max_money_out < 2 ^ 64) where
  pub after_coinbase :
      (coinbase : Transaction) (txs : List Transaction) (lookup : Option UtxoLookup) (fees : ℕ)
      → check_transactions ssl params lookup 0 [] 0 (coinbase ∷ txs) ≡ pass fees
      → check_transactions ssl params lookup 1 [] 0 txs ≡ pass fees
  unfolding check_transactions
  after_coinbase coinbase txs lookup fees e =
      (>>=-eq-pass (check_outputs params 0 coinbase.vout) _ e).2

  pub limited :
      (subsidy fees out : ℕ)
      → limit_test ssl params subsidy fees out ≡ pass tt
      → out ≤ subsidy + fees
  unfolding safe_add
  limited subsidy fees out e = ground arith

  pub accepted :
      (coinbase : Transaction) (txs : List Transaction) (height : ℤ) (lookup : Option UtxoLookup)
      → validate_transactions ssl params (coinbase ∷ txs) height lookup ≡ pass tt
      → IsAccepted ssl params coinbase txs height lookup
  unfolding validate_transactions
  accepted coinbase txs height lookup e =
      let sig = length (coinbase_sig coinbase.vin) in
      let (c, e₁) = require-eq-pass (is_coinbase coinbase) _ e in
      let (o, e₂) = require-eq-pass (not (length coinbase.vout == 0)) _ e₁ in
      let (g, e₃) = require-eq-pass (not (ltb sig 2 || ltb 100 sig)) _ e₂ in
      let (out, eo, e₄) = >>=-eq-pass (check_outputs params 0 coinbase.vout) _ e₃ in
      let (fees, ef, e₅) =
        >>=-eq-pass (check_transactions ssl params lookup 0 [] 0 (coinbase ∷ txs)) _ e₄ in
      let (v, m, keys) = (check_outputs_iff params small out coinbase.vout).0 eo in
      let (spends, sum, fresh) =
        spends_pass ssl params small lookup 1 [] 0 fees txs (omega arith)
          (after_coinbase coinbase txs lookup fees ef) in
      record {
        first_is_coinbase = c;
        coinbase_keys = keys;
        spends = spends;
        fresh = fresh;
        sums = omega (arith, v, sum, limited (get_block_subsidy height params) fees out e₅);
      }
