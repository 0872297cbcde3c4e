-- ===== src/Validation/Ledger.antt =====
-- `ValidateTransactions` of layer1-core/validation/validation.cpp against a description of valid blocks
-- that has no loop state: no sets of outpoints seen, no running sums.
use drachma_block_chain.Common.{
  ℕ, ◌+◌, ◌-◌, ◌^◌, ◌≤◌, ◌<◌, ◌≡◌, ◌≢◌, refl, ap, ◌∙◌, arith, List, [], ◌∷◌, length, drop,
  get_elem?, All, true, false, some, ◌==◌, ltb, not, ◌||◌,
}
use drachma_block_chain.Common.Int.{ℤ}
use drachma_block_chain.Tx.{OutPoint, TxIn, TxOut, Transaction}
use drachma_block_chain.Crypto.{OpenSsl}
use drachma_block_chain.Block.{verify_script, verify_input}
use drachma_block_chain.Consensus.Params.{Params, money_range, get_block_subsidy}
use drachma_block_chain.Validation.{
  pass, UtxoLookup, safe_add, is_coinbase, coinbase_sig, is_null_outpoint, seen_before,
  check_inputs, check_spend, require, or_reject, ◌>>=◌, ◌>>◌, >>=-of_pass, require-of_true,
}
use drachma_block_chain.Validation.Outputs.{out_value, HasKey}
use drachma_block_chain.Validation.Inputs.{
  prevouts, Fresh, push_all, utxo_value, in_value, Authorised, drop_cons, check_input_pass,
}
use drachma_block_chain.Validation.Fresh.{Distinct}
use drachma_block_chain.Validation.Transactions.{IsSpend, paid_out, spent, spent_outpoints}

module _ (ssl : OpenSsl) (params : Params) (small : params.max_money_out < 2 ^ 64)
    (lookup : UtxoLookup) (tx : Transaction) where
  signature_length :
      (tx : Transaction) (i : TxIn) (u : TxOut)
      → verify_input ssl tx i u ≡ true
      → length i.script_sig ≡ 64
  unfolding verify_input
  signature_length tx i u h = ground arith

  -- The round for an input that is in order.
  input_passes :
      (n : ℕ) (seen : List OutPoint) (total : ℕ) (i : TxIn) (is : List TxIn) (u : TxOut)
      → get_elem? tx.vin n ≡ some i
      → is_null_outpoint i.prevout ≡ false
      → seen_before i.prevout seen ≡ false
      → lookup i.prevout ≡ some u
      → verify_input ssl tx i u ≡ true
      → total + u.value ≤ params.max_money_out
      → check_inputs ssl params lookup tx n seen total (i ∷ is)
        ≡ check_inputs ssl params lookup tx (n + 1) (i.prevout ∷ seen) (total + u.value) is
  unfolding check_inputs verify_script safe_add money_range
  input_passes n seen total i is u g proper fresh found signed money =
      ground (arith, g, proper, fresh, found, signed, money, small, signature_length tx i u signed)

  inputs_pass :
      (n : ℕ) (seen : List OutPoint) (total : ℕ) (is : List TxIn)
      → drop n tx.vin ≡ is
      → Fresh seen (prevouts is)
      → All (Authorised ssl params lookup tx) is
      → total + in_value lookup is ≤ params.max_money_out
      → check_inputs ssl params lookup tx n seen total is
        ≡ pass (push_all seen (prevouts is), total + in_value lookup is)
  unfolding in_value
  inputs_pass n seen total [] d f a m =
      unfold check_inputs in ap (λ t. pass (seen, t)) (omega arith)
  inputs_pass n seen total (i ∷ is) d f ((proper, (u, found, signed)), a) m =
      let (g, d') = drop_cons n tx.vin d in
      let money : total + u.value + in_value lookup is ≤ params.max_money_out =
        omega (arith, m, ap utxo_value found) in
      input_passes n seen total i is u g proper f.0 found signed (omega (arith, money))
      ∙ inputs_pass (n + 1) (i.prevout ∷ seen) (total + u.value) is d' f.1 a money
      ∙ ap (λ t. pass (push_all seen (i.prevout ∷ prevouts is), t))
          (omega (arith, ap utxo_value found))

  input_money :
      (n : ℕ) (seen : List OutPoint) (total : ℕ) (i : TxIn) (is : List TxIn) (r : List OutPoint × ℕ)
      (u : TxOut)
      → get_elem? tx.vin n ≡ some i
      → lookup i.prevout ≡ some u
      → check_inputs ssl params lookup tx n seen total (i ∷ is) ≡ pass r
      → total + u.value ≤ params.max_money_out
  unfolding check_inputs verify_script safe_add money_range
  input_money n seen total i is r u g found e = ground arith

  pub inputs_money :
      (n : ℕ) (seen : List OutPoint) (total : ℕ) (is : List TxIn) (r : List OutPoint × ℕ)
      → drop n tx.vin ≡ is
      → total ≤ params.max_money_out
      → check_inputs ssl params lookup tx n seen total is ≡ pass r
      → total + in_value lookup is ≤ params.max_money_out
  unfolding in_value
  inputs_money n seen total [] r d m e = omega (arith, m)
  inputs_money n seen total (i ∷ is) r d m e =
      let (g, d') = drop_cons n tx.vin d in
      let (u, found, _, _, _, e') = check_input_pass ssl params lookup tx n seen total i is r g e in
      let money = input_money n seen total i is r u g found e in
      omega (
        arith,
        ap utxo_value found,
        inputs_money (n + 1) (i.prevout ∷ seen) (total + u.value) is r d' money e',
      )

module _ (ssl : OpenSsl) (params : Params) where
  -- A transaction that may stand behind the coinbase: a spend of the outputs that the provider has, whose
  -- value is money.
  pub record IsValidSpend (look : UtxoLookup) (tx : Transaction) : Type 0 where
    pub spend : IsSpend ssl params look tx
    pub money : in_value look tx.vin ≤ params.max_money_out

  -- The coinbase and the other transactions of a valid block at a height.
  pub record IsValidBlock (coinbase : Transaction) (txs : List Transaction) (height : ℤ)
      (look : UtxoLookup) : Type 0 where
    pub first_is_coinbase : is_coinbase coinbase ≡ true
    pub has_outputs : coinbase.vout ≢ []
    pub sig_from : 2 ≤ length (coinbase_sig coinbase.vin)
    pub sig_to : length (coinbase_sig coinbase.vin) ≤ 100
    pub coinbase_keys : All HasKey coinbase.vout
    pub coinbase_money : out_value coinbase.vout ≤ params.max_money_out
    pub spends : All (IsValidSpend look) txs
    -- No outpoint is spent twice.
    pub distinct : Distinct (spent_outpoints txs)
    -- The fees of all are money.
    pub fees_money : spent look txs ≤ paid_out txs + params.max_money_out
    -- The subsidy and the fees are a 64-bit number, and the coinbase pays out no more than these.
    pub reward_bits : get_block_subsidy height params + spent look txs < 2 ^ 64 + paid_out txs
    pub reward :
        out_value coinbase.vout + paid_out txs ≤ get_block_subsidy height params + spent look txs

module _ (ssl : OpenSsl) (params : Params) (small : params.max_money_out < 2 ^ 64) where
  settles :
      (out fees t : ℕ) (seen : List OutPoint)
      → out ≤ t
      → fees + t ≤ out + params.max_money_out
      → (require (not (ltb t out))
          >> (or_reject (safe_add fees (t - out)) >>= λ next.
              ◌>>◌ {Y = List OutPoint × ℕ} (require (money_range next params)) (pass (seen, next))))
        ≡ pass (seen, fees + (t - out))
  unfolding safe_add money_range
  settles out fees t seen le m = ground (arith, small)

  pub not_empty : {A : Type 0} (xs : List A) → xs ≢ [] → (length xs == 0) ≡ false
  not_empty [] h = absurd (h refl)
  not_empty (x ∷ xs) h = ground arith

  full :
      (tx : Transaction)
      → tx.vin ≢ []
      → tx.vout ≢ []
      → not (length tx.vin == 0 || length tx.vout == 0) ≡ true
  full tx h k = ground (arith, not_empty tx.vin h, not_empty tx.vout k)

  -- The body of the loop for a valid spend.
  pub spend_passes :
      (look : UtxoLookup) (tx : Transaction) (seen : List OutPoint) (fees : ℕ)
      → IsValidSpend ssl params look tx
      → Fresh seen (prevouts tx.vin)
      → fees + in_value look tx.vin ≤ out_value tx.vout + params.max_money_out
      → check_spend ssl params (some look) tx (out_value tx.vout) seen fees
        ≡ pass (push_all seen (prevouts tx.vin), fees + (in_value look tx.vin - out_value tx.vout))
  unfolding check_spend
  spend_passes look tx seen fees v f m =
      let ei =
        inputs_pass ssl params small look tx 0 seen 0 tx.vin refl f v.spend.authorised
          (omega (arith, v.money)) in
      require-of_true _ (ap not v.spend.not_coinbase)
      ∙ require-of_true _ (full tx v.spend.has_inputs v.spend.has_outputs)
      ∙ >>=-of_pass _ (ei ∙ ap (λ t. pass (push_all seen (prevouts tx.vin), t)) (omega arith))
      ∙ settles (out_value tx.vout) fees (in_value look tx.vin) (push_all seen (prevouts tx.vin))
          v.spend.covered m
