-- ===== src/Validation/Equivalence.antt =====
-- `ValidateTransactions` of layer1-core/validation/validation.cpp accepts exactly the valid blocks.
use drachma_block_chain.Common.{
  ℕ, ◌+◌, ◌-◌, ◌^◌, ◌≤◌, ◌<◌, ◌≡◌, ◌↔◌, refl, ap, ◌∙◌, arith, List, [], ◌∷◌, ◌++◌, length, All,
  true, Option, none, some, ◌==◌, ltb, not, ◌||◌, if_false, ◌≢◌,
}
use drachma_block_chain.Common.Int.{ℤ}
use drachma_block_chain.Tx.{OutPoint, TxIn, Transaction}
use drachma_block_chain.Crypto.{OpenSsl}
use drachma_block_chain.Consensus.Params.{Params, get_block_subsidy}
use drachma_block_chain.Validation.{
  pass, UtxoLookup, safe_add, is_coinbase, coinbase_sig, check_outputs, check_inputs, check_spend,
  check_transactions, validate_transactions, >>=-eq-pass, require-eq-pass, >>=-of_pass,
  require-of_true,
}
use drachma_block_chain.Validation.Outputs.{out_value, HasKey, check_outputs_iff}
use drachma_block_chain.Validation.Inputs.{prevouts, Fresh, push_all, in_value, Authorised}
use drachma_block_chain.Validation.Fresh.{Fresh-Distinct}
use drachma_block_chain.Validation.Transactions.{
  callback, positive, IsSpend, paid_out, spent, spent_outpoints, no_provider, settled, spends_pass,
}
use drachma_block_chain.Validation.Safety.{limit_test, limited, after_coinbase}
use drachma_block_chain.Validation.Ledger.{
  IsValidSpend, IsValidBlock, inputs_money, spend_passes, not_empty,
}

-- The freshness of a list, of its front and of what is behind it.
Fresh-split :
    (seen ps qs : List OutPoint)
    → Fresh seen (ps ++ qs)
    → Fresh seen ps × Fresh (push_all seen ps) qs
Fresh-split seen [] qs h = (tt, h)
Fresh-split seen (p ∷ ps) qs (h, t) =
    let (front, back) = Fresh-split (p ∷ seen) ps qs t in ((h, front), back)

module _ (ssl : OpenSsl) (params : Params) (small : params.max_money_out < 2 ^ 64) where
  -- A transaction that spends has a provider.
  with_provider :
      (lookup : Option UtxoLookup) (tx : Transaction) (seen : List OutPoint) (fees : ℕ)
      → IsValidSpend ssl params (callback lookup) tx
      → Fresh seen (prevouts tx.vin)
      → fees + in_value (callback lookup) tx.vin ≤ out_value tx.vout + params.max_money_out
      → check_spend ssl params lookup tx (out_value tx.vout) seen fees
        ≡ pass (
          push_all seen (prevouts tx.vin),
          fees + (in_value (callback lookup) tx.vin - out_value tx.vout),
        )
  with_provider (some look) tx seen fees v f m =
      spend_passes ssl params small look tx seen fees v f m
  with_provider none tx seen fees v f m =
      absurd (no_input tx.vin v.spend.has_inputs v.spend.authorised)
    where
      no_input : (is : List TxIn) → is ≢ [] → All (Authorised ssl params (callback none) tx) is → ⊥
      no_input [] h a = h refl
      no_input (i ∷ is) h ((_, (u, found, _)), _) = absurd (cc)

  paid_within :
      (look : UtxoLookup) (txs : List Transaction)
      → All (IsValidSpend ssl params look) txs
      → paid_out txs ≤ spent look txs
  unfolding paid_out spent
  paid_within look [] v = omega arith
  paid_within look (tx ∷ txs) (v, vs) = omega (arith, v.spend.covered, paid_within look txs vs)

  outputs_pass :
      (look : UtxoLookup) (tx : Transaction)
      → IsValidSpend ssl params look tx
      → check_outputs params 0 tx.vout ≡ pass (out_value tx.vout)
  outputs_pass look tx v =
      (check_outputs_iff params small (out_value tx.vout) tx.vout).1
        (refl, omega (arith, v.spend.covered, v.money), v.spend.have_keys)

  spends_accepted :
      (lookup : Option UtxoLookup) (i : ℕ) (seen : List OutPoint) (fees : ℕ)
      (txs : List Transaction)
      → 0 < i
      → All (IsValidSpend ssl params (callback lookup)) txs
      → Fresh seen (spent_outpoints txs)
      → fees + spent (callback lookup) txs ≤ paid_out txs + params.max_money_out
      → check_transactions ssl params lookup i seen fees txs
        ≡ pass (fees + spent (callback lookup) txs - paid_out txs)
  unfolding check_transactions paid_out spent spent_outpoints
  spends_accepted lookup i seen fees [] h v f m = ap pass (omega arith)
  spends_accepted lookup i seen fees (tx ∷ txs) h (v, vs) f m =
      let (front, back) = Fresh-split seen (prevouts tx.vin) (spent_outpoints txs) f in
      let paid = paid_within (callback lookup) txs vs in
      let next = fees + (in_value (callback lookup) tx.vin - out_value tx.vout) in
      >>=-of_pass _ (outputs_pass (callback lookup) tx v)
      ∙ >>=-of_pass _ (
          if_false (i == 0) _ _ (positive i h)
          ∙ with_provider lookup tx seen fees v front (omega (arith, m, paid)))
      ∙ spends_accepted lookup (i + 1) (push_all seen (prevouts tx.vin)) next txs (omega arith) vs
          back (omega (arith, m, v.spend.covered))
      ∙ ap pass (omega (arith, v.spend.covered, paid))

  -- The other direction: what the loop checks of each spend is money, and so are the fees.
  spend_money :
      (lookup : Option UtxoLookup) (tx : Transaction) (out fees : ℕ) (seen s : List OutPoint)
      (f : ℕ)
      → check_spend ssl params lookup tx out seen fees ≡ pass (s, f)
      → (in_value (callback lookup) tx.vin ≤ params.max_money_out) × (f ≤ params.max_money_out)
  unfolding check_spend
  spend_money none tx out fees seen s f e =
      absurd (no_provider ssl params small tx out seen fees (s, f) e)
  spend_money (some look) tx out fees seen s f e =
      let (nc, e₁) = require-eq-pass (not (is_coinbase tx)) _ e in
      let (full, e₂) = require-eq-pass (not (length tx.vin == 0 || length tx.vout == 0)) _ e₁ in
      let ((s', t), ei, e₃) = >>=-eq-pass (check_inputs ssl params look tx 0 seen 0 tx.vin) _ e₂ in
      let (_, _, _, m) = settled ssl params small out fees t s' s f e₃ in
      (
        omega (
          arith,
          inputs_money ssl params small look tx 0 seen 0 tx.vin (s', t) refl (omega arith) ei,
        ),
        m,
      )

  spends_money :
      (lookup : Option UtxoLookup) (i : ℕ) (seen : List OutPoint) (fees fees' : ℕ)
      (txs : List Transaction)
      → 0 < i
      → fees ≤ params.max_money_out
      → check_transactions ssl params lookup i seen fees txs ≡ pass fees'
      → All (λ tx. in_value (callback lookup) tx.vin ≤ params.max_money_out) txs
        × (fees' ≤ params.max_money_out)
  unfolding check_transactions
  spends_money lookup i seen fees fees' [] h m e = (tt, ground arith)
  spends_money lookup i seen fees fees' (tx ∷ txs) h m e =
      let (out, eo, e₁) = >>=-eq-pass (check_outputs params 0 tx.vout) _ e in
      let e₂ = rw (positive i h) at e₁ in
      let ((s, f), es, e₃) = >>=-eq-pass (check_spend ssl params lookup tx out seen fees) _ e₂ in
      let (money, fee) = spend_money lookup tx out fees seen s f es in
      let (rest, total) = spends_money lookup (i + 1) s f fees' txs (omega arith) fee e₃ in
      ((money, rest), total)

  All-zip :
      (look : UtxoLookup) (txs : List Transaction)
      → All (IsSpend ssl params look) txs
      → All (λ tx. in_value look tx.vin ≤ params.max_money_out) txs
      → All (IsValidSpend ssl params look) txs
  All-zip look [] s m = tt
  All-zip look (tx ∷ txs) (s, ss) (m, ms) =
      (record { spend = s; money = m }, All-zip look txs ss ms)

  before_spends :
      (coinbase : Transaction) (txs : List Transaction) (lookup : Option UtxoLookup)
      → out_value coinbase.vout ≤ params.max_money_out
      → All HasKey coinbase.vout
      → check_transactions ssl params lookup 0 [] 0 (coinbase ∷ txs)
        ≡ check_transactions ssl params lookup 1 [] 0 txs
  unfolding check_transactions
  before_spends coinbase txs lookup m keys =
      >>=-of_pass _
        ((check_outputs_iff params small (out_value coinbase.vout) coinbase.vout).1 (refl, m, keys))

  limited_bits :
      (subsidy fees out : ℕ)
      → fees ≤ params.max_money_out
      → limit_test ssl params subsidy fees out ≡ pass tt
      → subsidy + fees < 2 ^ 64
  unfolding safe_add
  limited_bits subsidy fees out m e = ground (arith, small)

  in_limit :
      (subsidy fees out : ℕ)
      → subsidy + fees < 2 ^ 64
      → out ≤ subsidy + fees
      → limit_test ssl params subsidy fees out ≡ pass tt
  unfolding safe_add
  in_limit subsidy fees out b h = ground arith

  sig_size : (n : ℕ) → (not (ltb n 2 || ltb 100 n) ≡ true) ↔ ((2 ≤ n) × (n ≤ 100))
  sig_size n = ground arith

  is_valid :
      (coinbase : Transaction) (txs : List Transaction) (height : ℤ) (lookup : Option UtxoLookup)
      → validate_transactions ssl params (coinbase ∷ txs) height lookup ≡ pass tt
      → IsValidBlock ssl params coinbase txs height (callback lookup)
  unfolding validate_transactions
  is_valid coinbase txs height lookup e =
      let sig = length (coinbase_sig coinbase.vin) in
      let (c, e₁) = require-eq-pass (is_coinbase coinbase) _ e in
      let (o, e₂) = require-eq-pass (not (length coinbase.vout == 0)) _ e₁ in
      let (g, e₃) = require-eq-pass (not (ltb sig 2 || ltb 100 sig)) _ e₂ in
      let (out, eo, e₄) = >>=-eq-pass (check_outputs params 0 coinbase.vout) _ e₃ in
      let (fees, ef, e₅) =
        >>=-eq-pass (check_transactions ssl params lookup 0 [] 0 (coinbase ∷ txs)) _ e₄ in
      let (v, m, keys) = (check_outputs_iff params small out coinbase.vout).0 eo in
      let rest = after_coinbase ssl params small coinbase txs lookup fees ef in
      let (spends, sum, fresh) =
        spends_pass ssl params small lookup 1 [] 0 fees txs (omega arith) rest in
      let (money, total) = spends_money lookup 1 [] 0 fees txs (omega arith) (omega arith) rest in
      let reward = get_block_subsidy height params in
      record {
        first_is_coinbase = c;
        has_outputs = λ none. ground (arith, o, none);
        sig_from = ((sig_size sig).0 g).0;
        sig_to = ((sig_size sig).0 g).1;
        coinbase_keys = keys;
        coinbase_money = m;
        spends = All-zip (callback lookup) txs spends money;
        distinct = (Fresh-Distinct (spent_outpoints txs)).0 fresh;
        fees_money = omega (arith, sum, total);
        reward_bits = omega (arith, sum, limited_bits reward fees out total e₅);
        reward = omega (arith, v, sum, limited ssl params small reward fees out e₅);
      }

  is_accepted :
      (coinbase : Transaction) (txs : List Transaction) (height : ℤ) (lookup : Option UtxoLookup)
      → IsValidBlock ssl params coinbase txs height (callback lookup)
      → validate_transactions ssl params (coinbase ∷ txs) height lookup ≡ pass tt
  unfolding validate_transactions
  is_accepted coinbase txs height lookup v =
      let sig = length (coinbase_sig coinbase.vin) in
      let fees = 0 + spent (callback lookup) txs - paid_out txs in
      let paid = paid_within (callback lookup) txs v.spends in
      let outs =
        (check_outputs_iff params small (out_value coinbase.vout) coinbase.vout).1
          (refl, v.coinbase_money, v.coinbase_keys) in
      require-of_true _ v.first_is_coinbase
      ∙ require-of_true _ (ap not (not_empty ssl params small coinbase.vout v.has_outputs))
      ∙ require-of_true _ ((sig_size sig).1 (v.sig_from, v.sig_to))
      ∙ >>=-of_pass _ outs
      ∙ >>=-of_pass _ (
          before_spends coinbase txs lookup v.coinbase_money v.coinbase_keys
          ∙ spends_accepted lookup 1 [] 0 txs (omega arith) v.spends
              ((Fresh-Distinct (spent_outpoints txs)).1 v.distinct) (omega (arith, v.fees_money)))
      ∙ in_limit (get_block_subsidy height params) fees (out_value coinbase.vout)
          (omega (arith, v.reward_bits, paid)) (omega (arith, v.reward, paid))

  -- Under parameters whose greatest amount of money is below 2 ^ 64, the transactions of a block that has
  -- some are accepted exactly when the block is valid: the first is a coinbase with an output and a script
  -- of 2 to 100 bytes; each other one is no coinbase, has inputs and outputs, spends outputs that the
  -- provider has under a signature of their owner, spends an amount of money, and pays out no more than
  -- it spends; no outpoint is spent twice in the block; every output has a key of 32 bytes; what the
  -- coinbase pays out is an amount of money, and so are all fees together; and the coinbase pays out at
  -- most the subsidy and the fees, whose sum is below 2 ^ 64.
  pub validate_transactions_iff :
      (coinbase : Transaction) (txs : List Transaction) (height : ℤ) (lookup : Option UtxoLookup)
      → (validate_transactions ssl params (coinbase ∷ txs) height lookup ≡ pass tt)
        ↔ IsValidBlock ssl params coinbase txs height (callback lookup)
  validate_transactions_iff coinbase txs height lookup =
      (is_valid coinbase txs height lookup, is_accepted coinbase txs height lookup)
