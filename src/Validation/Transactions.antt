-- ===== src/Validation/Transactions.antt =====
-- The loop over the transactions of a block, in layer1-core/validation/validation.cpp.
use drachma_block_chain.Common.{
  ℕ, ◌+◌, ◌-◌, ◌^◌, ◌≤◌, ◌<◌, ◌≡◌, ◌≢◌, refl, ◌∙◌, arith, List, [], ◌∷◌, ◌++◌, length, All, false,
  Option, none, some, ◌==◌, ltb, not, ◌||◌,
}
use mathlib.Core.Path.{subst}
use drachma_block_chain.Tx.{OutPoint, Transaction}
use drachma_block_chain.Crypto.{OpenSsl}
use drachma_block_chain.Consensus.Params.{Params, money_range}
use drachma_block_chain.Validation.{
  pass, UtxoLookup, safe_add, is_coinbase, check_outputs, check_inputs, check_spend,
  check_transactions, require, or_reject, >>=-eq-pass, require-eq-pass, ◌>>=◌, ◌>>◌,
}
use drachma_block_chain.Validation.Outputs.{out_value, HasKey, check_outputs_iff}
use drachma_block_chain.Validation.Inputs.{
  prevouts, Fresh, push_all, in_value, Authorised, check_inputs_pass,
}

-- The outpoints that a list of transactions spends, in order.
unfoldable pub spent_outpoints : List Transaction → List OutPoint
spent_outpoints [] = []
spent_outpoints (tx ∷ txs) = prevouts tx.vin ++ spent_outpoints txs

-- What transactions pay out, and what they spend.
unfoldable pub paid_out : List Transaction → ℕ
paid_out [] = 0
paid_out (tx ∷ txs) = out_value tx.vout + paid_out txs

unfoldable pub spent : UtxoLookup → List Transaction → ℕ
spent look [] = 0
spent look (tx ∷ txs) = in_value look tx.vin + spent look txs

-- The callback, which finds nothing where there is none.
abbrev pub callback : Option UtxoLookup → UtxoLookup
callback none p = none
callback (some look) p = look p

pub positive : (n : ℕ) → 0 < n → (n == 0) ≡ false
positive n h = ground arith

Fresh-append :
    (seen ps qs : List OutPoint)
    → Fresh seen ps
    → Fresh (push_all seen ps) qs
    → Fresh seen (ps ++ qs)
Fresh-append seen [] qs h k = k
Fresh-append seen (p ∷ ps) qs h k = (h.0, Fresh-append (p ∷ seen) ps qs h.1 k)

push_all-append :
    (seen ps qs : List OutPoint) → push_all seen (ps ++ qs) ≡ push_all (push_all seen ps) qs
push_all-append seen [] qs = refl
push_all-append seen (p ∷ ps) qs = push_all-append (p ∷ seen) ps qs

module _ (ssl : OpenSsl) (params : Params) where
  -- What holds of a transaction that is not the first of an accepted block.
  pub record IsSpend (look : UtxoLookup) (tx : Transaction) : Type 0 where
    pub not_coinbase : is_coinbase tx ≡ false
    pub has_inputs : tx.vin ≢ []
    pub has_outputs : tx.vout ≢ []
    pub have_keys : All HasKey tx.vout
    pub authorised : All (Authorised ssl params look tx) tx.vin
    pub covered : out_value tx.vout ≤ in_value look tx.vin

module _ (ssl : OpenSsl) (params : Params) (small : params.max_money_out < 2 ^ 64) where
  -- The fee of a transaction, as it is added up.
  pub settled :
      (out fees t : ℕ) (s seen' : List OutPoint) (fees' : ℕ)
      → (require (not (ltb t out))
          >> (or_reject (safe_add fees (t - out)) >>= λ next.
              ◌>>◌ {Y = List OutPoint × ℕ} (require (money_range next params)) (pass (s, next))))
        ≡ pass (seen', fees')
      → (out ≤ t) × (seen' ≡ s) × (fees' ≡ fees + (t - out)) × (fees' ≤ params.max_money_out)
  unfolding safe_add money_range
  settled out fees t s seen' fees' e = ground arith

  pub no_provider :
      (tx : Transaction) (out : ℕ) (seen : List OutPoint) (fees : ℕ) (r : List OutPoint × ℕ)
      → check_spend ssl params none tx out seen fees ≢ pass r
  unfolding check_spend
  no_provider tx out seen fees r = ground arith

  check_spend_pass :
      (look : UtxoLookup) (tx : Transaction) (out fees : ℕ) (seen seen' : List OutPoint) (fees' : ℕ)
      → out ≡ out_value tx.vout
      → All HasKey tx.vout
      → check_spend ssl params (some look) tx out seen fees ≡ pass (seen', fees')
      → IsSpend ssl params look tx
        × (fees' + out_value tx.vout ≡ fees + in_value look tx.vin)
        × (seen' ≡ push_all seen (prevouts tx.vin))
        × Fresh seen (prevouts tx.vin)
  unfolding check_spend
  check_spend_pass look tx out fees seen seen' fees' eo keys e =
      let (nc, e₁) = require-eq-pass (not (is_coinbase tx)) _ e in
      let (full, e₂) = require-eq-pass (not (length tx.vin == 0 || length tx.vout == 0)) _ e₁ in
      let ((s, t), ei, e₃) = >>=-eq-pass (check_inputs ssl params look tx 0 seen 0 tx.vin) _ e₂ in
      let (v, es, f, a) = check_inputs_pass ssl params look tx 0 seen 0 tx.vin s t refl ei in
      let (le, e₄, e₅, _) = settled out fees t s seen' fees' e₃ in
      (
        record {
          not_coinbase = ground (arith, nc);
          has_inputs = λ none. ground (arith, full, none);
          has_outputs = λ none. ground (arith, full, none);
          have_keys = keys;
          authorised = a;
          covered = omega (arith, v, eo, le);
        },
        omega (arith, e₅, v, eo, le),
        e₄ ∙ es,
        f,
      )

  -- A transaction after the first, with its outputs.
  IsSpend-pass :
      (lookup : Option UtxoLookup) (i : ℕ) (seen : List OutPoint) (fees : ℕ) (tx : Transaction)
      (txs : List Transaction) (fees' : ℕ)
      → 0 < i
      → check_transactions ssl params lookup i seen fees (tx ∷ txs) ≡ pass fees'
      → (seen' : List OutPoint) × (fees'' : ℕ) × IsSpend ssl params (callback lookup) tx
        × (fees'' + out_value tx.vout ≡ fees + in_value (callback lookup) tx.vin)
        × (seen' ≡ push_all seen (prevouts tx.vin))
        × Fresh seen (prevouts tx.vin)
        × (check_transactions ssl params lookup (i + 1) seen' fees'' txs ≡ pass fees')
  unfolding check_transactions
  IsSpend-pass lookup i seen fees tx txs fees' h e =
      let (out, eo, e₁) = >>=-eq-pass (check_outputs params 0 tx.vout) _ e in
      let (value, _, keys) = (check_outputs_iff params small out tx.vout).0 eo in
      let e₂ = rw (positive i h) at e₁ in
      let ((s, f), es, e₃) = >>=-eq-pass (check_spend ssl params lookup tx out seen fees) _ e₂ in
      let (spend, sum, se, fresh) = chosen lookup out s f value keys es in
      (s, f, spend, sum, se, fresh, e₃)
    where
      chosen :
          (lookup : Option UtxoLookup) (out : ℕ) (s : List OutPoint) (f : ℕ)
          → out ≡ out_value tx.vout
          → All HasKey tx.vout
          → check_spend ssl params lookup tx out seen fees ≡ pass (s, f)
          → IsSpend ssl params (callback lookup) tx
            × (f + out_value tx.vout ≡ fees + in_value (callback lookup) tx.vin)
            × (s ≡ push_all seen (prevouts tx.vin))
            × Fresh seen (prevouts tx.vin)
      chosen (some look) out s f value keys es =
          check_spend_pass look tx out fees seen s f value keys es
      chosen none out s f value keys es = absurd (no_provider tx out seen fees (s, f) es)

  -- The transactions after the first: each is a spend, no outpoint is spent twice, and the fees are
  -- what is spent less what is paid out.
  pub spends_pass :
      (lookup : Option UtxoLookup) (i : ℕ) (seen : List OutPoint) (fees fees' : ℕ)
      (txs : List Transaction)
      → 0 < i
      → check_transactions ssl params lookup i seen fees txs ≡ pass fees'
      → All (IsSpend ssl params (callback lookup)) txs
        × (fees' + paid_out txs ≡ fees + spent (callback lookup) txs)
        × Fresh seen (spent_outpoints txs)
  unfolding paid_out spent spent_outpoints
  spends_pass lookup i seen fees fees' [] h e = (tt, unfold check_transactions in ground arith, tt)
  spends_pass lookup i seen fees fees' (tx ∷ txs) h e =
      let (s, f, spend, sum, es, fresh, e') = IsSpend-pass lookup i seen fees tx txs fees' h e in
      let (spends, sums, more) = spends_pass lookup (i + 1) s f fees' txs (omega arith) e' in
      (
        (spend, spends),
        omega (arith, sum, sums),
        Fresh-append seen (prevouts tx.vin) (spent_outpoints txs) fresh
            (subst (λ t. Fresh t (spent_outpoints txs)) es more),
      )
