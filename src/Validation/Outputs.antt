-- ===== src/Validation/Outputs.antt =====
-- The loop over the outputs of a transaction, in layer1-core/validation/validation.cpp.
use drachma_block_chain.Common.{
  ℕ, ◌+◌, ◌^◌, ◌≤◌, ◌<◌, ◌≡◌, ◌≢◌, ◌↔◌, arith, List, [], ◌∷◌, length, Error, All,
}
use drachma_block_chain.Tx.{TxOut}
use drachma_block_chain.Consensus.Params.{Params, money_range}
use drachma_block_chain.Validation.{pass, throws, safe_add, check_outputs}

-- The value of a list of outputs.
unfoldable pub out_value : List TxOut → ℕ
out_value [] = 0
out_value (o ∷ os) = o.value + out_value os

-- `scriptPubKey` holds an x-only key.
abbrev pub HasKey : TxOut → Type 0
HasKey o = length o.script_pub_key ≡ 32

module _ (params : Params) (small : params.max_money_out < 2 ^ 64) where
  check_outputs_from :
      (total t : ℕ) (os : List TxOut)
      → total ≤ params.max_money_out
      → (check_outputs params total os ≡ pass t) ↔ (
          (t ≡ total + out_value os)
          × (total + out_value os ≤ params.max_money_out)
          × All HasKey os)
  unfolding check_outputs out_value safe_add money_range
  check_outputs_from total t [] h = ground arith
  check_outputs_from total t (o ∷ os) h = ground (arith, check_outputs_from (total + o.value) t os)

  -- The outputs of a transaction are accepted exactly when each holds a key and their whole value is
  -- money; it is then the total. No sum of them wraps round.
  pub check_outputs_iff :
      (t : ℕ) (os : List TxOut)
      → (check_outputs params 0 os ≡ pass t)
        ↔ ((t ≡ out_value os) × (out_value os ≤ params.max_money_out) × All HasKey os)
  check_outputs_iff t os =
      let (there, back) = check_outputs_from 0 t os (omega arith) in
      (
        λ e. let (v, m, k) = there e in (omega (arith, v), omega (arith, m), k),
        λ (v, m, k). back (omega (arith, v), omega (arith, m), k),
      )

pub check_outputs-ne-throws :
    (params : Params) (total : ℕ) (os : List TxOut) (e : Error)
    → check_outputs params total os ≢ throws e
unfolding check_outputs safe_add
check_outputs-ne-throws params total [] e = λ h. cc
check_outputs-ne-throws params total (o ∷ os) e =
    ground (arith, check_outputs-ne-throws params (total + o.value) os e)
