-- ===== src/Chainstate/Laws.antt =====
-- The operations of layer1-core/chainstate/coins.cpp on the set of unspent outputs.
use drachma_block_chain.Common.{
  ◌≡◌, sym, ap, ◌∙◌, Bool, true, false, ok, err, missing_utxo, spend_missing_utxo,
}
use drachma_block_chain.Common.Maps.{
  KeyEq, find, has, assign, erase, find-assign, find-assign_other, find-erase, find-erase_other,
}
use drachma_block_chain.Tx.{OutPoint, TxOut}
use drachma_block_chain.Chainstate.{Utxos, or_missing, get_utxo, add_utxo, spend_utxo}

module _ (eq : KeyEq OutPoint) where
  same_answer :
      (utxos utxos' : Utxos) (out : OutPoint)
      → find eq out utxos ≡ find eq out utxos'
      → get_utxo eq utxos out ≡ get_utxo eq utxos' out
  unfolding get_utxo
  same_answer utxos utxos' out e = ap or_missing e

  -- An output that is added is the answer for its outpoint, and no other outpoint has another answer.
  pub get_utxo-add_utxo :
      (utxos : Utxos) (out : OutPoint) (txout : TxOut)
      → (get_utxo eq (add_utxo eq utxos out txout) out ≡ ok txout)
        × ((other : OutPoint)
            → eq.same out other ≡ false
            → get_utxo eq (add_utxo eq utxos out txout) other ≡ get_utxo eq utxos other)
  unfolding add_utxo
  get_utxo-add_utxo utxos out txout = (
    added,
    λ other h.
        same_answer (assign eq out txout utxos) utxos other
          (find-assign_other eq out other txout utxos h),
  )
    where
      added : get_utxo eq (assign eq out txout utxos) out ≡ ok txout
      added = unfold get_utxo in ap or_missing (find-assign eq out txout utxos)

  spent_cases :
      (b : Bool) (left utxos' : Utxos)
      → elim b [ true ↦ ok left | false ↦ err spend_missing_utxo ] ≡ ok utxos'
      → left ≡ utxos'
  spent_cases true left utxos' e = cc
  spent_cases false left utxos' e = cc

  -- An output that is spent is missing from then on, and no other outpoint has another answer.
  pub get_utxo-spend_utxo :
      (utxos utxos' : Utxos) (out : OutPoint)
      → spend_utxo eq utxos out ≡ ok utxos'
      → (get_utxo eq utxos' out ≡ err missing_utxo)
        × ((other : OutPoint)
            → eq.same out other ≡ false
            → get_utxo eq utxos' other ≡ get_utxo eq utxos other)
  unfolding spend_utxo
  get_utxo-spend_utxo utxos utxos' out e =
      let gone = spent_cases (has eq out utxos) (erase eq out utxos) utxos' e in
      (
        ap (λ u. get_utxo eq u out) (sym gone) ∙ missing,
        λ other h.
            ap (λ u. get_utxo eq u other) (sym gone)
            ∙ same_answer (erase eq out utxos) utxos other (find-erase_other eq out other utxos h),
      )
    where
      missing : get_utxo eq (erase eq out utxos) out ≡ err missing_utxo
      missing = unfold get_utxo in ap or_missing (find-erase eq out utxos)
