-- ===== src/Validation/Inputs.antt =====
-- The loop over the inputs of a transaction, in layer1-core/validation/validation.cpp.
use drachma_block_chain.Common.{
  ℕ, zero, suc, ◌+◌, ◌≡◌, ◌≢◌, ap, ◌∙◌, arith, List, [], ◌∷◌, drop, get_elem?, Error, All, true,
  false, Option, none, some, Option-cases, inl, inr,
}
use drachma_block_chain.Tx.{OutPoint, TxIn, TxOut, Transaction}
use drachma_block_chain.Crypto.{OpenSsl}
use drachma_block_chain.Block.{verify_script, verify_input}
use drachma_block_chain.Consensus.Params.{Params}
use drachma_block_chain.Validation.{
  pass, throws, UtxoLookup, safe_add, is_null_outpoint, seen_before, check_inputs,
}

abbrev pub prevouts : List TxIn → List OutPoint
prevouts [] = []
prevouts (i ∷ is) = i.prevout ∷ prevouts is

-- Each outpoint is neither in `seen` nor among those before it, and what has been seen after them.
abbrev pub Fresh : List OutPoint → List OutPoint → Type 0
Fresh seen [] = Unit
Fresh seen (p ∷ ps) = (seen_before p seen ≡ false) × Fresh (p ∷ seen) ps

abbrev pub push_all : List OutPoint → List OutPoint → List OutPoint
push_all seen [] = seen
push_all seen (p ∷ ps) = push_all (p ∷ seen) ps

-- The value of the outputs that inputs spend.
abbrev pub utxo_value : Option TxOut → ℕ
utxo_value none = 0
utxo_value (some u) = u.value

unfoldable pub in_value : UtxoLookup → List TxIn → ℕ
in_value lookup [] = 0
in_value lookup (i ∷ is) = utxo_value (lookup i.prevout) + in_value lookup is

pub drop_cons :
    {A : Type 0} (n : ℕ) (xs : List A) {x : A} {ys : List A}
    → drop n xs ≡ x ∷ ys
    → (get_elem? xs n ≡ some x) × (drop (n + 1) xs ≡ ys)
drop_cons zero [] e = cc
drop_cons (suc n) [] e = cc
drop_cons zero (x ∷ xs) e = (cc, cc)
drop_cons (suc n) (x ∷ xs) e =
    let (p, q) = drop_cons n xs e in (p, ap (λ (k : ℕ). drop k (x ∷ xs)) (carry n) ∙ q)
  where
    carry : (n : ℕ) → suc n + 1 ≡ suc (n + 1)
    carry n = omega arith

module _ (ssl : OpenSsl) (params : Params) (lookup : UtxoLookup) (tx : Transaction) where
  -- The input spends an output that exists, with a signature that its key accepts.
  abbrev pub Authorised : TxIn → Type 0
  Authorised i =
      (is_null_outpoint i.prevout ≡ false)
      × ((u : TxOut) × (lookup i.prevout ≡ some u) × (verify_input ssl tx i u ≡ true))

  -- One round that goes on.
  pub check_input_pass :
      (n : ℕ) (seen : List OutPoint) (total : ℕ) (i : TxIn) (is : List TxIn) (r : List OutPoint × ℕ)
      → get_elem? tx.vin n ≡ some i
      → check_inputs ssl params lookup tx n seen total (i ∷ is) ≡ pass r
      → (u : TxOut) × (lookup i.prevout ≡ some u)
        × (is_null_outpoint i.prevout ≡ false)
        × (seen_before i.prevout seen ≡ false)
        × (verify_input ssl tx i u ≡ true)
        × (check_inputs ssl params lookup tx (n + 1) (i.prevout ∷ seen) (total + u.value) is
            ≡ pass r)
  unfolding check_inputs verify_script safe_add
  check_input_pass n seen total i is r g e = elim (Option-cases (lookup i.prevout)) [
    | inl missing ↦ absurd (ground arith)
    | inr (u, found) ↦ (u, found, ground arith, ground arith, ground arith, ground arith)
  ]

  pub check_inputs_pass :
      (n : ℕ) (seen : List OutPoint) (total : ℕ) (is : List TxIn) (seen' : List OutPoint) (t : ℕ)
      → drop n tx.vin ≡ is
      → check_inputs ssl params lookup tx n seen total is ≡ pass (seen', t)
      → (t ≡ total + in_value lookup is)
        × (seen' ≡ push_all seen (prevouts is))
        × Fresh seen (prevouts is)
        × All Authorised is
  unfolding in_value
  check_inputs_pass n seen total [] seen' t d e = unfold check_inputs in ground arith
  check_inputs_pass n seen total (i ∷ is) seen' t d e =
      let (g, d') = drop_cons n tx.vin d in
      let (u, found, proper, fresh, signed, e') =
        check_input_pass n seen total i is (seen', t) g e in
      let (v, s, f, a) =
        check_inputs_pass (n + 1) (i.prevout ∷ seen) (total + u.value) is seen' t d' e' in
      (omega (arith, v, ap utxo_value found), s, (fresh, f), ((proper, (u, found, signed)), a))

  -- A script is only verified for an input that is there, so the loop does not throw.
  pub check_inputs-ne-throws :
      (n : ℕ) (seen : List OutPoint) (total : ℕ) (is : List TxIn) (x : Error)
      → drop n tx.vin ≡ is
      → check_inputs ssl params lookup tx n seen total is ≢ throws x
  unfolding check_inputs verify_script safe_add
  check_inputs-ne-throws n seen total [] x d = λ h. cc
  check_inputs-ne-throws n seen total (i ∷ is) x d =
      let (g, d') = drop_cons n tx.vin d in
      elim (Option-cases (lookup i.prevout)) [
        | inl missing ↦ ground arith
        | inr (u, found) ↦ ground (
          arith,
          found,
          g,
          check_inputs-ne-throws (n + 1) (i.prevout ∷ seen) (total + u.value) is x d',
        )
      ]
