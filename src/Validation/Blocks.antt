-- ===== src/Validation/Blocks.antt =====
-- `ValidateBlock` of layer1-core/validation/validation.cpp, its exceptions, and repeated transactions.
use drachma_block_chain.Common.{
  ℕ, ◌+◌, ◌-◌, ◌≡◌, ◌≢◌, ◌↔◌, refl, arith, List, [], ◌∷◌, length, Error, Bool, true, false, Option,
  none, some, ◌==◌, not, ◌||◌, ltb, Result, ok, err, bytes_eq, bytes_eq_iff, if◌then◌else◌,
}
use drachma_block_chain.Common.Int.{ℤ}
use drachma_block_chain.Tx.{OutPoint, Transaction}
use drachma_block_chain.Crypto.{OpenSsl}
use drachma_block_chain.Consensus.Params.{Params, money_range, get_block_subsidy}
use drachma_block_chain.Pow.{check_proof_of_work}
use drachma_block_chain.Block.{Block, block_hash}
use drachma_block_chain.Merkle.{compute_merkle_root}
use drachma_block_chain.Validation.{
  Check, pass, reject, throws, UtxoLookup, safe_add, is_coinbase, coinbase_sig, check_outputs,
  check_inputs, check_spend, check_transactions, validate_transactions, validate_block_header,
  validate_block, require, require_ok, or_reject, ◌>>=◌, ◌>>◌,
}
use drachma_block_chain.Validation.Outputs.{check_outputs-ne-throws}
use drachma_block_chain.Validation.Inputs.{check_inputs-ne-throws}
use drachma_block_chain.Validation.Safety.{limit_test}

-- A chain throws only if one of its parts does.
>>=-ne-throws :
    {A B : Type 0} (m : Check A) (f : A → Check B) (x : Error)
    → m ≢ throws x
    → ((a : A) → f a ≢ throws x)
    → (m >>= f) ≢ throws x
>>=-ne-throws (pass a) f x h k = k a
>>=-ne-throws reject f x h k = λ e. cc
>>=-ne-throws (throws y) f x h k = λ e. h (cc)

require-ne-throws : (c : Bool) (x : Error) → require c ≢ throws x
require-ne-throws true x e = cc
require-ne-throws false x e = cc

pass-ne-throws : {A : Type 0} {a : A} (x : Error) → ◌≢◌ {A = Check A} (pass a) (throws x)
pass-ne-throws x e = cc

-- The three parts of `ValidateBlock`, by their outcomes.
abbrev parts : Result Bool → Check (Unit {0}) → Bool → Check (Unit {0})
parts r c b = do require_ok r; c; require b; pass tt

parts_pass :
    (r : Result Bool) (c : Check (Unit {0})) (b : Bool)
    → (parts r c b ≡ pass tt) ↔ ((r ≡ ok true) × (c ≡ pass tt) × (b ≡ true))
parts_pass (err e) c b = ((λ h. cc), (λ h. cc (h.0)))
parts_pass (ok false) c b = ((λ h. cc), (λ h. cc (h.0)))
parts_pass (ok true) reject b = ((λ h. cc), (λ h. cc (h.1)))
parts_pass (ok true) (throws e) b = ((λ h. cc), (λ h. cc (h.1)))
parts_pass (ok true) (pass u) true = ((λ h. (refl, refl, refl)), (λ h. refl))
parts_pass (ok true) (pass u) false = ((λ h. cc), (λ h. cc (h.2)))

parts_throws :
    (r : Result Bool) (c : Check (Unit {0})) (b : Bool) (x : Error)
    → c ≢ throws x
    → (parts r c b ≡ throws x) ↔ (r ≡ err x)
parts_throws (err e) c b x n = ((λ h. cc), (λ h. cc))
parts_throws (ok false) c b x n = ((λ h. cc), (λ h. cc))
parts_throws (ok true) reject b x n = ((λ h. cc), (λ h. cc))
parts_throws (ok true) (throws e) b x n = ((λ h. absurd (n h)), (λ h. cc))
parts_throws (ok true) (pass u) true x n = ((λ h. cc), (λ h. cc))
parts_throws (ok true) (pass u) false x n = ((λ h. cc), (λ h. cc))

or_reject-ne-throws : {A : Type 0} (o : Option A) (x : Error) → or_reject o ≢ throws x
or_reject-ne-throws none x e = cc
or_reject-ne-throws (some a) x e = cc

module _ (ssl : OpenSsl) (params : Params) where
  abbrev settle : ℕ → ℕ → List OutPoint → ℕ → Check (List OutPoint × ℕ)
  settle out fees seen total_in = do
    require (not (ltb total_in out))
    next_fees ← or_reject (safe_add fees (total_in - out))
    require (money_range next_fees params)
    pass (seen, next_fees)

  settle-ne-throws :
      (out fees : ℕ) (s : List OutPoint) (t : ℕ) (x : Error) → settle out fees s t ≢ throws x
  unfolding safe_add money_range
  settle-ne-throws out fees s t x e = ground arith

  abbrev go_on : UtxoLookup → Transaction → ℕ → List OutPoint → ℕ → Check (List OutPoint × ℕ)
  go_on look tx out seen fees = do
    require (not (length tx.vin == 0 || length tx.vout == 0))
    (s, t) ← check_inputs ssl params look tx 0 seen 0 tx.vin
    settle out fees s t

  go_on-ne-throws :
      (look : UtxoLookup) (tx : Transaction) (out : ℕ) (seen : List OutPoint) (fees : ℕ) (x : Error)
      → go_on look tx out seen fees ≢ throws x
  go_on-ne-throws look tx out seen fees x =
      >>=-ne-throws (require (not (length tx.vin == 0 || length tx.vout == 0))) _ x
        (require-ne-throws _ x)
        λ _.
          >>=-ne-throws (check_inputs ssl params look tx 0 seen 0 tx.vin)
            (λ (s, t). settle out fees s t) x
            (check_inputs-ne-throws ssl params look tx 0 seen 0 tx.vin x refl)
            λ (s, t). settle-ne-throws out fees s t x

  check_spend-ne-throws :
      (lookup : Option UtxoLookup) (tx : Transaction) (out : ℕ) (seen : List OutPoint) (fees : ℕ)
      (x : Error)
      → check_spend ssl params lookup tx out seen fees ≢ throws x
  unfolding check_spend
  check_spend-ne-throws none tx out seen fees x =
      >>=-ne-throws (require (not (is_coinbase tx))) (λ _. reject) x (require-ne-throws _ x)
        λ _ e. cc
  check_spend-ne-throws (some look) tx out seen fees x =
      >>=-ne-throws (require (not (is_coinbase tx))) (λ _. go_on look tx out seen fees) x
        (require-ne-throws _ x) λ _. go_on-ne-throws look tx out seen fees x

  check_transactions-ne-throws :
      (lookup : Option UtxoLookup) (i : ℕ) (seen : List OutPoint) (fees : ℕ)
      (txs : List Transaction) (x : Error)
      → check_transactions ssl params lookup i seen fees txs ≢ throws x
  unfolding check_transactions
  check_transactions-ne-throws lookup i seen fees [] x = λ e. cc
  check_transactions-ne-throws lookup i seen fees (tx ∷ txs) x =
      >>=-ne-throws _ _ x (check_outputs-ne-throws params 0 tx.vout x) λ out.
        >>=-ne-throws _ _ x (step out (i == 0))
          λ (s, f). check_transactions-ne-throws lookup (i + 1) s f txs x
    where
      step :
          (out : ℕ) (b : Bool)
          → (if b then pass (seen, fees) else check_spend ssl params lookup tx out seen fees)
            ≢ throws x
      step out true = λ e. cc
      step out false = check_spend-ne-throws lookup tx out seen fees x

  limit-ne-throws :
      (subsidy fees out : ℕ) (x : Error) → limit_test ssl params subsidy fees out ≢ throws x
  unfolding safe_add
  limit-ne-throws subsidy fees out x e = ground arith

  guarded-ne-throws :
      (c : Bool) (k : Check (Unit {0})) (x : Error) → k ≢ throws x → (require c >> k) ≢ throws x
  guarded-ne-throws true k x h e = h e
  guarded-ne-throws false k x h e = cc

  -- `ValidateTransactions` never throws: a script is verified only for an input that is there.
  pub validate_transactions-ne-throws :
      (txs : List Transaction) (height : ℤ) (lookup : Option UtxoLookup) (x : Error)
      → validate_transactions ssl params txs height lookup ≢ throws x
  unfolding validate_transactions
  validate_transactions-ne-throws [] height lookup x = λ e. cc
  validate_transactions-ne-throws (coinbase ∷ txs) height lookup x =
      let sig = length (coinbase_sig coinbase.vin) in
      guarded-ne-throws (is_coinbase coinbase) _ x (
        guarded-ne-throws (not (length coinbase.vout == 0)) _ x (
          guarded-ne-throws (not (ltb sig 2 || ltb 100 sig)) _ x (
            >>=-ne-throws (check_outputs params 0 coinbase.vout) _ x
              (check_outputs-ne-throws params 0 coinbase.vout x)
              λ out.
                >>=-ne-throws (check_transactions ssl params lookup 0 [] 0 (coinbase ∷ txs))
                  (λ fees. limit_test ssl params (get_block_subsidy height params) fees out) x
                  (check_transactions-ne-throws lookup 0 [] 0 (coinbase ∷ txs) x)
                  λ fees. limit-ne-throws (get_block_subsidy height params) fees out x)))

  -- A block is accepted exactly when its header passes the proof-of-work test, its transactions are
  -- accepted, and the header names their merkle root.
  pub validate_block_iff :
      (block : Block) (height : ℤ) (lookup : Option UtxoLookup)
      → (validate_block ssl params block height lookup ≡ pass tt) ↔ (
          (check_proof_of_work (block_hash ssl block.header) block.header.bits params ≡ ok true)
          × (validate_transactions ssl params block.transactions height lookup ≡ pass tt)
          × (compute_merkle_root ssl block.transactions ≡ block.header.merkle_root))
  unfolding validate_block validate_block_header
  validate_block_iff block height lookup =
      let root = compute_merkle_root ssl block.transactions in
      let (there, back) =
        parts_pass (check_proof_of_work (block_hash ssl block.header) block.header.bits params)
          (validate_transactions ssl params block.transactions height lookup)
          (bytes_eq root block.header.merkle_root) in
      let (eq, same) = bytes_eq_iff root block.header.merkle_root in
      ((λ h. let (p, q, r) = there h in (p, q, eq r)), (λ (p, q, r). back (p, q, same r)))

  -- A block makes `ValidateBlock` throw exactly when it makes the proof-of-work test throw.
  pub validate_block_throws :
      (block : Block) (height : ℤ) (lookup : Option UtxoLookup) (x : Error)
      → (validate_block ssl params block height lookup ≡ throws x)
        ↔ (check_proof_of_work (block_hash ssl block.header) block.header.bits params ≡ err x)
  unfolding validate_block validate_block_header
  validate_block_throws block height lookup x =
      parts_throws _ (validate_transactions ssl params block.transactions height lookup) _ x
        (validate_transactions-ne-throws block.transactions height lookup x)
