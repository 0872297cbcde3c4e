-- ===== src/Validation/Repeats.antt =====
-- Repeated transactions in a block, which `ValidateTransactions` of layer1-core/validation/validation.cpp
-- refuses although `ComputeMerkleRoot` does not see them.
use drachma_block_chain.Common.{
  ℕ, zero, suc, ◌+◌, ◌%◌, ◌^◌, ◌<◌, ◌≡◌, ◌≢◌, refl, sym, ap, ◌∙◌, arith, List, [], ◌∷◌, ◌++◌,
  length, All, All-map, get_elem?, Option, some,
}
use mathlib.Core.Path.{subst}
use mathlib.Core.Option.{some-injective}
use drachma_block_chain.Common.Int.{ℤ}
use drachma_block_chain.Tx.{OutPoint, TxIn, Transaction}
use drachma_block_chain.Crypto.{OpenSsl}
use drachma_block_chain.Consensus.Params.{Params}
use drachma_block_chain.Merkle.{compute_merkle_root}
use drachma_block_chain.Merkle.Laws.{merkle_root_of_repeated_last}
use drachma_block_chain.Validation.{pass, UtxoLookup, validate_transactions}
use drachma_block_chain.Validation.Inputs.{Fresh, push_all, prevouts}
use drachma_block_chain.Validation.Fresh.{Fresh-distinct}
use drachma_block_chain.Validation.Transactions.{spent_outpoints}
use drachma_block_chain.Validation.Safety.{accepted}

get_elem?-append :
    {A : Type 0} (xs ys : List A) (n : ℕ) → get_elem? (xs ++ ys) (length xs + n) ≡ get_elem? ys n
get_elem?-append [] ys n = ap (get_elem? ys) (omega arith)
get_elem?-append (x ∷ xs) ys n =
    ap (λ (k : ℕ). get_elem? (x ∷ (xs ++ ys)) k) (carry (length xs) n) ∙ get_elem?-append xs ys n
  where
    carry : (a b : ℕ) → suc a + b ≡ suc (a + b)
    carry a b = omega arith

get_elem?-front :
    {A : Type 0} (xs ys : List A) (n : ℕ) (a : A)
    → get_elem? xs n ≡ some a
    → get_elem? (xs ++ ys) n ≡ some a
get_elem?-front [] ys n a e = absurd (cc)
get_elem?-front (x ∷ xs) ys zero a e = e
get_elem?-front (x ∷ xs) ys (suc n) a e = get_elem?-front xs ys n a e

get_elem?-bound :
    {A : Type 0} (xs : List A) (n : ℕ) (a : A) → get_elem? xs n ≡ some a → n < length xs
get_elem?-bound [] n a e = absurd (cc)
get_elem?-bound (x ∷ xs) zero a e = omega arith
get_elem?-bound (x ∷ xs) (suc n) a e = omega (arith, get_elem?-bound xs n a e)

-- The outpoints of a transaction stand among those that are spent.
spent_at :
    (txs : List Transaction) (j : ℕ) (tx : Transaction) (n : ℕ) (p : OutPoint)
    → get_elem? txs j ≡ some tx
    → get_elem? (prevouts tx.vin) n ≡ some p
    → (k : ℕ) × (get_elem? (spent_outpoints txs) k ≡ some p)
unfolding spent_outpoints
spent_at [] j tx n p e v = absurd (cc)
spent_at (t ∷ txs) zero tx n p e v = (
  n,
  get_elem?-front (prevouts t.vin) (spent_outpoints txs) n p
      (subst (λ s. get_elem? (prevouts s.vin) n ≡ some p) (sym (some-injective t tx e)) v),
)
spent_at (t ∷ txs) (suc j) tx n p e v =
    let (k, h) = spent_at txs j tx n p e v in
    (length (prevouts t.vin) + k, get_elem?-append (prevouts t.vin) (spent_outpoints txs) k ∙ h)

Fresh-tail : (seen ps qs : List OutPoint) → Fresh seen (ps ++ qs) → Fresh (push_all seen ps) qs
Fresh-tail seen [] qs f = f
Fresh-tail seen (p ∷ ps) qs f = Fresh-tail (p ∷ seen) ps qs f.1

-- The first transaction does not come back: its first outpoint would.
first_comes_back :
    (seen : List OutPoint) (tx : Transaction) (txs : List Transaction) (j : ℕ) (p : OutPoint)
    → Fresh seen (spent_outpoints (tx ∷ txs))
    → get_elem? txs j ≡ some tx
    → get_elem? (prevouts tx.vin) 0 ≡ some p
    → ⊥
unfolding spent_outpoints
first_comes_back seen tx txs j p f e v =
    let (k, h) = spent_at txs j tx 0 p e v in
    let same : 0 ≡ length (prevouts tx.vin) + k =
      Fresh-distinct seen (spent_outpoints (tx ∷ txs)) 0 (length (prevouts tx.vin) + k) p f
        (get_elem?-front (prevouts tx.vin) (spent_outpoints txs) 0 p v)
        (get_elem?-append (prevouts tx.vin) (spent_outpoints txs) k ∙ h) in
    omega (arith, same, get_elem?-bound (prevouts tx.vin) 0 p v)

has_first : (is : List TxIn) → is ≢ [] → (p : OutPoint) × (get_elem? (prevouts is) 0 ≡ some p)
has_first [] n = absurd (n refl)
has_first (i ∷ is) n = (i.prevout, refl)

distinct :
    (seen : List OutPoint) (txs : List Transaction) (i j : ℕ) (tx : Transaction)
    → All (λ t. t.vin ≢ []) txs
    → Fresh seen (spent_outpoints txs)
    → get_elem? txs i ≡ some tx
    → get_elem? txs j ≡ some tx
    → i ≡ j
unfolding spent_outpoints
distinct seen [] i j tx a f e g = absurd (cc)
distinct seen (t ∷ txs) zero zero tx a f e g = refl
distinct seen (t ∷ txs) zero (suc j) tx a f e g =
    let (p, h) = has_first t.vin a.0 in absurd (first_comes_back seen t txs j p f (g ∙ sym e) h)
distinct seen (t ∷ txs) (suc i) zero tx a f e g =
    let (p, h) = has_first t.vin a.0 in absurd (first_comes_back seen t txs i p f (e ∙ sym g) h)
distinct seen (t ∷ txs) (suc i) (suc j) tx a f e g = ap suc (
    distinct (push_all seen (prevouts t.vin)) txs i j tx a.1
      (Fresh-tail seen (prevouts t.vin) (spent_outpoints txs) f) e g)

-- In an accepted block no transaction stands twice.
pub accepted_no_repeat :
    (ssl : OpenSsl) (params : Params)
    → params.max_money_out < 2 ^ 64
    → (coinbase : Transaction) (txs : List Transaction) (height : ℤ) (lookup : Option UtxoLookup)
    → validate_transactions ssl params (coinbase ∷ txs) height lookup ≡ pass tt
    → (i j : ℕ) (tx : Transaction) → get_elem? txs i ≡ some tx
    → get_elem? txs j ≡ some tx
    → i ≡ j
accepted_no_repeat ssl params small coinbase txs height lookup valid i j tx e g =
    let a = accepted ssl params small coinbase txs height lookup valid in
    distinct [] txs i j tx (All-map (λ t s. s.has_inputs) txs a.spends) a.fresh e g

-- A block of an odd number of transactions, three or more with the coinbase (so `txs` has an odd length),
-- has the merkle root of the block in which its last transaction is repeated; the block with the repetition
-- is not accepted.
pub repeated_last_refused :
    (ssl : OpenSsl) (params : Params)
    → params.max_money_out < 2 ^ 64
    → (coinbase : Transaction) (txs : List Transaction) (tx : Transaction) (height : ℤ)
      (lookup : Option UtxoLookup)
    → length txs % 2 ≡ 1
    → (compute_merkle_root ssl ((coinbase ∷ txs) ++ tx ∷ tx ∷ [])
        ≡ compute_merkle_root ssl ((coinbase ∷ txs) ++ tx ∷ []))
      × (validate_transactions ssl params ((coinbase ∷ txs) ++ tx ∷ tx ∷ []) height lookup
          ≢ pass tt)
repeated_last_refused ssl params small coinbase txs tx height lookup odd =
    let n = length txs in
    (
      merkle_root_of_repeated_last ssl (coinbase ∷ txs) tx (omega arith) (omega arith),
      λ valid.
          let same : n + 0 ≡ n + 1 =
            accepted_no_repeat ssl params small coinbase (txs ++ tx ∷ tx ∷ []) height lookup valid
              (n + 0) (n + 1) tx (get_elem?-append txs (tx ∷ tx ∷ []) 0)
              (get_elem?-append txs (tx ∷ tx ∷ []) 1) in
          omega (arith, same),
    )
