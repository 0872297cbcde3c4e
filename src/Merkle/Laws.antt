-- ===== src/Merkle/Laws.antt =====
-- The merkle root of layer1-core/merkle/merkle.cpp.
use drachma_block_chain.Common.{
  ℕ, zero, suc, ◌+◌, ◌/◌, ◌%◌, ◌≤◌, ◌<◌, ◌≡◌, refl, sym, ap, ◌∙◌, arith, List, [], ◌∷◌, ◌++◌,
  length, map, length-map, ◌==◌, ltb, ltb→lt, ltb→le, lt→ltb, le→ltb, ◌^◌, length-append,
  Bool-cases, inl, inr,
}
use mathlib.Core.Path.{ap₂}
use mathlib.Core.List.{map-append}
use native.Mathlib.Nat.{pow-suc}
use drachma_block_chain.Common.Bits.{pow-pos}
use drachma_block_chain.Tx.{Transaction}
use drachma_block_chain.Crypto.{OpenSsl}
use drachma_block_chain.Block.{transaction_hash}
use drachma_block_chain.Merkle.{
  push_last, hash_pair, pair_layer, next_layer, reduce, front, root_of, compute_merkle_root,
}

pub length-push_last : (xs : List (List ℕ)) → 0 < length xs → length (push_last xs) ≡ length xs + 1
unfolding push_last
length-push_last [] h = absurd (omega arith)
length-push_last (x ∷ []) h = omega arith
length-push_last (x ∷ y ∷ xs) h = omega (arith, length-push_last (y ∷ xs) (omega arith))

module _ (ssl : OpenSsl) where
  pub length-pair_layer : (xs : List (List ℕ)) → length (pair_layer ssl xs) ≡ length xs / 2
  unfolding pair_layer
  length-pair_layer [] = omega arith
  length-pair_layer (a ∷ []) = omega arith
  length-pair_layer (a ∷ b ∷ rest) = omega (arith, length-pair_layer rest)

  -- Half of the hashes are left, rounded up.
  pub length-next_layer :
      (xs : List (List ℕ)) → 0 < length xs → length (next_layer ssl xs) ≡ (length xs + 1) / 2
  unfolding next_layer
  length-next_layer xs h = elim (Bool-cases (length xs % 2 == 0)) [
    | inl even ↦ rw even (length-pair_layer xs ∙ ground (arith, even))
    | inr odd ↦
        rw odd (length-pair_layer (push_last xs) ∙ ground (arith, odd, length-push_last xs h))
  ]

  reduce-one :
      (fuel : ℕ) (xs : List (List ℕ))
      → 0 < length xs
      → length xs ≤ suc fuel
      → length (reduce ssl fuel xs) ≡ 1
  unfolding reduce
  reduce-one zero xs h k = omega arith
  reduce-one (suc fuel) xs h k = elim (Bool-cases (ltb 1 (length xs))) [
    | inl more ↦
        let n = length-next_layer xs h in
        let p = ltb→lt 1 (length xs) more in
        rw more (reduce-one fuel (next_layer ssl xs) (omega (arith, n)) (omega (arith, n)))
    | inr done ↦ rw done (ground arith)
  ]

  -- The loop ends: from any number of hashes one is left.
  pub reduce_ends : (xs : List (List ℕ)) → 0 < length xs → length (reduce ssl (length xs) xs) ≡ 1
  reduce_ends xs h = reduce-one (length xs) xs h (omega arith)

  reduce_step :
      (fuel : ℕ) (xs : List (List ℕ))
      → 1 < length xs
      → reduce ssl (suc fuel) xs ≡ reduce ssl fuel (next_layer ssl xs)
  unfolding reduce
  reduce_step fuel xs h = rw (lt→ltb 1 (length xs) h)

  reduce_stop : (fuel : ℕ) (xs : List (List ℕ)) → length xs ≤ 1 → reduce ssl fuel xs ≡ xs
  unfolding reduce
  reduce_stop zero xs h = refl
  reduce_stop (suc fuel) xs h = rw (le→ltb 1 (length xs) h)

  -- More fuel than there are hashes changes nothing.
  reduce_fuel :
      (f g : ℕ) (xs : List (List ℕ))
      → 0 < length xs
      → length xs ≤ suc f
      → length xs ≤ suc g
      → reduce ssl f xs ≡ reduce ssl g xs
  reduce_fuel zero g xs h p q = sym (reduce_stop g xs p ∙ sym (reduce_stop zero xs p))
  reduce_fuel (suc f) zero xs h p q = reduce_stop (suc f) xs q ∙ sym (reduce_stop zero xs q)
  reduce_fuel (suc f) (suc g) xs h p q = elim (Bool-cases (ltb 1 (length xs))) [
    | inl more ↦
        let m = ltb→lt 1 (length xs) more in
        let n = length-next_layer xs h in
        reduce_step f xs m
        ∙ reduce_fuel f g (next_layer ssl xs) (omega (arith, n)) (omega (arith, n))
            (omega (arith, n))
        ∙ sym (reduce_step g xs m)
    | inr done ↦
        let m = ltb→le 1 (length xs) done in
        reduce_stop (suc f) xs m ∙ sym (reduce_stop (suc g) xs m)
  ]

  -- A layer of two hashes or more has the root of the next layer.
  pub root-next :
      (xs : List (List ℕ)) → 1 < length xs → root_of ssl xs ≡ root_of ssl (next_layer ssl xs)
  unfolding root_of
  root-next xs h =
      let n = length-next_layer xs (omega arith) in
      ap front (
        reduce_fuel (length xs) (suc (length xs)) xs (omega arith) (omega arith) (omega arith)
        ∙ reduce_step (length xs) xs h
        ∙ reduce_fuel (length xs) (length (next_layer ssl xs)) (next_layer ssl xs)
            (omega (arith, n)) (omega (arith, n)) (omega (arith, n)))

  pair_layer-append :
      (xs ys : List (List ℕ))
      → length xs % 2 ≡ 0
      → pair_layer ssl (xs ++ ys) ≡ pair_layer ssl xs ++ pair_layer ssl ys
  unfolding pair_layer
  pair_layer-append [] ys h = refl
  pair_layer-append (a ∷ []) ys h = absurd (omega arith)
  pair_layer-append (a ∷ b ∷ xs) ys h =
      ap (λ t. hash_pair ssl a b ∷ t) (pair_layer-append xs ys (omega arith))

  pub next_layer_even :
      (xs : List (List ℕ)) → length xs % 2 ≡ 0 → next_layer ssl xs ≡ pair_layer ssl xs
  unfolding next_layer
  next_layer_even xs h = rw h

  pub next_layer_odd :
      (xs : List (List ℕ)) → length xs % 2 ≡ 1 → next_layer ssl xs ≡ pair_layer ssl (push_last xs)
  unfolding next_layer
  next_layer_odd xs h = rw h

  -- On layers whose size is a power of two the root is that of a tree: the two halves are reduced on
  -- their own, and the two roots are hashed together, left before right.
  pub root_of-append :
      (k : ℕ) (xs ys : List (List ℕ))
      → length xs ≡ 2 ^ k
      → length ys ≡ 2 ^ k
      → root_of ssl (xs ++ ys) ≡ hash_pair ssl (root_of ssl xs) (root_of ssl ys)
  root_of-append zero (a ∷ []) (b ∷ []) h g = unfold root_of reduce next_layer pair_layer in refl
  root_of-append zero [] ys h g = absurd (omega arith)
  root_of-append zero (a ∷ b ∷ xs) ys h g = absurd (omega arith)
  root_of-append zero (a ∷ []) [] h g = absurd (omega arith)
  root_of-append zero (a ∷ []) (b ∷ c ∷ ys) h g = absurd (omega arith)
  root_of-append (suc k) xs ys h g =
      let p = pow-suc 2 k in
      let q = pow-pos k in
      let n = length-append xs ys in
      root-next (xs ++ ys) (omega arith)
      ∙ ap (root_of ssl)
          (next_layer_even (xs ++ ys) (omega arith) ∙ pair_layer-append xs ys (omega arith))
      ∙ root_of-append k (pair_layer ssl xs) (pair_layer ssl ys)
          (length-pair_layer xs ∙ omega arith) (length-pair_layer ys ∙ omega arith)
      ∙ ap₂ (hash_pair ssl) (sym (halved k xs h)) (sym (halved k ys g))
    where
      halved :
          (k : ℕ) (xs : List (List ℕ))
          → length xs ≡ 2 ^ suc k
          → root_of ssl xs ≡ root_of ssl (pair_layer ssl xs)
      halved k xs h =
          let p = pow-suc 2 k in
          let q = pow-pos k in
          root-next xs (omega arith) ∙ ap (root_of ssl) (next_layer_even xs (omega arith))

  push_last-append : (xs : List (List ℕ)) (x : List ℕ) → push_last (xs ++ x ∷ []) ≡ xs ++ x ∷ x ∷ []
  unfolding push_last
  push_last-append [] x = refl
  push_last-append (y ∷ []) x = refl
  push_last-append (y ∷ z ∷ xs) x = ap (λ t. y ∷ t) (push_last-append (z ∷ xs) x)

  root-push_last :
      (xs : List (List ℕ))
      → 1 < length xs
      → length xs % 2 ≡ 1
      → root_of ssl (push_last xs) ≡ root_of ssl xs
  root-push_last xs h odd =
      let n = length-push_last xs (omega arith) in
      root-next (push_last xs) (omega (arith, n))
      ∙ ap (root_of ssl)
          (next_layer_even (push_last xs) (omega (arith, n)) ∙ sym (next_layer_odd xs odd))
      ∙ sym (root-next xs h)

-- The root does not tell a list of an odd number of transactions, three or more, from the list in
-- which the last one stands twice.
pub merkle_root_of_repeated_last :
    (ssl : OpenSsl) (txs : List Transaction) (tx : Transaction)
    → 0 < length txs
    → length txs % 2 ≡ 0
    → compute_merkle_root ssl (txs ++ tx ∷ tx ∷ []) ≡ compute_merkle_root ssl (txs ++ tx ∷ [])
merkle_root_of_repeated_last ssl [] tx h even = absurd (omega arith)
merkle_root_of_repeated_last ssl (t ∷ txs) tx h even =
    let hash = transaction_hash ssl in
    let xs = map hash (t ∷ txs) in
    let n = length-map hash (t ∷ txs) in
    unfold compute_merkle_root in
    (ap (λ ys. root_of ssl (hash t ∷ ys)) (map-append hash txs (tx ∷ tx ∷ []))
      ∙ ap (root_of ssl) (sym (push_last-append ssl xs (hash tx)))
      ∙ root-push_last ssl (xs ++ hash tx ∷ []) (omega (arith, n, length-append xs (hash tx ∷ [])))
          (omega (arith, n, length-append xs (hash tx ∷ [])))
      ∙ ap (λ ys. root_of ssl (hash t ∷ ys)) (sym (map-append hash txs (tx ∷ []))))
