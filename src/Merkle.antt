-- ===== src/Merkle.antt =====
-- layer1-core/merkle/merkle.cpp.
pub mod Laws
pub mod Binding
mod Tests
use drachma_block_chain.Common.{
  ℕ, zero, suc, ◌/◌, ◌%◌, ◌+◌, List, [], ◌∷◌, ◌++◌, length, map, ltb, ◌==◌, not, replicate,
  if◌then◌else◌, codes,
}
use drachma_block_chain.Tx.{Transaction}
use drachma_block_chain.Crypto.{OpenSsl, tagged_hash}
use drachma_block_chain.Block.{transaction_hash}

-- `layer.push_back(layer.back())`, for a layer that is not empty.
unfoldable pub push_last : List (List ℕ) → List (List ℕ)
push_last [] = []
push_last (x ∷ []) = x ∷ x ∷ []
push_last (x ∷ y ∷ xs) = x ∷ push_last (y ∷ xs)

-- `layer.front()`
abbrev pub front : List (List ℕ) → List ℕ
front [] = []
front (x ∷ xs) = x

module _ (ssl : OpenSsl) where
  unfoldable pub hash_pair : List ℕ → List ℕ → List ℕ
  hash_pair a b = tagged_hash ssl (codes "MERKLE") (a ++ b)

  -- The loop over pairs, on a layer of even length.
  unfoldable pub pair_layer : List (List ℕ) → List (List ℕ)
  pair_layer (a ∷ b ∷ rest) = hash_pair a b ∷ pair_layer rest
  pair_layer (a ∷ []) = []
  pair_layer [] = []

  -- One round of the `while` loop.
  unfoldable pub next_layer : List (List ℕ) → List (List ℕ)
  next_layer layer = pair_layer (if not (length layer % 2 == 0) then push_last layer else layer)

  -- The `while` loop, on fuel.
  unfoldable pub reduce : ℕ → List (List ℕ) → List (List ℕ)
  reduce zero layer = layer
  reduce (suc fuel) layer =
      let rest = reduce fuel (next_layer layer) in if ltb 1 (length layer) then rest else layer

  -- Every round with two hashes or more leaves fewer, so as many rounds as there are hashes suffice.
  unfoldable pub root_of : List (List ℕ) → List ℕ
  root_of layer = front (reduce (length layer) layer)

  -- `ComputeMerkleRoot`
  unfoldable pub compute_merkle_root : List Transaction → List ℕ
  compute_merkle_root [] = replicate 32 0
  compute_merkle_root (tx ∷ txs) = root_of (map (transaction_hash ssl) (tx ∷ txs))
