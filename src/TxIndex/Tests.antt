-- ===== src/TxIndex/Tests.antt =====
-- Runs of layer2-services/index/txindex.cpp, and its theorem at a concrete index.
use drachma_block_chain.Common.{◌≡◌, refl, [], ◌∷◌, replicate, true, bytes_eq}
use drachma_block_chain.Common.Maps.{find, assign}
use drachma_block_chain.TxIndex.{Index, add, lookup, height_found}

abbrev one_entry : Index
one_entry = (replicate 32 3, 70000) ∷ []

looked_up : lookup (add (replicate 32 3) 5 one_entry) (replicate 32 3) 0 ≡ (true, 5)
unfolding lookup height_found add find assign bytes_eq
looked_up = refl
