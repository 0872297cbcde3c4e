-- ===== src/TxIndex.antt =====
-- layer2-services/index/txindex.cpp: the heights of transactions, and the file that they are kept in.
pub mod RoundTrip
mod Tests
use drachma_block_chain.Common.{
  ℕ, zero, suc, ◌+◌, List, [], ◌∷◌, ◌++◌, length, Bool, true, false, ◌==◌, Option, none, some,
  if◌then◌else◌,
}
use drachma_block_chain.Common.Bytes.{le_bytes}
use drachma_block_chain.Common.Maps.{Map, bytes_key, find, assign, emplace}
use drachma_block_chain.Common.Streams.{Stream, open_bytes, read_bytes, read_number}

abbrev pub Index : Type 0
Index = Map (List ℕ) ℕ

-- `Add`
unfoldable pub add : List ℕ → ℕ → Index → Index
add hash height index = assign bytes_key hash height index

-- `Lookup`: the answer, and what `heightOut` holds after it.
unfoldable pub height_found : Option ℕ → ℕ → Bool × ℕ
height_found none height_out = (false, height_out)
height_found (some height) height_out = (true, height)

unfoldable pub lookup : Index → List ℕ → ℕ → Bool × ℕ
lookup index hash height_out = height_found (find bytes_key hash index) height_out

-- `Save`: what the file holds after it.
unfoldable pub save : Index → List ℕ
save [] = []
save ((hash, height) ∷ rest) = hash ++ (le_bytes 4 height ++ save rest)

-- The loop of `Load`, with rounds enough for the bytes that are left: each round but the last takes 36.
unfoldable pub load_loop : ℕ → Stream → Index → Index
load_loop zero in_file index = index
load_loop (suc fuel) in_file index =
    let (hash, s₁) = read_bytes 32 in_file in
    let (height, s₂) = read_number 4 s₁ in
    let next = load_loop fuel s₂ (emplace bytes_key hash height index) in
    if length in_file.rest == 0
    then index
    else if s₁.good
    then (if s₂.good then next else index)
    else index

-- `Load`, from the file that can be opened, or not.
unfoldable pub load_index : Option (List ℕ) → Index → Index
load_index none index = index
load_index (some bytes) index = load_loop (length bytes + 1) (open_bytes bytes) []
