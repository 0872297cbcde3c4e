-- ===== src/Gpu/Nonce.antt =====
-- The nonce in miners/gpu-cuda/kernel.cu.
use drachma_block_chain.Common.{ℕ, ◌*◌, ◌^◌, List, ◌∷◌, ◌++◌, take, bit_or, Bool, true, false, leb}
use drachma_block_chain.Gpu.{kernel_hash, Words, nonce_bytes, Shared, words_list, word_at}

-- A word from its four bytes.
abbrev joined : ℕ → ℕ → ℕ → ℕ → ℕ
joined p q r s = bit_or (bit_or (bit_or (p * 2 ^ 24) (q * 2 ^ 16)) (r * 2 ^ 8)) s

-- The hash of a thread, whatever its nonce is.
abbrev pub common_hash : List ℕ → Words
common_hash header76 = kernel_hash (take 76 header76 ++ nonce_bytes 0)

-- Whether a hash passes for a target, as the kernel tests it.
abbrev pub passes : List ℕ → List ℕ → Bool
passes header76 target = leb (common_hash header76).h (word_at target 7)

-- The flag and a solution with a nonce, and a flag that is not set.
abbrev pub answer : List ℕ → ℕ → Shared
answer header76 nonce = record {
  found = true;
  solution = nonce ∷ words_list (common_hash header76);
}

abbrev pub open_flag : List ℕ → Shared
open_flag solution = record { found = false; solution = solution }
