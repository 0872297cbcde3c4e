-- ===== src/Gpu/Tests.antt =====
-- Runs of miners/gpu-cuda/kernel.cu: its round function on the block of the text `abc`.
use drachma_block_chain.Common.{ℕ, Bool, true, false, List, [], ◌∷◌, ◌++◌, replicate, ◌≡◌, refl}
use drachma_block_chain.Gpu.{
  rotr, ch, maj, big0, big1, sm0, sm1, sha_round, sha_rounds, sha256_round, word_at, extend,
  initial_state, words_list,
}

abc_digest :
    words_list (sha256_round initial_state (extend 48 (0x61626380 ∷ replicate 14 0 ++ 24 ∷ [])))
    ≡ 0xba7816bf ∷ 0x8f01cfea ∷ 0x414140de ∷ 0x5dae2223 ∷ 0xb00361a3 ∷ 0x96177a9c ∷ 0xb410ff61
      ∷ 0xf20015ad ∷ []
unfolding rotr ch maj big0 big1 sm0 sm1 sha_round sha_rounds sha256_round word_at extend
abc_digest = refl

-- A thread whose hash passes, and its theorem: a target whose last word is the greatest.
abbrev easy_target : List ℕ
easy_target = replicate 8 0xffffffff

abbrev sample_threads : List (ℕ × Bool)
sample_threads = (5, false) ∷ (0, true) ∷ []
