-- ===== src/Crosschain/Tests.antt =====
-- The theorems of layer2-services/crosschain at a concrete bridge and proof.
use drachma_block_chain.Common.{ℕ, ◌≡◌, ◌≢◌, ◌↔◌, [], ◌∷◌, replicate, true, All}
use drachma_block_chain.Common.Maps.{find, bytes_key}
use drachma_block_chain.Crypto.Sample.{sample_ssl}
use drachma_block_chain.Crosschain.{HeaderProof, Bridge, validate_chain, verify_and_store}
use drachma_block_chain.Crosschain.Laws.{IsTip, validate_chain_iff, verify_and_store_keeps_tips}

abbrev proof_of : ℕ → HeaderProof
proof_of b = record { header = replicate 80 b; height = 1 }

abbrev one_chain : Bridge
one_chain = record { chain_tips = (1 ∷ [], replicate 32 7) ∷ []; messages = [] }

validate_chain_iff_example :
    (validate_chain sample_ssl (proof_of 7 ∷ proof_of 7 ∷ []) (replicate 32 7) ≡ true) ↔ (
      ((proof_of 7 ∷ proof_of 7 ∷ []) ≢ [])
      × All (IsTip sample_ssl (replicate 32 7)) (proof_of 7 ∷ proof_of 7 ∷ []))
validate_chain_iff_example =
    validate_chain_iff sample_ssl (proof_of 7 ∷ proof_of 7 ∷ []) (replicate 32 7)

verify_and_store_keeps_tips_example :
    find bytes_key
      (1 ∷ [])
      (verify_and_store sample_ssl one_chain (1 ∷ []) (proof_of 7 ∷ [])).1.chain_tips
    ≡ find bytes_key (1 ∷ []) one_chain.chain_tips
verify_and_store_keeps_tips_example =
    verify_and_store_keeps_tips sample_ssl one_chain (1 ∷ []) (proof_of 7 ∷ []) (1 ∷ [])
