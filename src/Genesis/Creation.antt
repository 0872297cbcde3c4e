-- ===== src/Genesis/Creation.antt =====
-- `CreateGenesisBlock` of layer1-core/consensus/genesis.cpp, and what layer1-core/validation makes of the
-- block.
use drachma_block_chain.Common.{
  ◌≢◌, replicate, ℕ, ◌/◌, ◌^◌, ◌≤◌, ◌<◌, ◌≡◌, refl, sym, ap, ◌∙◌, arith, List, [], ◌∷◌, All, Result,
  ok, err, ok-injective, Bool, true, false, ◌==◌, bad_genesis_nonce, ◌⊎◌, inl, inr, >>=-eq-ok,
  Bool-cases, ==_iff, Option,
}
use mathlib.Core.Path.{subst}
use drachma_block_chain.Common.Bytes.{IsByte}
use drachma_block_chain.Common.Int.{ℤ}
use drachma_block_chain.Crypto.{OpenSsl, tagged_hash, sha256}
use drachma_block_chain.Block.{Block, BlockHeader, block_hash}
use drachma_block_chain.Merkle.{compute_merkle_root}
use drachma_block_chain.Consensus.Params.{Params}
use drachma_block_chain.Pow.{compact_to_target}
use drachma_block_chain.Validation.{
  UtxoLookup, pass, reject, is_coinbase, is_null_input, validate_transactions, validate_block,
  validate_block_header,
}
use drachma_block_chain.Genesis.{
  check_genesis_work, genesis_header, genesis_coinbase, settle_nonce, create_genesis_block,
}
use drachma_block_chain.Genesis.Work.{genesis_work_agrees}
use drachma_block_chain.Genesis.Mining.{at_nonce, Says, mined}

module _ (shift_negative : ℕ → ℕ → Result ℕ) (ssl : OpenSsl) where
  -- How the nonce is settled: the declared one passes, or it is 0 and one is found that passes.
  settled :
      (params : Params) (good : Bool) (header : BlockHeader)
      → 3 ≤ params.genesis_bits / 2 ^ 24
      → check_genesis_work shift_negative ssl (genesis_header shift_negative ssl params) ≡ ok good
      → settle_nonce shift_negative ssl params good ≡ ok header
      → (n : ℕ) × (header ≡ at_nonce (genesis_header shift_negative ssl params) n)
        × Says shift_negative ssl (genesis_header shift_negative ssl params) true n
        × ((params.genesis_nonce ≡ n) ⊎ (params.genesis_nonce ≡ 0))
  unfolding settle_nonce genesis_header
  settled params true header h e back = (params.genesis_nonce, sym (ok-injective back), e, inl refl)
  settled params false header h e back = elim (Bool-cases (params.genesis_nonce == 0)) [
    | inl unset ↦
        let (n, same, good) =
          mined shift_negative ssl (genesis_header shift_negative ssl params) header h
            (rw unset at back) in
        (n, same, good, inr ((==_iff params.genesis_nonce 0).0 unset))
    | inr set ↦ absurd (err-ne-ok (rw set at back))
  ]
    where
      err-ne-ok : ◌≢◌ {A = Result BlockHeader} (err bad_genesis_nonce) (ok header)
      err-ne-ok same = cc

  -- A block of the declared contents: the coinbase of the parameters alone, and a header with no previous
  -- block, the merkle root of the transactions and a nonce that passes the test of the file.
  abbrev pub IsGenesis : Params → Block → Type 0
  IsGenesis params block =
      (block.transactions ≡ genesis_coinbase params ∷ [])
      × (n : ℕ) × (block.header ≡ record {
        version = 1;
        prev_block_hash = replicate 32 0;
        merkle_root = compute_merkle_root ssl block.transactions;
        time = params.genesis_time;
        bits = params.genesis_bits;
        nonce = n;
      })
      × (check_genesis_work shift_negative ssl block.header ≡ ok true)
      × ((params.genesis_nonce ≡ n) ⊎ (params.genesis_nonce ≡ 0))

  -- A block that CreateGenesisBlock returns for bits with an exponent of at least 3: it holds the coinbase
  -- of the parameters alone, its header has version 1, the declared time and bits, no previous block and
  -- the merkle root of its transactions, and it passes the file's proof-of-work test with the declared
  -- nonce, or with another one where the declared nonce is 0.
  pub create_genesis_block-IsGenesis :
      (params : Params) (block : Block)
      → 3 ≤ params.genesis_bits / 2 ^ 24
      → create_genesis_block shift_negative ssl params ≡ ok block
      → IsGenesis params block
  unfolding create_genesis_block
  create_genesis_block-IsGenesis params block h e =
      let (good, tested, e₁) =
        >>=-eq-ok (check_genesis_work shift_negative ssl (genesis_header shift_negative ssl params))
          _ e in
      let (header, nonce_set, e₂) = >>=-eq-ok (settle_nonce shift_negative ssl params good) _ e₁ in
      subst (IsGenesis params) (ok-injective e₂)
        (made header (settled params good header h tested nonce_set))
    where
      made :
          (header : BlockHeader)
          → (n : ℕ) × (header ≡ at_nonce (genesis_header shift_negative ssl params) n)
            × Says shift_negative ssl (genesis_header shift_negative ssl params) true n
            × ((params.genesis_nonce ≡ n) ⊎ (params.genesis_nonce ≡ 0))
          → IsGenesis params
              (record { header = header; transactions = genesis_coinbase params ∷ [] })
      made header (n, same, works, origin) =
          unfold genesis_header in (refl, n, same, rw same works, origin)

  hash_bytes :
      (header : BlockHeader)
      → ((bytes : List ℕ) → All IsByte (ssl.sha256_final (ssl.sha256_update ssl.sha256_init bytes)))
      → All IsByte (block_hash ssl header)
  unfolding block_hash tagged_hash sha256
  hash_bytes header bytes = bytes _

  coinbase_refused :
      (params rules : Params) (height : ℤ) (lookup : Option UtxoLookup)
      → validate_transactions ssl rules (genesis_coinbase params ∷ []) height lookup ≡ reject
  unfolding validate_transactions is_coinbase is_null_input genesis_coinbase
  coinbase_refused params rules height lookup = refl

  -- A genesis block is refused: with an exponent of at least 3, a target of at most 32 bytes and hashes
  -- made of bytes, its header passes ValidateBlockHeader, but ValidateBlock returns false for it at every
  -- height and with every provider of outputs, since its coinbase has no input.
  pub genesis_block_refused :
      (params : Params) (block : Block) (target : ℕ)
      → 3 ≤ params.genesis_bits / 2 ^ 24
      → compact_to_target params.genesis_bits ≡ ok target
      → target < 2 ^ 256
      → ((bytes : List ℕ) → All IsByte (ssl.sha256_final (ssl.sha256_update ssl.sha256_init bytes)))
      → create_genesis_block shift_negative ssl params ≡ ok block
      → (validate_block_header ssl block.header params ≡ pass tt)
        × ((height : ℤ) (lookup : Option UtxoLookup)
            → validate_block ssl params block height lookup ≡ reject)
  unfolding validate_block_header validate_block
  genesis_block_refused params block target h target_ok small bytes e =
      let (txs, n, header, works, origin) = create_genesis_block-IsGenesis params block h e in
      let same_bits : block.header.bits ≡ params.genesis_bits =
        ap (λ (made : BlockHeader). made.bits) header in
      let agrees =
        genesis_work_agrees shift_negative ssl block.header params target target (rw same_bits h)
          (rw same_bits target_ok) target_ok (omega arith) small (hash_bytes block.header bytes) in
      let passes = sym agrees ∙ works in
      (
        rw passes,
        (λ height lookup. rw (passes, txs) (rw (coinbase_refused params params height lookup))),
      )
