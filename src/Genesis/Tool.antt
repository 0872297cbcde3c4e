-- ===== src/Genesis/Tool.antt =====
-- testnet/genesis.cpp: the program that prints the genesis block of the test network.
use drachma_block_chain.Common.{ℕ, List, [], ◌∷◌, ◌++◌, ◌/◌, ◌%◌, Result, ok, ◌>>=◌, codes}
use drachma_block_chain.Common.Digits.{digit_char, decimal, hexadecimal}
use drachma_block_chain.Crypto.{OpenSsl}
use drachma_block_chain.Consensus.Params.{Params, test_params}
use drachma_block_chain.Block.{Block, block_hash}
use drachma_block_chain.Genesis.{create_genesis_block}

-- `PrintUint256`: two digits for each byte.
unfoldable pub print_uint256 : List ℕ → List ℕ
print_uint256 [] = []
print_uint256 (b ∷ bs) = digit_char (b / 16) ∷ digit_char (b % 16) ∷ print_uint256 bs

module _ (shift_negative : ℕ → ℕ → Result ℕ) (ssl : OpenSsl) where
  -- What is printed for a block.
  unfoldable pub print_genesis : Params → Block → List ℕ
  print_genesis params genesis =
      codes "Genesis time: "
      ++ (decimal params.genesis_time
          ++ (codes "\nGenesis bits: 0x"
              ++ (hexadecimal params.genesis_bits
                  ++ (codes "\nGenesis nonce: "
                      ++ (decimal genesis.header.nonce
                          ++ (codes "\nMerkle root: 0x"
                              ++ (print_uint256 genesis.header.merkle_root
                                  ++ (codes "\nBlock hash: 0x"
                                      ++ (print_uint256 (block_hash ssl genesis.header)
                                          ++ codes "\n")))))))))

  -- `main`
  unfoldable pub print_testnet : Result (List ℕ)
  print_testnet = do
    genesis ← create_genesis_block shift_negative ssl test_params
    ok (print_genesis test_params genesis)
