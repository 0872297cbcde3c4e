-- ===== src/Validation/Tests.antt =====
-- Runs of layer1-core/validation/validation.cpp, and its theorems at a concrete block: a coinbase that
-- takes the subsidy and a fee of 10, and a transaction that spends an output of value 100.
use drachma_block_chain.Common.{
  ℕ, ◌+◌, ◌≡◌, ◌≢◌, refl, arith, ◌↔◌, bytes_eq, List, [], ◌∷◌, replicate, Option, none, some, Error,
  err, ok, true, if◌then◌else◌,
}
use drachma_block_chain.Common.Int.{pos}
use drachma_block_chain.Tx.{OutPoint, TxIn, TxOut, Transaction}
use drachma_block_chain.Crypto.{verify_schnorr, load_pub_key, recovered, matches}
use drachma_block_chain.Crypto.Sample.{sample_ssl}
use drachma_block_chain.Block.{verify_script, verify_input}
use drachma_block_chain.Consensus.Params.{main_params, get_block_subsidy, money_range}
use drachma_block_chain.Validation.{
  throws, pass, reject, UtxoLookup, outpoint_eq, is_null_outpoint, all_zero, safe_add, is_coinbase,
  seen_before, coinbase_sig, check_outputs, check_inputs, check_spend, check_transactions,
  validate_transactions, validate_block,
}
use drachma_block_chain.Validation.Transactions.{callback}
use drachma_block_chain.Block.{Block, block_hash}
use drachma_block_chain.Pow.{check_proof_of_work}
use drachma_block_chain.Merkle.{compute_merkle_root}
use drachma_block_chain.Validation.Repeats.{repeated_last_refused}
use drachma_block_chain.Validation.Ledger.{IsValidBlock}
use drachma_block_chain.Validation.Equivalence.{validate_transactions_iff}
use drachma_block_chain.Validation.Outcomes.{AreValid, validate_block_outcomes}

abbrev key : List ℕ
key = replicate 32 1

abbrev coin_output : ℕ → TxOut
coin_output value = record { value = value; script_pub_key = key }

abbrev null_outpoint : OutPoint
null_outpoint = record { hash = replicate 32 0; index = 0xffffffff }

abbrev coinbase_of : ℕ → Transaction
coinbase_of value = record {
  version = 1;
  vin = record { prevout = null_outpoint; script_sig = 1 ∷ 2 ∷ []; sequence = 0xffffffff } ∷ [];
  vout = coin_output value ∷ [];
  lock_time = 0;
}

abbrev old_outpoint : OutPoint
old_outpoint = record { hash = replicate 32 0xaa; index = 1 }

abbrev spending_input : TxIn
spending_input = record { prevout = old_outpoint; script_sig = replicate 64 1; sequence = 0 }

abbrev spend_of : ℕ → List TxIn → Transaction
spend_of value inputs = record {
  version = 1;
  vin = inputs;
  vout = coin_output value ∷ [];
  lock_time = 0;
}

abbrev spend : Transaction
spend = spend_of 90 (spending_input ∷ [])

abbrev provider : Option UtxoLookup
provider = some (λ p. if outpoint_eq p old_outpoint then some (coin_output 100) else none)

abbrev reward : ℕ
reward = 5000000000

block_passes :
    validate_transactions sample_ssl main_params
      (coinbase_of (reward + 10) ∷ spend ∷ [])
      (pos 1)
      provider
    ≡ pass tt
unfolding validate_transactions check_transactions check_spend check_inputs check_outputs
    is_coinbase is_null_outpoint all_zero safe_add money_range seen_before outpoint_eq coinbase_sig
    get_block_subsidy verify_script verify_input verify_schnorr load_pub_key recovered matches
    bytes_eq
block_passes = refl

block_overpays :
    validate_transactions sample_ssl main_params
      (coinbase_of (reward + 11) ∷ spend ∷ [])
      (pos 1)
      provider
    ≡ reject
unfolding validate_transactions check_transactions check_spend check_inputs check_outputs
    is_coinbase is_null_outpoint all_zero safe_add money_range seen_before outpoint_eq coinbase_sig
    get_block_subsidy verify_script verify_input verify_schnorr load_pub_key recovered matches
    bytes_eq
block_overpays = refl

block_spends_twice :
    validate_transactions sample_ssl main_params
      (coinbase_of reward ∷ spend_of 90 (spending_input ∷ spending_input ∷ []) ∷ [])
      (pos 1)
      provider
    ≡ reject
unfolding validate_transactions check_transactions check_spend check_inputs check_outputs
    is_coinbase is_null_outpoint all_zero safe_add money_range seen_before outpoint_eq coinbase_sig
    get_block_subsidy verify_script verify_input verify_schnorr load_pub_key recovered matches
    bytes_eq
block_spends_twice = refl

abbrev sample_block : Block
sample_block = record {
  header = record {
    version = 1;
    prev_block_hash = replicate 32 0;
    merkle_root = replicate 32 7;
    time = 0;
    bits = 0x207fffff;
    nonce = 0;
  };
  transactions = coinbase_of reward ∷ spend ∷ [];
}

validate_block_outcomes_example :
    let work =
      check_proof_of_work
        (block_hash sample_ssl sample_block.header)
        sample_block.header.bits
        main_params in
    ((validate_block sample_ssl main_params sample_block (pos 1) provider ≡ pass tt) ↔ (
      (work ≡ ok true)
      × AreValid sample_ssl main_params (pos 1) (callback provider) sample_block.transactions
      × (compute_merkle_root sample_ssl sample_block.transactions
          ≡ sample_block.header.merkle_root)))
    × ((x : Error)
        → (validate_block sample_ssl main_params sample_block (pos 1) provider ≡ throws x)
          ↔ (work ≡ err x))
validate_block_outcomes_example =
    validate_block_outcomes sample_ssl main_params (omega arith) sample_block (pos 1) provider

repeated_last_refused_example :
    (compute_merkle_root sample_ssl
        (coinbase_of reward ∷ spend ∷ spend_of 80 [] ∷ spend_of 80 [] ∷ [])
      ≡ compute_merkle_root sample_ssl (coinbase_of reward ∷ spend ∷ spend_of 80 [] ∷ []))
    × (validate_transactions sample_ssl main_params
          (coinbase_of reward ∷ spend ∷ spend_of 80 [] ∷ spend_of 80 [] ∷ [])
          (pos 1)
          provider
        ≢ pass tt)
repeated_last_refused_example =
    repeated_last_refused sample_ssl main_params (omega arith) (coinbase_of reward) (spend ∷ [])
      (spend_of 80 []) (pos 1) provider (omega arith)

validate_transactions_iff_example :
    (validate_transactions sample_ssl main_params
        (coinbase_of (reward + 10) ∷ spend ∷ [])
        (pos 1)
        provider
      ≡ pass tt)
    ↔ IsValidBlock sample_ssl main_params
        (coinbase_of (reward + 10))
        (spend ∷ [])
        (pos 1)
        (callback provider)
validate_transactions_iff_example =
    validate_transactions_iff sample_ssl main_params (omega arith) (coinbase_of (reward + 10))
      (spend ∷ []) (pos 1) provider
