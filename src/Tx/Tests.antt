-- ===== src/Tx/Tests.antt =====
-- Runs of layer1-core/tx/transaction.cpp, and its theorems at concrete transactions.
use drachma_block_chain.Common.{
  ℕ, ◌≡◌, refl, arith, List, [], ◌∷◌, ◌++◌, replicate, ok, err, hash_overflow,
}
use drachma_block_chain.Common.Bytes.{write_uint32, write_uint64, read_uint32, read_uint64}
use drachma_block_chain.Tx.{
  TxIn, TxOut, Transaction, serialize, deserialize_transaction, write_var_bytes, write_input,
  write_output, write_each, read_var_bytes, read_input, read_output, read_each,
}
use drachma_block_chain.Tx.RoundTrip.{IsTransaction, deserialize-serialize, serialize-deserialize}

abbrev input : TxIn
input = record {
  prevout = record { hash = replicate 32 7; index = 1 };
  script_sig = 1 ∷ 2 ∷ [];
  sequence = 0xffffffff;
}

abbrev output : TxOut
output = record { value = 5000000000; script_pub_key = 9 ∷ [] }

abbrev sample : Transaction
sample = record { version = 1; vin = input ∷ []; vout = output ∷ []; lock_time = 258 }

abbrev sample_bytes : List ℕ
sample_bytes =
    (1 ∷ 0 ∷ 0 ∷ 0 ∷ 1 ∷ 0 ∷ 0 ∷ 0 ∷ [])
    ++ (replicate 32 7
        ++ (1 ∷ 0 ∷ 0 ∷ 0 ∷ 2 ∷ 0 ∷ 0 ∷ 0 ∷ 1 ∷ 2 ∷ 255 ∷ 255 ∷ 255 ∷ 255 ∷ 1 ∷ 0 ∷ 0 ∷ 0 ∷ 0 ∷ 242
            ∷ 5 ∷ 42 ∷ 1 ∷ 0 ∷ 0 ∷ 0 ∷ 1 ∷ 0 ∷ 0 ∷ 0 ∷ 9 ∷ 2 ∷ 1 ∷ 0 ∷ 0 ∷ []))

serialize-sample : serialize sample ≡ sample_bytes
unfolding serialize write_var_bytes write_input write_output write_each write_uint32 write_uint64
serialize-sample = refl

deserialize_sample : deserialize_transaction sample_bytes ≡ ok sample
unfolding deserialize_transaction read_each read_input read_output read_var_bytes read_uint32
    read_uint64
deserialize_sample = refl

-- A count of inputs with nothing behind it.
deserialize_cut :
    deserialize_transaction (1 ∷ 0 ∷ 0 ∷ 0 ∷ 1 ∷ 0 ∷ 0 ∷ 0 ∷ 5 ∷ []) ≡ err hash_overflow
unfolding deserialize_transaction read_each read_input read_uint32
deserialize_cut = refl

sample-IsTransaction : IsTransaction sample
sample-IsTransaction = omega arith

deserialize-serialize_example : deserialize_transaction (serialize sample) ≡ ok sample
deserialize-serialize_example = deserialize-serialize sample sample-IsTransaction

serialize-deserialize_example : (serialize sample ≡ sample_bytes) × IsTransaction sample
serialize-deserialize_example =
    serialize-deserialize sample_bytes sample (omega arith) deserialize_sample
