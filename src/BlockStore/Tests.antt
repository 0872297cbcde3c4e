-- ===== src/BlockStore/Tests.antt =====
-- Runs of layer1-core/storage/blockstore.cpp, and its theorem at a store that was written to twice at
-- one height and opened again.
use drachma_block_chain.Common.{
  ℕ, ◌^◌, ◌<◌, ◌≡◌, refl, arith, [], ◌∷◌, ◌++◌, length, replicate, true, false, none, some, ok, err,
  cannot_open_blockstore, corrupt_blockstore,
}
use drachma_block_chain.Common.Bytes.{le_bytes, le_value, write_uint32}
use drachma_block_chain.Common.Maps.{find, assign}
use drachma_block_chain.Common.Streams.{read_bytes, read_number}
use drachma_block_chain.Tx.{serialize, write_each}
use drachma_block_chain.Block.{Block, header_bytes}
use drachma_block_chain.BlockStore.{
  BlockStore, height_key, write_transactions, block_buffer, flush_index, write_block, read_at,
  read_block, read_record, load_index, open_store,
}
use drachma_block_chain.BlockStore.Records.{IsBlock}
use drachma_block_chain.BlockStore.Contract.{Run, create, write, reopen, answer, read_block_refines}

abbrev block_at : ℕ → Block
block_at nonce = record {
  header = record {
    version = 1;
    prev_block_hash = replicate 32 0;
    merkle_root = replicate 32 7;
    time = 0;
    bits = 0x207fffff;
    nonce = nonce;
  };
  transactions = record { version = 1; vin = []; vout = []; lock_time = 0 } ∷ [];
}

block_at-IsBlock : (nonce : ℕ) → nonce < 2 ^ 32 → IsBlock (block_at nonce)
unfolding serialize write_each write_uint32
block_at-IsBlock nonce h = record {
  header = record {
    version = omega arith;
    prev_block_hash = refl;
    merkle_root = refl;
    time = omega arith;
    bits = omega arith;
    nonce = h;
  };
  count = omega arith;
  transactions = omega arith;
}

abbrev empty_store : BlockStore
empty_store = record { file = []; index = []; index_file = none }

-- A file of one record that is cut off.
cut_off :
    read_block (record { file = 84 ∷ 0 ∷ 0 ∷ 0 ∷ 1 ∷ []; index = (7, 0) ∷ []; index_file = none }) 7
    ≡ err corrupt_blockstore
unfolding read_block read_at read_record read_number read_bytes find le_value
cut_off = refl

no_file : write_block length false empty_store 7 (block_at 1) ≡ err cannot_open_blockstore
unfolding write_block
no_file = refl

abbrev stored : BlockStore
stored = record {
  file = le_bytes 4 104 ++ block_buffer (block_at 1);
  index = (7, 0) ∷ [];
  index_file = some (flush_index ((7, 0) ∷ []));
}

store_one : write_block length true empty_store 7 (block_at 1) ≡ ok stored
unfolding write_block assign block_buffer write_transactions serialize write_each write_uint32
    header_bytes le_bytes
store_one = refl

stored_run :
    Run length (open_store (λ n. (0, 0)) stored.file stored.index_file) ((7, block_at 1) ∷ [])
unfolding block_buffer write_transactions serialize write_each write_uint32 header_bytes le_bytes
    open_store load_index assign
stored_run =
    reopen (λ n. (0, 0))
      (write {s = empty_store} {m = []} 7 (block_at 1) (create (λ n. (0, 0)) {s = empty_store} refl)
        (omega arith) (block_at-IsBlock 1 (omega arith)) (omega arith) (omega arith) (omega arith)
        store_one refl)
      refl

read_block_refines_example :
    read_block (open_store (λ n. (0, 0)) stored.file stored.index_file) 7
    ≡ answer (find height_key 7 ((7, block_at 1) ∷ []))
read_block_refines_example =
    read_block_refines length (λ file. refl)
      (open_store (λ n. (0, 0)) stored.file stored.index_file) ((7, block_at 1) ∷ []) 7 stored_run
