-- ===== src/BlockStore.antt =====
-- layer1-core/storage/blockstore.cpp: the file that blocks are appended to, the index of their offsets
-- and the file that the index is kept in. The host is little-endian, a header lies in memory as in
-- Block, and each operation runs under the lock. What the file system does is a parameter: `tell`, the
-- position of a stream that was opened to append, and `junk`, what a variable without an initial value
-- holds after a read that fails.
pub mod Records
pub mod Reads
pub mod Contract
mod Tests
use drachma_block_chain.Common.{
  ℕ, zero, suc, ◌+◌, ◌%◌, ◌^◌, List, [], ◌∷◌, ◌++◌, length, take, drop, replicate, Bool, true,
  false, not, ltb, ◌==◌, ==_iff, Option, none, some, Result, ok, err, throw_if, ◌>>=◌, ◌>>◌,
  if◌then◌else◌, cannot_open_blockstore, unknown_height, corrupt_blockstore, block_too_small,
  truncated_size, truncated_data,
}
use drachma_block_chain.Common.Bytes.{le_bytes, le_value}
use drachma_block_chain.Common.Maps.{KeyEq, Map, find, assign}
use drachma_block_chain.Common.Streams.{Stream, open_bytes, read_bytes, read_number}
use drachma_block_chain.Tx.{Transaction, serialize, deserialize_transaction, size32}
use drachma_block_chain.Block.{Block, BlockHeader, header_bytes}

abbrev pub height_key : KeyEq ℕ
height_key = record { same = ◌==◌; same_iff = ==_iff }

pub record BlockStore : Type 0 where
  pub file : List ℕ
  pub index : Map ℕ ℕ
  pub index_file : Option (List ℕ)

-- The loop over the transactions of `WriteBlock`.
unfoldable pub write_transactions : List ℕ → List Transaction → List ℕ
write_transactions buffer [] = buffer
write_transactions buffer (tx ∷ txs) =
    let ser = serialize tx in write_transactions ((buffer ++ le_bytes 4 (size32 ser)) ++ ser) txs

-- `buffer` of `WriteBlock`.
unfoldable pub block_buffer : Block → List ℕ
block_buffer block =
    write_transactions (header_bytes block.header ++ le_bytes 4 (size32 block.transactions))
      block.transactions

-- The loop of `FlushIndex`.
unfoldable pub write_index : List ℕ → Map ℕ ℕ → List ℕ
write_index out [] = out
write_index out ((height, offset) ∷ m) =
    write_index ((out ++ le_bytes 4 height) ++ le_bytes 8 offset) m

-- `FlushIndex`: what the index file holds after it.
unfoldable pub flush_index : Map ℕ ℕ → List ℕ
flush_index index = write_index (le_bytes 4 (size32 index)) index

-- `WriteBlock`; `opens` tells whether the file could be opened. The writes behind that succeed.
unfoldable pub write_block : (List ℕ → ℕ) → Bool → BlockStore → ℕ → Block → Result BlockStore
write_block tell opens store height block = do
  throw_if (not opens) cannot_open_blockstore
  let pos = tell store.file
  let buffer = block_buffer block
  let index = assign height_key height (pos % 2 ^ 64) store.index
  ok (record {
    file = store.file ++ (le_bytes 4 (size32 buffer) ++ buffer);
    index = index;
    index_file = some (flush_index index);
  })

-- `memcpy(&block.header, .., sizeof(BlockHeader))`
unfoldable pub header_of : List ℕ → BlockHeader
header_of bytes = record {
  version = le_value (take 4 bytes);
  prev_block_hash = take 32 (drop 4 bytes);
  merkle_root = take 32 (drop 36 bytes);
  time = le_value (take 4 (drop 68 bytes));
  bits = le_value (take 4 (drop 72 bytes));
  nonce = le_value (take 4 (drop 76 bytes));
}

-- The loop over the transactions of `ReadBlock`, on the data from `offset` on.
unfoldable pub read_transactions : ℕ → List ℕ → Result (List Transaction)
read_transactions zero bytes = ok []
read_transactions (suc count) bytes = do
  throw_if (ltb (length bytes) 4) truncated_size
  let size = le_value (take 4 bytes)
  let rest = drop 4 bytes
  throw_if (ltb (length rest) size) truncated_data
  tx ← deserialize_transaction (take size rest)
  txs ← read_transactions count (drop size rest)
  ok (tx ∷ txs)

-- `ReadBlock` from the data of the block on.
unfoldable pub parse_block : List ℕ → Result Block
parse_block bytes = do
  throw_if (ltb (length bytes) (80 + 4)) block_too_small
  txs ← read_transactions (le_value (take 4 (drop 80 bytes))) (drop 84 bytes)
  ok (record { header = header_of bytes; transactions = txs })

-- `ReadBlock` on the stream after `seekg`.
unfoldable pub read_record : Stream → Result Block
read_record in_file =
    let (size, after_size) = read_number 4 in_file in
    let (bytes, after_bytes) = read_bytes size after_size in
    throw_if (not after_bytes.good) corrupt_blockstore >> parse_block bytes

unfoldable pub read_at : List ℕ → Option ℕ → Result Block
read_at file none = err unknown_height
read_at file (some pos) = read_record (open_bytes (drop pos file))

-- `ReadBlock`
unfoldable pub read_block : BlockStore → ℕ → Result Block
read_block store height = read_at store.file (find height_key height store.index)

-- The loop of `LoadIndex`.
unfoldable pub load_entries : (ℕ → ℕ × ℕ) → ℕ → Stream → Map ℕ ℕ → Map ℕ ℕ
load_entries junk zero in_file index = index
load_entries junk (suc count) in_file index =
    let (height, after_height) = read_number 4 in_file in
    let (offset, after_offset) = read_number 8 after_height in
    let known = if after_height.good then height else (junk count).0 in
    let at = if after_offset.good then offset else (junk count).1 in
    load_entries junk count after_offset (assign height_key known at index)

-- `LoadIndex`, from the index file that is there, or not.
unfoldable pub load_index : (ℕ → ℕ × ℕ) → Option (List ℕ) → Map ℕ ℕ
load_index junk none = []
load_index junk (some bytes) =
    let (count, after_count) = read_number 4 (open_bytes bytes) in
    load_entries junk count after_count []

-- The constructor, on the files that an earlier store has left.
unfoldable pub open_store : (ℕ → ℕ × ℕ) → List ℕ → Option (List ℕ) → BlockStore
open_store junk file index_file = record {
  file = file;
  index = load_index junk index_file;
  index_file = index_file;
}
