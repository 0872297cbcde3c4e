-- ===== src/BlockStore/Records.antt =====
-- A block's record in layer1-core/storage/blockstore.cpp: what `WriteBlock` puts into its buffer is what
-- `ReadBlock` makes a block of.
use drachma_block_chain.Common.{
  ℕ, zero, suc, ◌+◌, ◌≤◌, ◌≡◌, refl, sym, ap, ◌∙◌, arith, List, [], ◌∷◌, ◌++◌, append-nil,
  append_assoc, length, length-append, take, drop, take-append, drop-append, All, le→ltb, ok, ◌>>=◌,
}
use drachma_block_chain.Common.Bytes.{IsU32, le_bytes, le_value, length-le_bytes, le_value-le_bytes}
use drachma_block_chain.Tx.{Transaction, serialize, deserialize_transaction, size32}
use drachma_block_chain.Tx.Parts.{size32_lem}
use drachma_block_chain.Tx.RoundTrip.{IsTransaction, deserialize-serialize}
use drachma_block_chain.Block.{Block, BlockHeader, header_bytes}
use drachma_block_chain.BlockStore.{
  write_transactions, block_buffer, header_of, read_transactions, parse_block,
}

-- The values that a `BlockHeader` takes in C++.
pub record IsHeader (h : BlockHeader) : Type 0 where
  pub version : IsU32 h.version
  pub prev_block_hash : length h.prev_block_hash ≡ 32
  pub merkle_root : length h.merkle_root ≡ 32
  pub time : IsU32 h.time
  pub bits : IsU32 h.bits
  pub nonce : IsU32 h.nonce

-- A transaction that is read back, with a serialization shorter than 2 ^ 32 bytes.
abbrev pub IsStorable : Transaction → Type 0
IsStorable tx = IsTransaction tx × IsU32 (length (serialize tx))

pub record IsBlock (b : Block) : Type 0 where
  pub header : IsHeader b.header
  pub count : IsU32 (length b.transactions)
  pub transactions : All IsStorable b.transactions

drop-past :
    {A : Type 0} (xs ys : List A) (n k : ℕ) → length xs ≡ n → drop (n + k) (xs ++ ys) ≡ drop k ys
drop-past [] ys n k e = ap (λ (t : ℕ). drop t ys) (omega arith)
drop-past (x ∷ xs) ys zero k e = absurd (omega arith)
drop-past (x ∷ xs) ys (suc n) k e =
    ap (λ (t : ℕ). drop t (x ∷ (xs ++ ys))) (carry n k) ∙ drop-past xs ys n k (omega arith)
  where
    carry : (n k : ℕ) → suc n + k ≡ suc (n + k)
    carry n k = omega arith

-- A number at the front.
le_front : (v : ℕ) (rest : List ℕ) → IsU32 v → le_value (take 4 (le_bytes 4 v ++ rest)) ≡ v
le_front v rest h =
    ap le_value (take-append (le_bytes 4 v) rest 4 (sym (length-le_bytes 4 v)))
    ∙ le_value-le_bytes 4 v h

le_behind : (v : ℕ) (rest : List ℕ) → drop 4 (le_bytes 4 v ++ rest) ≡ rest
le_behind v rest = drop-append (le_bytes 4 v) rest 4 (sym (length-le_bytes 4 v))

module _ (h : BlockHeader) (rest : List ℕ) (v : IsHeader h) where
  abbrev from_nonce : List ℕ
  from_nonce = le_bytes 4 h.nonce ++ rest

  abbrev from_bits : List ℕ
  from_bits = le_bytes 4 h.bits ++ from_nonce

  abbrev from_time : List ℕ
  from_time = le_bytes 4 h.time ++ from_bits

  abbrev from_root : List ℕ
  from_root = h.merkle_root ++ from_time

  abbrev from_prev : List ℕ
  from_prev = h.prev_block_hash ++ from_root

  header_parts : header_bytes h ++ rest ≡ le_bytes 4 h.version ++ from_prev
  unfolding header_bytes
  header_parts = simp append_assoc

  -- What stands behind the version, the previous hash, the root, and so on.
  past_version : (k : ℕ) → drop (4 + k) (header_bytes h ++ rest) ≡ drop k from_prev
  past_version k =
      rw header_parts (drop-past (le_bytes 4 h.version) from_prev 4 k (length-le_bytes 4 h.version))

  past_root : (k : ℕ) → drop (4 + (32 + (32 + k))) (header_bytes h ++ rest) ≡ drop k from_time
  past_root k =
      past_version (32 + (32 + k))
      ∙ drop-past h.prev_block_hash from_root 32 (32 + k) v.prev_block_hash
      ∙ drop-past h.merkle_root from_time 32 k v.merkle_root

  pub past_header : drop 80 (header_bytes h ++ rest) ≡ rest
  past_header =
      past_root 12
      ∙ drop-past (le_bytes 4 h.time) from_bits 4 8 (length-le_bytes 4 h.time)
      ∙ drop-past (le_bytes 4 h.bits) from_nonce 4 4 (length-le_bytes 4 h.bits)
      ∙ le_behind h.nonce rest

  -- The header is read back from its bytes.
  pub header_of-header_bytes : header_of (header_bytes h ++ rest) ≡ h
  unfolding header_of
  header_of-header_bytes = cc (
    ap (λ t. le_value (take 4 t)) header_parts ∙ le_front h.version from_prev v.version,
    ap (take 32) (past_version 0)
        ∙ take-append h.prev_block_hash from_root 32 (sym v.prev_block_hash),
    ap (take 32) (past_version 32 ∙ drop-past h.prev_block_hash from_root 32 0 v.prev_block_hash)
        ∙ take-append h.merkle_root from_time 32 (sym v.merkle_root),
    ap (λ t. le_value (take 4 t)) (past_root 0) ∙ le_front h.time from_bits v.time,
    ap (λ t. le_value (take 4 t))
          (past_root 4 ∙ drop-past (le_bytes 4 h.time) from_bits 4 0 (length-le_bytes 4 h.time))
        ∙ le_front h.bits from_nonce v.bits,
    ap (λ t. le_value (take 4 t))
          (past_root 8
            ∙ drop-past (le_bytes 4 h.time) from_bits 4 4 (length-le_bytes 4 h.time)
            ∙ drop-past (le_bytes 4 h.bits) from_nonce 4 0 (length-le_bytes 4 h.bits))
        ∙ le_front h.nonce rest v.nonce,
  )

-- What `write_transactions` appends.
abbrev pub transaction_records : List Transaction → List ℕ
transaction_records [] = []
transaction_records (tx ∷ txs) =
    le_bytes 4 (size32 (serialize tx)) ++ (serialize tx ++ transaction_records txs)

write_transactions_lem :
    (buffer : List ℕ) (txs : List Transaction)
    → write_transactions buffer txs ≡ buffer ++ transaction_records txs
unfolding write_transactions
write_transactions_lem buffer [] = sym (append-nil buffer)
write_transactions_lem buffer (tx ∷ txs) =
    write_transactions_lem ((buffer ++ le_bytes 4 (size32 (serialize tx))) ++ serialize tx) txs
    ∙ simp append_assoc

-- One round: the transaction is read from its own bytes, and the loop goes on behind them.
record_step :
    (ser more : List ℕ) (n : ℕ)
    → IsU32 (length ser)
    → read_transactions (suc n) (le_bytes 4 (length ser) ++ (ser ++ more))
      ≡ (deserialize_transaction ser >>= λ tx. read_transactions n more >>= λ txs. ok (tx ∷ txs))
unfolding read_transactions
record_step ser more n small =
    let len = length ser in
    let front = length-append (le_bytes 4 len) (ser ++ more) in
    rw
      (
        le→ltb (length (le_bytes 4 len ++ (ser ++ more))) 4
            (omega (arith, front, length-le_bytes 4 len)),
        le_front len (ser ++ more) small,
        le_behind len (ser ++ more),
        le→ltb (length (ser ++ more)) len (omega (arith, length-append ser more)),
        take-append ser more len refl,
        drop-append ser more len refl,
      )
      refl

read_transactions_lem :
    (txs : List Transaction)
    → All IsStorable txs
    → read_transactions (length txs) (transaction_records txs) ≡ ok txs
read_transactions_lem [] v = unfold read_transactions in refl
read_transactions_lem (tx ∷ txs) v =
    let ser = serialize tx in
    ap
      (λ (k : ℕ).
        read_transactions (suc (length txs)) (le_bytes 4 k ++ (ser ++ transaction_records txs)))
      (size32_lem ser v.0.1)
    ∙ record_step ser (transaction_records txs) (length txs) v.0.1
    ∙ rw (deserialize-serialize tx v.0.0, read_transactions_lem txs v.1) refl

abbrev count_part : Block → List ℕ
count_part b = le_bytes 4 (length b.transactions) ++ transaction_records b.transactions

block_buffer_lem : (b : Block) → IsBlock b → block_buffer b ≡ header_bytes b.header ++ count_part b
unfolding block_buffer
block_buffer_lem b v =
    write_transactions_lem _ b.transactions
    ∙ rw (size32_lem b.transactions v.count) (append_assoc (header_bytes b.header) _ _)

length-header_bytes : (h : BlockHeader) → IsHeader h → length (header_bytes h) ≡ 80
unfolding header_bytes
length-header_bytes h v =
    let n = length-le_bytes 4 in
    simp length-append
      (omega (arith, n h.version, n h.time, n h.bits, n h.nonce, v.prev_block_hash, v.merkle_root))

pub length-block_buffer : (b : Block) → IsBlock b → 84 ≤ length (block_buffer b)
length-block_buffer b v = omega (
  arith,
  ap length (block_buffer_lem b v),
  length-append (header_bytes b.header) (count_part b),
  length-header_bytes b.header v.header,
  length-append (le_bytes 4 (length b.transactions)) (transaction_records b.transactions),
  length-le_bytes 4 (length b.transactions),
)

-- A block is read back from its buffer.
pub parse_block-block_buffer : (b : Block) → IsBlock b → parse_block (block_buffer b) ≡ ok b
unfolding parse_block
parse_block-block_buffer b v =
    let whole = block_buffer_lem b v in
    let n = length b.transactions in
    let behind : drop 80 (block_buffer b) ≡ count_part b =
      ap (drop 80) whole ∙ past_header b.header (count_part b) v.header in
    let records : drop 84 (block_buffer b) ≡ transaction_records b.transactions =
      ap (drop 84) whole
      ∙ drop-past (header_bytes b.header) (count_part b) 80 4
          (length-header_bytes b.header v.header)
      ∙ le_behind n (transaction_records b.transactions) in
    let count =
      ap (λ t. le_value (take 4 t)) behind
      ∙ le_front n (transaction_records b.transactions) v.count in
    rw
      (
        le→ltb (length (block_buffer b)) (80 + 4) (length-block_buffer b v),
        count,
        records,
        read_transactions_lem b.transactions v.transactions,
        ap header_of whole ∙ header_of-header_bytes b.header (count_part b) v.header,
      )
      refl
