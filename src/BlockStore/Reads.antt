-- ===== src/BlockStore/Reads.antt =====
-- The reads of layer1-core/storage/blockstore.cpp from a file that only grows, and its index file.
use drachma_block_chain.Common.{
  ℕ, suc, ◌-◌, ◌≤◌, ◌≡◌, refl, sym, ap, ◌∙◌, arith, List, [], ◌∷◌, ◌++◌, append-nil, append_assoc,
  length, length-append, length-drop, take, drop, take-append_of_le, drop-append_of_le, not, ltb,
  ltb→le, ltb→lt, drop-append, replicate, Bool-cases, inl, inr, Option, none, some, Result, ok,
  throw_if, ◌>>◌, corrupt_blockstore,
}
use drachma_block_chain.Common.Bytes.{IsU32, IsU64, le_bytes, le_value}
use drachma_block_chain.Common.Maps.{Map, assign}
use drachma_block_chain.Common.Maps.Distinct.{IsDistinct, assign_all, assign_all_lem}
use drachma_block_chain.Common.Streams.{
  Stream, open_bytes, read_bytes, read_number, read_bytes_exact, read_number_exact, read_bytes_fits,
  read_bytes_short, read_bytes-failed,
}
use drachma_block_chain.Tx.{size32}
use drachma_block_chain.Tx.Parts.{size32_lem}
use drachma_block_chain.Block.{Block}
use drachma_block_chain.BlockStore.{
  height_key, parse_block, read_record, read_at, write_index, flush_index, load_entries, load_index,
}

-- A record whose length stands before it, whatever follows.
pub read_record_exact :
    (buffer rest : List ℕ)
    → IsU32 (length buffer)
    → read_record (open_bytes (le_bytes 4 (length buffer) ++ (buffer ++ rest))) ≡ parse_block buffer
unfolding read_record
read_record_exact buffer rest small =
    rw
      (
        read_number_exact 4 (length buffer) (buffer ++ rest) small,
        read_bytes_exact (length buffer) buffer rest refl,
      )
      refl

-- What a read that returns a block has found.
abbrev Finds : List ℕ → Block → Type 0
Finds bytes block =
    (4 ≤ length bytes)
    × (le_value (take 4 bytes) ≤ length (drop 4 bytes))
    × (parse_block (take (le_value (take 4 bytes)) (drop 4 bytes)) ≡ ok block)

abbrev data_step : List ℕ × Stream → Result Block
data_step (bytes, after) = throw_if (not after.good) corrupt_blockstore >> parse_block bytes

data_found :
    (size : ℕ) (rest : List ℕ) (block : Block)
    → data_step (read_bytes size (open_bytes rest)) ≡ ok block
    → (size ≤ length rest) × (parse_block (take size rest) ≡ ok block)
data_found size rest block e = elim (Bool-cases (ltb (length rest) size)) [
  | inl short ↦ absurd (cc (rw (read_bytes_short size rest (ltb→lt (length rest) size short)) at e))
  | inr short ↦
      let fits = ltb→le (length rest) size short in (fits, rw (read_bytes_fits size rest fits) at e)
]

pub read_record-Finds :
    (bytes : List ℕ) (block : Block) → read_record (open_bytes bytes) ≡ ok block → Finds bytes block
unfolding read_record read_number
read_record-Finds bytes block e = elim (Bool-cases (ltb (length bytes) 4)) [
  | inl short ↦
      let e₁ = rw (read_bytes_short 4 bytes (ltb→lt (length bytes) 4 short)) at e in
      absurd
        (cc (rw (read_bytes-failed (le_value (bytes ++ replicate (4 - length bytes) 0))) at e₁))
  | inr short ↦
      let fits = ltb→le (length bytes) 4 short in
      let found =
        data_found (le_value (take 4 bytes)) (drop 4 bytes) block
          (rw (read_bytes_fits 4 bytes fits) at e) in
      (fits, found.0, found.1)
]

Finds-read_record :
    (bytes : List ℕ) (block : Block) → Finds bytes block → read_record (open_bytes bytes) ≡ ok block
unfolding read_record read_number
Finds-read_record bytes block (fits, fits', parsed) =
    rw
      (read_bytes_fits 4 bytes fits, read_bytes_fits (le_value (take 4 bytes)) (drop 4 bytes) fits')
      parsed

Finds-append :
    (bytes more : List ℕ) (block : Block) → Finds bytes block → Finds (bytes ++ more) block
Finds-append bytes more block (fits, fits', parsed) =
    let n = length-append bytes more in
    let front = take-append_of_le 4 bytes more fits in
    let back = drop-append_of_le 4 bytes more fits in
    (
      omega (arith, n),
      rw (front, back) (omega (arith, length-append (drop 4 bytes) more)),
      rw (front, back, take-append_of_le (le_value (take 4 bytes)) (drop 4 bytes) more fits')
          parsed,
    )

-- What can be read at an offset can still be read after the file has grown.
pub read_at-append :
    (file more : List ℕ) (at : Option ℕ) (block : Block)
    → read_at file at ≡ ok block
    → read_at (file ++ more) at ≡ ok block
unfolding read_at
read_at-append file more none block e = e
read_at-append file more (some pos) block e =
    let found = read_record-Finds (drop pos file) block e in
    let inside : pos ≤ length file = omega (arith, length-drop pos file, found.0) in
    rw (drop-append_of_le pos file more inside) (
      Finds-read_record (drop pos file ++ more) block
        (Finds-append (drop pos file) more block found))

-- The record at the end of the file.
pub read_at-end :
    (file buffer : List ℕ)
    → IsU32 (length buffer)
    → read_at (file ++ (le_bytes 4 (size32 buffer) ++ buffer)) (some (length file))
      ≡ parse_block buffer
unfolding read_at
read_at-end file buffer small =
    rw
      (
        drop-append file (le_bytes 4 (size32 buffer) ++ buffer) (length file) refl,
        size32_lem buffer small,
        ← append-nil buffer,
      )
      (ap (λ t. read_record (open_bytes (le_bytes 4 (length t) ++ t))) (append-nil buffer)
        ∙ ap (λ t. read_record (open_bytes (le_bytes 4 (length buffer) ++ t)))
            (sym (append-nil buffer))
        ∙ read_record_exact buffer [] small
        ∙ ap parse_block (sym (append-nil buffer)))

-- Heights and offsets that fit their variables.
abbrev pub IsIndex : Map ℕ ℕ → Type 0
IsIndex [] = Unit
IsIndex ((height, offset) ∷ m) = (IsU32 height × IsU64 offset) × IsIndex m

abbrev index_bytes : Map ℕ ℕ → List ℕ
index_bytes [] = []
index_bytes ((height, offset) ∷ m) = le_bytes 4 height ++ (le_bytes 8 offset ++ index_bytes m)

write_index_lem : (out : List ℕ) (m : Map ℕ ℕ) → write_index out m ≡ out ++ index_bytes m
unfolding write_index
write_index_lem out [] = sym (append-nil out)
write_index_lem out ((height, offset) ∷ m) =
    write_index_lem ((out ++ le_bytes 4 height) ++ le_bytes 8 offset) m ∙ simp append_assoc

load_entry :
    (junk : ℕ → ℕ × ℕ) (n height offset : ℕ) (more : List ℕ) (index : Map ℕ ℕ)
    → IsU32 height
    → IsU64 offset
    → load_entries junk
        (suc n)
        (open_bytes (le_bytes 4 height ++ (le_bytes 8 offset ++ more)))
        index
      ≡ load_entries junk n (open_bytes more) (assign height_key height offset index)
unfolding load_entries
load_entry junk n height offset more index h o =
    rw (read_number_exact 4 height (le_bytes 8 offset ++ more) h, read_number_exact 8 offset more o)
      refl

load_entries_lem :
    (junk : ℕ → ℕ × ℕ) (m index : Map ℕ ℕ)
    → IsIndex m
    → load_entries junk (length m) (open_bytes (index_bytes m)) index
      ≡ assign_all height_key m index
load_entries_lem junk [] index v = unfold load_entries assign_all in refl
load_entries_lem junk ((height, offset) ∷ m) index v =
    load_entry junk (length m) height offset (index_bytes m) index v.0.0 v.0.1
    ∙ load_entries_lem junk m (assign height_key height offset index) v.1
    ∙ unfold assign_all in refl

-- An index that was flushed is loaded again, whatever uninitialised variables hold.
pub load_index-flush_index :
    (junk : ℕ → ℕ × ℕ) (m : Map ℕ ℕ)
    → IsU32 (length m)
    → IsIndex m
    → IsDistinct height_key m
    → load_index junk (some (flush_index m)) ≡ m
unfolding load_index flush_index
load_index-flush_index junk m small v d =
    rw
      (
        write_index_lem (le_bytes 4 (size32 m)) m,
        size32_lem m small,
        read_number_exact 4 (length m) (index_bytes m) small,
      )
      (load_entries_lem junk m [] v ∙ assign_all_lem height_key m [] d)
