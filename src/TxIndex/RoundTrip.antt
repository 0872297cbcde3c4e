-- ===== src/TxIndex/RoundTrip.antt =====
-- `Save` and `Load` of layer2-services/index/txindex.cpp against one another.
use drachma_block_chain.Common.{
  ℕ, zero, suc, ◌+◌, ◌<◌, ◌≡◌, refl, ap, ◌∙◌, arith, List, [], ◌∷◌, ◌++◌, append_assoc, length,
  length-append, length-drop, drop, false, ◌==◌, some, Bool-cases, inl, inr, ltb, ltb→lt, ltb→le,
}
use drachma_block_chain.Common.Bytes.{IsU32, le_bytes, length-le_bytes}
use drachma_block_chain.Common.Maps.{bytes_key, emplace}
use drachma_block_chain.Common.Maps.Distinct.{IsDistinct, emplace_all, emplace_all_lem}
use drachma_block_chain.Common.Streams.{
  open_bytes, read_number, read_bytes_exact, read_number_exact, read_bytes_fits, read_bytes_short,
}
use drachma_block_chain.TxIndex.{Index, save, load_loop, load_index}

-- Hashes of 32 bytes and heights that fit a `uint32_t`.
abbrev pub IsIndex : Index → Type 0
IsIndex [] = Unit
IsIndex ((hash, height) ∷ rest) = ((length hash ≡ 32) × IsU32 height) × IsIndex rest

positive : (n : ℕ) → 0 < n → (n == 0) ≡ false
positive n h = ground arith

load_round :
    (fuel : ℕ) (hash : List ℕ) (height : ℕ) (more : List ℕ) (index : Index)
    → length hash ≡ 32
    → IsU32 height
    → load_loop (suc fuel) (open_bytes (hash ++ (le_bytes 4 height ++ more))) index
      ≡ load_loop fuel (open_bytes more) (emplace bytes_key hash height index)
unfolding load_loop
load_round fuel hash height more index h small =
    rw
      (
        read_bytes_exact 32 hash (le_bytes 4 height ++ more) h,
        read_number_exact 4 height more small,
        positive (length (hash ++ (le_bytes 4 height ++ more)))
            (omega (arith, h, length-append hash (le_bytes 4 height ++ more))),
      )
      refl

-- At fewer than 36 bytes the loop ends and adds nothing.
load_rest :
    (fuel : ℕ) (index : Index) (tail : List ℕ)
    → length tail < 36
    → load_loop (suc fuel) (open_bytes tail) index ≡ index
unfolding load_loop read_number
load_rest fuel index tail t = elim (Bool-cases (length tail == 0)) [
  | inl empty ↦ rw empty refl
  | inr more ↦ rw more (elim (Bool-cases (ltb (length tail) 32)) [
    | inl short ↦ rw (read_bytes_short 32 tail (ltb→lt (length tail) 32 short)) refl
    | inr short ↦
        let fits = ltb→le (length tail) 32 short in
        rw
          (
            read_bytes_fits 32 tail fits,
            read_bytes_short 4 (drop 32 tail) (omega (arith, length-drop 32 tail)),
          )
          refl
  ])
]

save_step :
    (hash : List ℕ) (height : ℕ) (rest : Index) (tail : List ℕ)
    → save ((hash, height) ∷ rest) ++ tail ≡ hash ++ (le_bytes 4 height ++ (save rest ++ tail))
unfolding save
save_step hash height rest tail = simp append_assoc

load_loop_lem :
    (fuel : ℕ) (entries index : Index) (tail : List ℕ)
    → IsIndex entries
    → length (save entries ++ tail) < fuel
    → length tail < 36
    → load_loop fuel (open_bytes (save entries ++ tail)) index ≡ emplace_all bytes_key entries index
load_loop_lem zero entries index tail v more t = absurd (omega arith)
load_loop_lem (suc fuel) [] index tail v more t =
    unfold save emplace_all in load_rest fuel index tail t
load_loop_lem (suc fuel) ((hash, height) ∷ rest) index tail v more t =
    let whole = save_step hash height rest tail in
    let behind = le_bytes 4 height ++ (save rest ++ tail) in
    let left : length (save rest ++ tail) < fuel = omega (
      arith,
      ap length whole,
      length-append hash behind,
      length-append (le_bytes 4 height) (save rest ++ tail),
      length-le_bytes 4 height,
    ) in
    ap (λ t. load_loop (suc fuel) (open_bytes t) index) whole
    ∙ load_round fuel hash height (save rest ++ tail) index v.0.0 v.0.1
    ∙ load_loop_lem fuel rest (emplace bytes_key hash height index) tail v.1 left t
    ∙ unfold emplace_all in refl

-- An index that was saved is loaded again, whatever the index held before, and even if the file goes on
-- with a part of a record: its hashes are 32 bytes and all different, and its heights fit 32 bits.
pub load_index-save :
    (entries old : Index) (tail : List ℕ)
    → IsIndex entries
    → IsDistinct bytes_key entries
    → length tail < 36
    → load_index (some (save entries ++ tail)) old ≡ entries
unfolding load_index
load_index-save entries old tail v d t =
    load_loop_lem (length (save entries ++ tail) + 1) entries [] tail v (omega arith) t
    ∙ emplace_all_lem bytes_key entries [] d
