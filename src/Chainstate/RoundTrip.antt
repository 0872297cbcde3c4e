-- ===== src/Chainstate/RoundTrip.antt =====
-- `Persist` and `Load` of layer1-core/chainstate/coins.cpp against one another.
use drachma_block_chain.Common.{
  ℕ, suc, ◌≡◌, refl, sym, ap, ◌∙◌, List, [], ◌∷◌, ◌++◌, append_assoc, append-nil, length, take,
  take-append, some, ok,
}
use drachma_block_chain.Common.Bytes.{IsU32, IsU64, le_bytes}
use drachma_block_chain.Common.Maps.{KeyEq, emplace}
use drachma_block_chain.Common.Maps.Distinct.{IsDistinct, emplace_all, emplace_all_lem}
use drachma_block_chain.Common.Streams.{open_bytes, read_bytes_exact, read_number_exact}
use drachma_block_chain.Tx.{OutPoint, TxOut}
use drachma_block_chain.Tx.Parts.{size32_lem}
use drachma_block_chain.Chainstate.{Utxos, entry_bytes, entries_bytes, persist, load_utxos, load}

-- The values that an entry takes in C++, with a script shorter than 2 ^ 32 bytes.
abbrev pub IsEntry : OutPoint → TxOut → Type 0
IsEntry out txout =
    (length out.hash ≡ 32)
    × IsU32 out.index
    × IsU64 txout.value
    × IsU32 (length txout.script_pub_key)

abbrev pub IsUtxos : Utxos → Type 0
IsUtxos [] = Unit
IsUtxos ((out, txout) ∷ rest) = IsEntry out txout × IsUtxos rest

take_all : (xs : List ℕ) → take (length xs) xs ≡ xs
take_all xs = ap (take (length xs)) (sym (append-nil xs)) ∙ take-append xs [] (length xs) refl

entries_step :
    (out : OutPoint) (txout : TxOut) (rest : Utxos)
    → entries_bytes ((out, txout) ∷ rest) ≡ entry_bytes out txout ++ entries_bytes rest
unfolding entries_bytes
entries_step out txout rest = refl

module _ (eq : KeyEq OutPoint) where
  -- One round reads one entry.
  load_entry :
      (n : ℕ) (out : OutPoint) (txout : TxOut) (more : List ℕ) (utxos : Utxos)
      → IsEntry out txout
      → load_utxos eq (suc n) (open_bytes (entry_bytes out txout ++ more)) utxos
        ≡ load_utxos eq n (open_bytes more) (emplace eq out txout utxos)
  unfolding load_utxos
  load_entry n out txout more utxos v =
      let script = txout.script_pub_key in
      let whole : entry_bytes out txout ++ more
          ≡ out.hash
            ++ (le_bytes 4 out.index
                ++ (le_bytes 8 txout.value ++ (le_bytes 4 (length script) ++ (script ++ more)))) =
        unfold entry_bytes in rw (size32_lem script v.3, take_all script) (simp append_assoc) in
      rw
        (
          whole,
          read_bytes_exact 32 out.hash
              (le_bytes 4 out.index
                ++ (le_bytes 8 txout.value ++ (le_bytes 4 (length script) ++ (script ++ more))))
              v.0,
          read_number_exact 4 out.index
              (le_bytes 8 txout.value ++ (le_bytes 4 (length script) ++ (script ++ more))) v.1,
          read_number_exact 8 txout.value (le_bytes 4 (length script) ++ (script ++ more)) v.2,
          read_number_exact 4 (length script) (script ++ more) v.3,
          read_bytes_exact (length script) script more refl,
        )
        refl

  load_utxos_lem :
      (entries utxos : Utxos)
      → IsUtxos entries
      → load_utxos eq (length entries) (open_bytes (entries_bytes entries)) utxos
        ≡ ok (emplace_all eq entries utxos)
  load_utxos_lem [] utxos v = unfold load_utxos emplace_all entries_bytes in refl
  load_utxos_lem ((out, txout) ∷ rest) utxos v =
      ap (λ t. load_utxos eq (suc (length rest)) (open_bytes t) utxos) (entries_step out txout rest)
      ∙ load_entry (length rest) out txout (entries_bytes rest) utxos v.0
      ∙ load_utxos_lem rest (emplace eq out txout utxos) v.1
      ∙ unfold emplace_all in refl

  -- A set of unspent outputs that Persist wrote is what Load reads back into an empty set: fewer than 2^32
  -- outputs whose fields fit, under outpoints that are all different.
  pub load-persist :
      (utxos : Utxos)
      → IsU32 (length utxos)
      → IsUtxos utxos
      → IsDistinct eq utxos
      → load eq (some (persist utxos)) ≡ ok utxos
  unfolding load persist
  load-persist utxos small v d =
      rw (size32_lem utxos small, read_number_exact 4 (length utxos) (entries_bytes utxos) small)
        (load_utxos_lem utxos [] v ∙ ap ok (emplace_all_lem eq utxos [] d))
