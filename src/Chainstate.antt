-- ===== src/Chainstate.antt =====
-- layer1-core/chainstate/coins.cpp: the set of unspent outputs and the file that it is kept in. The
-- host is little-endian; each operation runs under the lock, so that it is one step.
pub mod Laws
pub mod RoundTrip
mod Tests
use drachma_block_chain.Common.{
  ℕ, zero, suc, List, [], ◌∷◌, ◌++◌, take, Bool, true, false, not, Option, none, some, Result, ok,
  err, throw_if, ◌>>◌, missing_utxo, spend_missing_utxo, corrupt_utxo_set,
}
use drachma_block_chain.Common.Bytes.{le_bytes}
use drachma_block_chain.Common.Maps.{KeyEq, Map, find, has, assign, emplace, erase}
use drachma_block_chain.Common.Streams.{Stream, open_bytes, read_bytes, read_number}
use drachma_block_chain.Tx.{OutPoint, TxOut, size32}

abbrev pub Utxos : Type 0
Utxos = Map OutPoint TxOut

-- `if (it == utxos.end()) throw ..; return it->second;`
abbrev pub or_missing : Option TxOut → Result TxOut
or_missing none = err missing_utxo
or_missing (some txout) = ok txout

module _ (eq : KeyEq OutPoint) where
  -- `HaveUTXO`
  unfoldable pub have_utxo : Utxos → OutPoint → Bool
  have_utxo utxos out = has eq out utxos

  -- `GetUTXO`
  unfoldable pub get_utxo : Utxos → OutPoint → Result TxOut
  get_utxo utxos out = or_missing (find eq out utxos)

  -- `AddUTXO`
  unfoldable pub add_utxo : Utxos → OutPoint → TxOut → Utxos
  add_utxo utxos out txout = assign eq out txout utxos

  -- `SpendUTXO`
  unfoldable pub spend_utxo : Utxos → OutPoint → Result Utxos
  spend_utxo utxos out = elim (has eq out utxos) [
    | true ↦ ok (erase eq out utxos)
    | false ↦ err spend_missing_utxo
  ]

-- The bytes of one entry.
unfoldable pub entry_bytes : OutPoint → TxOut → List ℕ
entry_bytes out txout =
    let size = size32 txout.script_pub_key in
    out.hash
    ++ (le_bytes 4 out.index
        ++ (le_bytes 8 txout.value ++ (le_bytes 4 size ++ take size txout.script_pub_key)))

unfoldable pub entries_bytes : Utxos → List ℕ
entries_bytes [] = []
entries_bytes ((out, txout) ∷ rest) = entry_bytes out txout ++ entries_bytes rest

-- `Persist`, which `Flush` calls: the bytes of the file.
unfoldable pub persist : Utxos → List ℕ
persist utxos = le_bytes 4 (size32 utxos) ++ entries_bytes utxos

module _ (eq : KeyEq OutPoint) where
  -- The loop of `Load`.
  unfoldable pub load_utxos : ℕ → Stream → Utxos → Result Utxos
  load_utxos zero in_file utxos = ok utxos
  load_utxos (suc count) in_file utxos =
      let (hash, s₁) = read_bytes 32 in_file in
      let (index, s₂) = read_number 4 s₁ in
      let (value, s₃) = read_number 8 s₂ in
      let (script_size, s₄) = read_number 4 s₃ in
      let (script, s₅) = read_bytes script_size s₄ in
      let out : OutPoint = record { hash = hash; index = index } in
      let txout : TxOut = record { value = value; script_pub_key = script } in
      throw_if (not s₅.good) corrupt_utxo_set >> load_utxos count s₅ (emplace eq out txout utxos)

  -- `Load`, which the constructor calls, from the file that is there, or not.
  unfoldable pub load : Option (List ℕ) → Result Utxos
  load none = ok []
  load (some bytes) =
      let (count, after_count) = read_number 4 (open_bytes bytes) in load_utxos count after_count []
