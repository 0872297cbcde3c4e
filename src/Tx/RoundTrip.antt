-- ===== src/Tx/RoundTrip.antt =====
-- `Serialize` and `DeserializeTransaction` of layer1-core/tx/transaction.cpp against one another.
use drachma_block_chain.Common.{
  ℕ, ◌≡◌, refl, sym, ◌∙◌, arith, List, [], ◌∷◌, ◌++◌, append-nil, append_assoc, length, All,
  All-append, ◌==◌, not, ok, ok-injective, err, throw_if, ◌>>◌, trailing_data,
}
use drachma_block_chain.Common.Bytes.{IsByte, IsU32, le_bytes, le_bytes-IsByte, write_uint32_lem}
use drachma_block_chain.Tx.{Transaction, serialize, deserialize_transaction}
use drachma_block_chain.Tx.Codec.{read_uint32-IsCodec, reads_first, exact_first}
use drachma_block_chain.Tx.Parts.{
  IsTxIn, IsTxOut, input_bytes, output_bytes, each_bytes, size32_lem, write_input_lem,
  write_output_lem, write_each_lem, read_input-IsCodec, read_output-IsCodec, read_each-IsCodec,
}
use mathlib.Core.Path.{subst}

-- The values that a `Transaction` takes in C++, with fewer than 2 ^ 32 inputs and outputs, and
-- scripts shorter than that.
abbrev pub IsTransaction : Transaction → Type 0
IsTransaction tx =
    IsU32 tx.version
    × (IsU32 (length tx.vin) × All IsTxIn tx.vin)
    × (IsU32 (length tx.vout) × All IsTxOut tx.vout)
    × IsU32 tx.lock_time

abbrev outputs_part : Transaction → List ℕ
outputs_part tx =
    le_bytes 4 (length tx.vout) ++ (each_bytes output_bytes tx.vout ++ le_bytes 4 tx.lock_time)

abbrev tx_bytes : Transaction → List ℕ
tx_bytes tx =
    le_bytes 4 tx.version
    ++ (le_bytes 4 (length tx.vin) ++ (each_bytes input_bytes tx.vin ++ outputs_part tx))

serialize-tx_bytes : (tx : Transaction) → IsTransaction tx → serialize tx ≡ tx_bytes tx
unfolding serialize le_bytes
serialize-tx_bytes tx v = simp (
  write_uint32_lem,
  size32_lem tx.vin v.1.0,
  size32_lem tx.vout v.2.0,
  write_each_lem write_input_lem _ tx.vin v.1.1,
  write_each_lem write_output_lem _ tx.vout v.2.1,
  append_assoc,
)

tx_bytes-IsByte : (tx : Transaction) → IsTransaction tx → All IsByte (outputs_part tx)
tx_bytes-IsByte tx v = All-append IsByte (le_bytes 4 (length tx.vout)) _ (le_bytes-IsByte 4 _) (
    All-append IsByte (each_bytes output_bytes tx.vout) _
      ((read_each-IsCodec read_output-IsCodec (length tx.vout)).are_bytes tx.vout (refl, v.2.1))
      (le_bytes-IsByte 4 tx.lock_time))

regroup :
    (tx : Transaction) (extra : List ℕ)
    → tx_bytes tx ++ extra
      ≡ le_bytes 4 tx.version
        ++ (le_bytes 4 (length tx.vin)
            ++ (each_bytes input_bytes tx.vin
                ++ (le_bytes 4 (length tx.vout)
                    ++ (each_bytes output_bytes tx.vout ++ (le_bytes 4 tx.lock_time ++ extra)))))
regroup tx extra = simp append_assoc

-- What a transaction's bytes followed by `extra` are read as: the transaction, if nothing follows.
deserialize-tx_bytes :
    (tx : Transaction) (extra : List ℕ)
    → IsTransaction tx
    → All IsByte extra
    → deserialize_transaction (tx_bytes tx ++ extra)
      ≡ (throw_if (not (length extra == 0)) trailing_data >> ok tx)
unfolding deserialize_transaction
deserialize-tx_bytes tx extra v r =
    let last = le_bytes 4 tx.lock_time ++ extra in
    let outs = each_bytes output_bytes tx.vout ++ last in
    let n_outs = le_bytes 4 (length tx.vout) ++ outs in
    let ins = each_bytes input_bytes tx.vin ++ n_outs in
    let n_ins = le_bytes 4 (length tx.vin) ++ ins in
    let c_outs = read_each-IsCodec read_output-IsCodec (length tx.vout) in
    let c_ins = read_each-IsCodec read_input-IsCodec (length tx.vin) in
    let r₁ : All IsByte last =
      All-append IsByte (le_bytes 4 tx.lock_time) extra (le_bytes-IsByte 4 _) r in
    let r₂ : All IsByte outs =
      All-append IsByte (each_bytes output_bytes tx.vout) last (c_outs.are_bytes _ (refl, v.2.1))
        r₁ in
    let r₃ : All IsByte n_outs =
      All-append IsByte (le_bytes 4 (length tx.vout)) outs (le_bytes-IsByte 4 _) r₂ in
    let r₄ : All IsByte ins =
      All-append IsByte (each_bytes input_bytes tx.vin) n_outs (c_ins.are_bytes _ (refl, v.1.1))
        r₃ in
    let r₅ : All IsByte n_ins =
      All-append IsByte (le_bytes 4 (length tx.vin)) ins (le_bytes-IsByte 4 _) r₄ in
    rw (regroup tx extra) (
      reads_first read_uint32-IsCodec _ tx.version n_ins v.0 r₅
      ∙ reads_first read_uint32-IsCodec _ (length tx.vin) ins v.1.0 r₄
      ∙ reads_first c_ins _ tx.vin n_outs (refl, v.1.1) r₃
      ∙ reads_first read_uint32-IsCodec _ (length tx.vout) outs v.2.0 r₂
      ∙ reads_first c_outs _ tx.vout last (refl, v.2.1) r₁
      ∙ reads_first read_uint32-IsCodec _ tx.lock_time extra v.3 r)

-- A transaction whose fields are in range is read back from its serialization.
pub deserialize-serialize :
    (tx : Transaction) → IsTransaction tx → deserialize_transaction (serialize tx) ≡ ok tx
deserialize-serialize tx v =
    rw (serialize-tx_bytes tx v, ← append-nil (tx_bytes tx)) (deserialize-tx_bytes tx [] v tt)

-- Bytes after a serialized transaction are an error, whatever they are.
pub deserialize_trailing :
    (tx : Transaction) (x : ℕ) (xs : List ℕ)
    → IsTransaction tx
    → All IsByte (x ∷ xs)
    → deserialize_transaction (serialize tx ++ (x ∷ xs)) ≡ err trailing_data
deserialize_trailing tx x xs v h =
    rw (serialize-tx_bytes tx v) (deserialize-tx_bytes tx (x ∷ xs) v h ∙ ground arith)

whole :
    (src : List ℕ) (tx read : Transaction) (extra : List ℕ)
    → src ≡ tx_bytes read ++ extra
    → IsTransaction read
    → (throw_if (not (length extra == 0)) trailing_data >> ok read) ≡ ok tx
    → (serialize tx ≡ src) × IsTransaction tx
whole src tx read (x ∷ xs) s v e = absurd (ground arith)
whole src tx read [] s v e =
    subst (λ t. (serialize t ≡ src) × IsTransaction t) (ok-injective e)
      (serialize-tx_bytes read v ∙ sym (s ∙ append-nil (tx_bytes read)), v)

-- Any byte sequence that is read as a transaction is the serialization of that transaction, whose
-- fields are then in range: no transaction has a second encoding.
pub serialize-deserialize :
    (src : List ℕ) (tx : Transaction)
    → All IsByte src
    → deserialize_transaction src ≡ ok tx
    → (serialize tx ≡ src) × IsTransaction tx
unfolding deserialize_transaction
serialize-deserialize src tx h e =
    exact_first read_uint32-IsCodec _ src h e λ version src₁ s₁ v₁ h₁ e₁.
      exact_first read_uint32-IsCodec _ src₁ h₁ e₁ λ n src₂ s₂ v₂ h₂ e₂.
        exact_first (read_each-IsCodec read_input-IsCodec n) _ src₂ h₂ e₂ λ vin src₃ s₃ v₃ h₃ e₃.
          exact_first read_uint32-IsCodec _ src₃ h₃ e₃ λ m src₄ s₄ v₄ h₄ e₄.
            exact_first (read_each-IsCodec read_output-IsCodec m) _ src₄ h₄ e₄
              λ vout src₅ s₅ v₅ h₅ e₅.
                exact_first read_uint32-IsCodec _ src₅ h₅ e₅ λ lock src₆ s₆ v₆ h₆ e₆.
                  whole src tx
                    (record { version = version; vin = vin; vout = vout; lock_time = lock }) src₆
                    (s₁ ∙ rw (s₂, s₃, s₄, s₅, s₆, ← v₃.0, ← v₅.0) (simp append_assoc))
                    (v₁, (subst IsU32 (sym v₃.0) v₂, v₃.1), (subst IsU32 (sym v₅.0) v₄, v₅.1), v₆)
                    e₆
