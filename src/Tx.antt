-- ===== src/Tx.antt =====
-- layer1-core/tx/transaction.h and transaction.cpp: transactions and their serialization.
-- A `std::vector<uint8_t>` is a list of numbers below 256, a `uint256` one of 32 bytes. A reader
-- returns its value and the bytes from the new `offset` on. `tx.vin.resize(n)` is not modelled as
-- such: the loop builds the list, and an allocation that fails is left out.
pub mod Codec
pub mod Parts
pub mod RoundTrip
mod Tests
use drachma_block_chain.Common.{
  ℕ, zero, suc, ◌%◌, ◌^◌, List, [], ◌∷◌, ◌++◌, length, take, drop, ltb, not, Result, ok, Error,
  throw_if, ◌>>=◌, ◌>>◌, var_bytes_overflow, hash_overflow, trailing_data, ◌==◌,
}
use drachma_block_chain.Common.Bytes.{write_uint32, write_uint64, read_uint32, read_uint64}

pub record OutPoint : Type 0 where
  pub hash : List ℕ
  pub index : ℕ

pub record TxIn : Type 0 where
  pub prevout : OutPoint
  pub script_sig : List ℕ
  pub sequence : ℕ

pub record TxOut : Type 0 where
  pub value : ℕ
  pub script_pub_key : List ℕ

pub record Transaction : Type 0 where
  pub version : ℕ
  pub vin : List TxIn
  pub vout : List TxOut
  pub lock_time : ℕ

-- `static_cast<uint32_t>(v.size())`
abbrev pub size32 {ℓ} : {A : Type ℓ} → List A → ℕ
size32 xs = length xs % 2 ^ 32

unfoldable pub write_var_bytes : List ℕ → List ℕ → List ℕ
write_var_bytes out bytes = write_uint32 out (size32 bytes) ++ bytes

unfoldable pub read_var_bytes : List ℕ → Result (List ℕ × List ℕ)
read_var_bytes src = do
  (len, src') ← read_uint32 src
  throw_if (ltb (length src') len) var_bytes_overflow
  ok (take len src', drop len src')

-- The bodies of the two loops of `Serialize`.
unfoldable pub write_input : List ℕ → TxIn → List ℕ
write_input out i =
    write_uint32
      (write_var_bytes (write_uint32 (out ++ i.prevout.hash) i.prevout.index) i.script_sig)
      i.sequence

unfoldable pub write_output : List ℕ → TxOut → List ℕ
write_output out o = write_var_bytes (write_uint64 out o.value) o.script_pub_key

-- `for (const auto& x : xs) ...`
unfoldable pub write_each : {A : Type 0} → (List ℕ → A → List ℕ) → List ℕ → List A → List ℕ
write_each write out [] = out
write_each write out (x ∷ xs) = write_each write (write out x) xs

unfoldable pub serialize : Transaction → List ℕ
serialize tx =
    let out = write_uint32 [] tx.version in
    let out' = write_uint32 out (size32 tx.vin) in
    let out'' = write_each write_input out' tx.vin in
    let out''' = write_uint32 out'' (size32 tx.vout) in
    write_uint32 (write_each write_output out''' tx.vout) tx.lock_time

-- The bodies of the two loops of `DeserializeTransaction`.
pub read_input : List ℕ → Result (TxIn × List ℕ)
read_input src = do
  throw_if (ltb (length src) 32) hash_overflow
  (index, src') ← read_uint32 (drop 32 src)
  (script, src'') ← read_var_bytes src'
  (sequence, rest) ← read_uint32 src''
  ok (
    record {
      prevout = record { hash = take 32 src; index = index };
      script_sig = script;
      sequence = sequence;
    },
    rest,
  )

pub read_output : List ℕ → Result (TxOut × List ℕ)
read_output src = do
  (value, src') ← read_uint64 src
  (script, rest) ← read_var_bytes src'
  ok (record { value = value; script_pub_key = script }, rest)

-- `for (uint32_t i = 0; i < count; ++i) v[i] = ...`, over the rounds left.
unfoldable pub read_each :
    {A : Type 0} → (List ℕ → Result (A × List ℕ)) → ℕ → List ℕ → Result (List A × List ℕ)
read_each read zero src = ok ([], src)
read_each read (suc n) src = do
  (x, src') ← read src
  (xs, rest) ← read_each read n src'
  ok (x ∷ xs, rest)

unfoldable pub deserialize_transaction : List ℕ → Result Transaction
deserialize_transaction src = do
  (version, src₁) ← read_uint32 src
  (vin_size, src₂) ← read_uint32 src₁
  (vin, src₃) ← read_each read_input vin_size src₂
  (vout_size, src₄) ← read_uint32 src₃
  (vout, src₅) ← read_each read_output vout_size src₄
  (lock_time, src₆) ← read_uint32 src₅
  throw_if (not (length src₆ == 0)) trailing_data
  ok (record { version = version; vin = vin; vout = vout; lock_time = lock_time })
