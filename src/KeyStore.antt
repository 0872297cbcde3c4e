-- ===== src/KeyStore.antt =====
-- layer2-services/wallet/keystore/keystore.cpp: the keys of the wallet, and the encrypted file that they
-- are kept in. The calls of OpenSSL are parameters: PBKDF2, the random bytes, and AES-256-CBC. The two
-- calls of an encryption, Update and Final, answer the bytes that they append; those of a decryption
-- too, where the second may fail. An allocation that fails is left out.
pub mod Sealing
mod Tests
use drachma_block_chain.Common.{
  ℕ, zero, suc, List, [], ◌∷◌, ◌++◌, length, take, drop, Bool, true, false, ltb, Option, none, some,
  Result, ok, err, throw_if, ◌>>=◌, ◌>>◌, if◌then◌else◌, missing_keystore, cipher_too_small,
  bad_passphrase,
}
use drachma_block_chain.Common.Int.{ℤ, to_int32}
use drachma_block_chain.Common.Maps.{Map, bytes_key, find, assign, emplace}

-- `Update` and `Final` stand for `EVP_EncryptUpdate`, `EVP_EncryptFinal_ex` and their kin, from a key, an
-- initial vector, the whole input and the length that is passed for it, an `int`.
pub record Cipher : Type 0 where
  pub pbkdf2 : List ℕ → List ℕ
  pub encrypt_update : List ℕ → List ℕ → List ℕ → ℤ → List ℕ
  pub encrypt_final : List ℕ → List ℕ → List ℕ → ℤ → List ℕ
  pub decrypt_update : List ℕ → List ℕ → List ℕ → ℤ → List ℕ
  pub decrypt_final : List ℕ → List ℕ → List ℕ → ℤ → Option (List ℕ)

abbrev pub Keys : Type 0
Keys = Map (List ℕ) (List ℕ)

-- `Import`
unfoldable pub import_key : List ℕ → List ℕ → Keys → Keys
import_key id key keys = assign bytes_key id key keys

-- `Get`: the answer, and what `out` holds after it.
unfoldable pub key_found : Option (List ℕ) → List ℕ → Bool × List ℕ
key_found none out = (false, out)
key_found (some key) out = (true, key)

unfoldable pub get_key : Keys → List ℕ → List ℕ → Bool × List ℕ
get_key keys id out = key_found (find bytes_key id keys) out

-- The loop of `EncryptToFile`.
unfoldable pub plain_bytes : Keys → List ℕ
plain_bytes [] = []
plain_bytes ((id, key) ∷ rest) = id ++ (key ++ plain_bytes rest)

-- The loop of `LoadFromFile`, with rounds enough for the bytes that are left: each takes 64.
unfoldable pub read_keys : ℕ → List ℕ → Keys → Keys
read_keys zero plain keys = keys
read_keys (suc fuel) plain keys =
    let next =
      read_keys fuel (drop 64 plain)
        (emplace bytes_key (take 32 plain) (take 32 (drop 32 plain)) keys) in
    if ltb (length plain) 64 then keys else next

module _ (c : Cipher) where
  -- `Encrypt`, with the random initial vector.
  unfoldable pub encrypt : List ℕ → List ℕ → List ℕ → List ℕ
  encrypt iv key plain =
      let size = to_int32 (length plain) in
      iv ++ (c.encrypt_update key iv plain size ++ c.encrypt_final key iv plain size)

  unfoldable pub finish : List ℕ → Option (List ℕ) → Result (List ℕ)
  finish update none = err bad_passphrase
  finish update (some final) = ok (update ++ final)

  -- `Decrypt`
  unfoldable pub decrypt : List ℕ → List ℕ → Result (List ℕ)
  decrypt key sealed = do
    throw_if (ltb (length sealed) 16) cipher_too_small
    let iv = take 16 sealed
    let body = drop 16 sealed
    let size = to_int32 (length body)
    finish (c.decrypt_update key iv body size) (c.decrypt_final key iv body size)

  -- `EncryptToFile`: what the file holds after it.
  unfoldable pub encrypt_to_file : List ℕ → List ℕ → Keys → List ℕ
  encrypt_to_file iv passphrase keys = encrypt iv (c.pbkdf2 passphrase) (plain_bytes keys)

  -- `LoadFromFile`, from the file that can be opened, or not.
  unfoldable pub load_from_file : List ℕ → Option (List ℕ) → Result Keys
  load_from_file passphrase none = err missing_keystore
  load_from_file passphrase (some sealed) = do
    plain ← decrypt (c.pbkdf2 passphrase) sealed
    ok (read_keys (length plain) plain [])
