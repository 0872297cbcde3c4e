-- ===== src/KeyStore/Sealing.antt =====
-- `EncryptToFile` and `LoadFromFile` of layer2-services/wallet/keystore/keystore.cpp against one another.
use drachma_block_chain.Common.{
  ℕ, zero, suc, ◌+◌, ◌*◌, ◌^◌, ◌<◌, ◌≤◌, ◌≡◌, refl, sym, ap, ◌∙◌, arith, List, [], ◌∷◌, ◌++◌,
  append_assoc, length, length-append, drop, take-append, drop-append, some, le→ltb, ok,
}
use drachma_block_chain.Common.Int.{pos, to_int32_small}
use drachma_block_chain.Common.Maps.{bytes_key, emplace}
use drachma_block_chain.Common.Maps.Distinct.{IsDistinct, emplace_all, emplace_all_lem}
use drachma_block_chain.KeyStore.{
  Cipher, Keys, plain_bytes, read_keys, encrypt, decrypt, finish, encrypt_to_file, load_from_file,
}

-- Identifiers and keys are 32 bytes.
abbrev pub IsKeys : Keys → Type 0
IsKeys [] = Unit
IsKeys ((id, key) ∷ rest) = ((length id ≡ 32) × (length key ≡ 32)) × IsKeys rest

plain_step :
    (id key : List ℕ) (rest : Keys)
    → plain_bytes ((id, key) ∷ rest) ≡ id ++ (key ++ plain_bytes rest)
unfolding plain_bytes
plain_step id key rest = refl

read_round :
    (fuel : ℕ) (id key more : List ℕ) (keys : Keys)
    → length id ≡ 32
    → length key ≡ 32
    → read_keys (suc fuel) (id ++ (key ++ more)) keys
      ≡ read_keys fuel more (emplace bytes_key id key keys)
unfolding read_keys
read_round fuel id key more keys i k =
    let both : drop 64 (id ++ (key ++ more)) ≡ more =
      ap (drop 64) (sym (append_assoc id key more))
      ∙ drop-append (id ++ key) more 64 (omega (arith, length-append id key)) in
    rw
      (
        le→ltb (length (id ++ (key ++ more))) 64
            (omega (arith, i, k, length-append id (key ++ more), length-append key more)),
        both,
        take-append id (key ++ more) 32 (sym i),
        drop-append id (key ++ more) 32 (sym i),
        take-append key more 32 (sym k),
      )
      refl

read_keys_lem :
    (fuel : ℕ) (entries keys : Keys)
    → IsKeys entries
    → length (plain_bytes entries) ≤ fuel
    → read_keys fuel (plain_bytes entries) keys ≡ emplace_all bytes_key entries keys
read_keys_lem zero [] keys v h = unfold read_keys emplace_all in refl
read_keys_lem (suc fuel) [] keys v h = unfold read_keys emplace_all plain_bytes in refl
read_keys_lem zero ((id, key) ∷ rest) keys v h = absurd (
    omega (
      arith,
      ap length (plain_step id key rest),
      v.0.0,
      length-append id (key ++ plain_bytes rest),
    ))
read_keys_lem (suc fuel) ((id, key) ∷ rest) keys v h =
    let more = plain_bytes rest in
    let left : length more ≤ fuel = omega (
      arith,
      ap length (plain_step id key rest),
      v.0.0,
      length-append id (key ++ more),
      length-append key more,
    ) in
    ap (λ t. read_keys (suc fuel) t keys) (plain_step id key rest)
    ∙ read_round fuel id key more keys v.0.0 v.0.1
    ∙ read_keys_lem fuel rest (emplace bytes_key id key keys) v.1 left
    ∙ unfold emplace_all in refl

module _ (c : Cipher) where
  -- What AES-256-CBC makes of a text whose length is passed as it is.
  abbrev body : List ℕ → List ℕ → List ℕ → List ℕ
  body key iv plain =
      c.encrypt_update key iv plain (pos (length plain))
      ++ c.encrypt_final key iv plain (pos (length plain))

  -- What AES-256-CBC gives, with a key and an initial vector of 16 bytes, for a text shorter than 2 ^ 31 - 16
  -- bytes: the encryption adds at most 16 bytes, and with the same key and vector the two calls of the
  -- decryption succeed and append that text.
  abbrev pub Decrypts : Type 0
  Decrypts =
      (key iv plain : List ℕ)
      → length iv ≡ 16
      → length plain + 16 < 2 ^ 31
      → let size = pos (length (body key iv plain)) in
        (length (body key iv plain) ≤ length plain + 16)
        × ((final : List ℕ) × (c.decrypt_final key iv (body key iv plain) size ≡ some final)
            × (c.decrypt_update key iv (body key iv plain) size ++ final ≡ plain))

  encrypt-body :
      (iv key plain : List ℕ)
      → length plain < 2 ^ 31
      → encrypt c iv key plain ≡ iv ++ body key iv plain
  unfolding encrypt
  encrypt-body iv key plain small =
      ap (λ size. iv ++ (c.encrypt_update key iv plain size ++ c.encrypt_final key iv plain size))
        (to_int32_small (length plain) small)

  decrypt-parts :
      (iv key sealed : List ℕ)
      → length iv ≡ 16
      → length sealed < 2 ^ 31
      → decrypt c key (iv ++ sealed)
        ≡ finish c
            (c.decrypt_update key iv sealed (pos (length sealed)))
            (c.decrypt_final key iv sealed (pos (length sealed)))
  unfolding decrypt
  decrypt-parts iv key sealed n small =
      rw
        (
          le→ltb (length (iv ++ sealed)) 16 (omega (arith, n, length-append iv sealed)),
          take-append iv sealed 16 (sym n),
          drop-append iv sealed 16 (sym n),
          to_int32_small (length sealed) small,
        )
        refl

  decrypt-encrypt :
      (right : Decrypts) (iv key plain : List ℕ)
      → length iv ≡ 16
      → length plain + 16 < 2 ^ 31
      → decrypt c key (encrypt c iv key plain) ≡ ok plain
  unfolding finish
  decrypt-encrypt right iv key plain n small =
      let (padded, (final, last, whole)) = right key iv plain n small in
      ap (decrypt c key) (encrypt-body iv key plain (omega (arith, small)))
      ∙ decrypt-parts iv key (body key iv plain) n (omega (arith, padded, small))
      ∙ rw last (ap ok whole)

  length-plain_bytes : (keys : Keys) → IsKeys keys → length (plain_bytes keys) ≡ 64 * length keys
  length-plain_bytes [] v = unfold plain_bytes in omega arith
  length-plain_bytes ((id, key) ∷ rest) v = omega (
    arith,
    ap length (plain_step id key rest),
    v.0.0,
    v.0.1,
    length-append id (key ++ plain_bytes rest),
    length-append key (plain_bytes rest),
    length-plain_bytes rest v.1,
  )

  -- Fewer than 2 ^ 25 keys that were written to a file are loaded again under the same passphrase, whatever
  -- the initial vector of 16 bytes was, if the cipher decrypts what it encrypts: the keys and their names
  -- are 32 bytes each, and no name stands twice. More keys would not fit the `int` length of OpenSSL.
  pub load_from_file-encrypt_to_file :
      (right : Decrypts) (iv passphrase : List ℕ) (keys : Keys)
      → length iv ≡ 16
      → length keys < 2 ^ 25
      → IsKeys keys
      → IsDistinct bytes_key keys
      → load_from_file c passphrase (some (encrypt_to_file c iv passphrase keys)) ≡ ok keys
  unfolding load_from_file encrypt_to_file
  load_from_file-encrypt_to_file right iv passphrase keys n few v d =
      let plain = plain_bytes keys in
      let small : length plain + 16 < 2 ^ 31 = omega (arith, few, length-plain_bytes keys v) in
      rw (decrypt-encrypt right iv (c.pbkdf2 passphrase) plain n small) (
        ap ok (
          read_keys_lem (length plain) keys [] v (omega arith)
          ∙ emplace_all_lem bytes_key keys [] d))
