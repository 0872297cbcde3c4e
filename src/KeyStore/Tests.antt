-- ===== src/KeyStore/Tests.antt =====
-- Runs of layer2-services/wallet/keystore/keystore.cpp with a cipher that adds a mark to the text, and its
-- theorem at a concrete store.
use drachma_block_chain.Common.{
  ℕ, ◌+◌, ◌≤◌, arith, length, List, ap, ◌≡◌, refl, ◌∙◌, [], ◌∷◌, ◌++◌, append-nil, take, replicate,
  true, some, ok, err, bytes_eq, cipher_too_small,
}
use drachma_block_chain.Common.Int.{ℤ, pos, negsuc}
use drachma_block_chain.Common.Maps.{has, find, assign}
use drachma_block_chain.KeyStore.{
  Cipher, Keys, import_key, get_key, key_found, encrypt_to_file, load_from_file, decrypt,
}
use drachma_block_chain.KeyStore.Sealing.{load_from_file-encrypt_to_file}

-- A stand-in for AES that encrypts nothing, and does nothing for a length that is negative.
abbrev as_long : List ℕ → ℤ → List ℕ
as_long bytes (pos n) = take n bytes
as_long bytes (negsuc n) = []

abbrev plain_cipher : Cipher
plain_cipher = record {
  pbkdf2 = λ passphrase. take 32 (passphrase ++ replicate 32 0);
  encrypt_update = λ key iv plain size. as_long plain size;
  encrypt_final = λ key iv plain size. [];
  decrypt_update = λ key iv body size. as_long body size;
  decrypt_final = λ key iv body size. some [];
}

take_all : (xs : List ℕ) → take (length xs) xs ≡ xs
take_all [] = refl
take_all (x ∷ xs) = ap (λ t. x ∷ t) (take_all xs)

plain_decrypts :
    (plain : List ℕ)
    → let sealed = take (length plain) plain ++ [] in
      (length sealed ≤ length plain + 16)
      × ((final : List ℕ) × (some [] ≡ some final) × (take (length sealed) sealed ++ final ≡ plain))
plain_decrypts plain =
    let same = append-nil (take (length plain) plain) ∙ take_all plain in
    (
      omega (arith, ap length same),
      ([], refl, append-nil _ ∙ ap (λ xs. take (length xs) xs) same ∙ take_all plain),
    )

abbrev one_key : Keys
one_key = (replicate 32 1, replicate 32 2) ∷ []

got :
    get_key (import_key (replicate 32 1) (replicate 32 5) one_key) (replicate 32 1) []
    ≡ (true, replicate 32 5)
unfolding get_key import_key key_found find assign bytes_eq
got = refl

too_small : load_from_file plain_cipher [] (some (1 ∷ [])) ≡ err cipher_too_small
unfolding load_from_file decrypt
too_small = refl

load_from_file-encrypt_to_file_example :
    load_from_file plain_cipher
      (9 ∷ [])
      (some (encrypt_to_file plain_cipher (replicate 16 4) (9 ∷ []) one_key))
    ≡ ok one_key
unfolding has
load_from_file-encrypt_to_file_example =
    load_from_file-encrypt_to_file plain_cipher (λ key iv plain n small. plain_decrypts plain)
      (replicate 16 4) (9 ∷ []) one_key refl (omega arith) ((refl, refl), tt) (refl, tt)
