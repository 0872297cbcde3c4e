-- ===== src/Common/Results.antt =====
-- What a function of the source answers: a value or the exception that it throws.
use Prim.Native.Nat.{ℕ}
use mathlib.Core.Path.{◌≡◌, refl}
use mathlib.Core.Bool.{Bool, true, false}

-- The `std::runtime_error`s and `std::invalid_argument`s of the source, one for each message.
pub data Error : Type 0 where
  uint32_overflow uint64_overflow var_bytes_overflow hash_overflow trailing_data : Error
  input_index_out_of_range negative_compact_target division_by_zero bit_out_of_range : Error
  missing_utxo spend_missing_utxo corrupt_utxo_set : Error
  cannot_open_blockstore unknown_height corrupt_blockstore block_too_small truncated_size : Error
  truncated_data missing_keystore cipher_too_small bad_passphrase : Error
  bad_genesis_nonce no_genesis_nonce : Error
  cannot_open_config filesystem_error : Error
  malformed_config_line : ℕ → Error
  unauthorized method_not_found expected_hash invalid_number number_out_of_range : Error

-- A call that returns, or that throws.
pub data Result {ι} (X : Type ι) : Type ι where
  err : Error → Result X
  ok : X → Result X

infixl 5 ◌>>=◌
-- What follows a call sees its value, and is skipped where it throws.
abbrev pub ◌>>=◌ {ι μ} : {X : Type ι} {Y : Type μ} → Result X → (X → Result Y) → Result Y
err thrown >>= next = err thrown
ok value >>= next = next value

infixl 5 ◌>>◌
abbrev pub ◌>>◌ {μ} : {Y : Type μ} → Result (Unit {0}) → Result Y → Result Y
err thrown >> next = err thrown
ok value >> next = next

-- `if (bad) throw e;`
abbrev pub throw_if : Bool → Error → Result (Unit {0})
throw_if bad e = elim bad [ true ↦ err e | false ↦ ok tt ]

-- Inversion of a successful bind.
pub >>=-eq-ok {ι μ} :
    {X : Type ι} {Y : Type μ} (call : Result X) (next : X → Result Y) {y : Y}
    → (call >>= next) ≡ ok y
    → (x : X) × (call ≡ ok x) × (next x ≡ ok y)
>>=-eq-ok (err thrown) next back = cc
>>=-eq-ok (ok value) next back = (value, refl, back)

pub ok_pair-injective :
    {A B : Type 0} {a c : A} {b d : B}
    → ◌≡◌ {A = Result (A × B)} (ok (a, b)) (ok (c, d))
    → (a ≡ c) × (b ≡ d)
ok_pair-injective e = (cc, cc)

pub ok-injective {ℓ} : {A : Type ℓ} {a b : A} → ok a ≡ ok b → a ≡ b
ok-injective e = cc
