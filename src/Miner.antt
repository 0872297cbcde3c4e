-- ===== src/Miner.antt =====
-- miners/cpu/main.cpp. The arguments are those behind the name of the program, each the list of its bytes;
-- the clock and the printed texts are left out, except for the hash in hexadecimal digits.
pub mod Search
pub mod Hex
mod Tests
use drachma_block_chain.Common.{
  ℕ, zero, suc, ◌+◌, ◌-◌, ◌*◌, ◌/◌, ◌%◌, ◌^◌, List, [], ◌∷◌, ◌++◌, length, replicate, Bool, true,
  false, ltb, leb, ◌==◌, not, ◌&&◌, ◌||◌, if◌then◌else◌, Option, none, some, Result, ok, err,
  throw_if, ◌>>=◌, ◌>>◌, expected_hash, invalid_number, number_out_of_range,
}
use drachma_block_chain.Crypto.{OpenSsl}
use drachma_block_chain.Block.{BlockHeader, block_hash}
use drachma_block_chain.Consensus.Params.{main_params}
use drachma_block_chain.Pow.{check_proof_of_work}
use drachma_block_chain.Config.{drop_spaces}

-- The value of a digit in a base up to 36.
unfoldable pub digit_value : ℕ → Option ℕ
digit_value c =
    if leb 48 c && leb c 57
    then some (c - 48)
    else if leb 97 c && leb c 122
    then some (c - 87)
    else if leb 65 c && leb c 90
    then some (c - 55)
    else none

unfoldable pub base_digit : ℕ → ℕ → Option ℕ
base_digit base c = elim (digit_value c) [
  | none ↦ none
  | some d ↦ if ltb d base then some d else none
]

-- `std::stoul`: spaces, a sign, `0x` before a digit in base 16, and the digits.
unfoldable pub scan_value : ℕ → ℕ → List ℕ → ℕ
scan_value base value [] = value
scan_value base value (c ∷ cs) = elim (base_digit base c) [
  | none ↦ value
  | some d ↦ scan_value base (value * base + d) cs
]

unfoldable pub is_hex_digit : ℕ → Bool
is_hex_digit c = elim (base_digit 16 c) [ none ↦ false | some d ↦ true ]

unfoldable pub drop_prefix : ℕ → List ℕ → List ℕ
drop_prefix base (a ∷ b ∷ c ∷ cs) =
    if base == 16 && (a == 48 && ((b == 120 || b == 88) && is_hex_digit c))
    then c ∷ cs
    else a ∷ b ∷ c ∷ cs
drop_prefix base text = text

unfoldable pub drop_sign : List ℕ → Bool × List ℕ
drop_sign [] = (false, [])
drop_sign (c ∷ cs) = (c == 45, if c == 45 || c == 43 then cs else c ∷ cs)

unfoldable pub negated : Bool → ℕ → ℕ
negated true v = (2 ^ 64 - v) % 2 ^ 64
negated false v = v

unfoldable pub unsigned_value : ℕ → Bool → List ℕ → Result ℕ
unsigned_value base minus [] = err invalid_number
unsigned_value base minus (c ∷ cs) = elim (base_digit base c) [
  | none ↦ err invalid_number
  | some d ↦
      let v = scan_value base 0 (c ∷ cs) in
      if ltb v (2 ^ 64) then ok (negated minus v) else err number_out_of_range
]

unfoldable pub stoul : ℕ → List ℕ → Result ℕ
stoul base text =
    let (minus, rest) = drop_sign (drop_spaces text) in
    unsigned_value base minus (drop_prefix base rest)

-- The loop of `FromHex`.
unfoldable pub from_pairs : List ℕ → Result (List ℕ)
from_pairs (a ∷ b ∷ rest) = do
  byte ← stoul 16 (a ∷ b ∷ [])
  bytes ← from_pairs rest
  ok (byte % 2 ^ 8 ∷ bytes)
from_pairs _ = ok []

-- `FromHex`
unfoldable pub from_hex : List ℕ → Result (List ℕ)
from_hex hex = throw_if (not (length hex == 64)) expected_hash >> from_pairs hex

-- `PrintHash`
unfoldable pub hex_char : ℕ → ℕ
hex_char d = if ltb d 10 then 48 + d else 87 + d

unfoldable pub print_hash : List ℕ → List ℕ
print_hash [] = []
print_hash (b ∷ bs) = hex_char (b / 16) ∷ hex_char (b % 16) ∷ print_hash bs

-- How the program ends: with the exit codes 1, 0 (and the header that it found) and 2. `searching` is the
-- loop that has used up its fuel.
pub data Outcome : Type 0 where
  usage exhausted : Outcome
  found searching : BlockHeader → Outcome

module _ (ssl : OpenSsl) where
  -- `while (true)`, on fuel.
  unfoldable pub try_nonces : ℕ → BlockHeader → Result Outcome
  try_nonces zero header = ok (searching header)
  try_nonces (suc fuel) header = do
    good ← check_proof_of_work (block_hash ssl header) header.bits main_params
    let next : BlockHeader = record header { nonce = (header.nonce + 1) % 2 ^ 32 }
    elim good [
      | true ↦ ok (found header)
      | false ↦ elim (next.nonce == 0) [ true ↦ ok exhausted | false ↦ try_nonces fuel next ]
    ]

  -- A nonce has 32 bits, so 2 ^ 32 rounds suffice.
  unfoldable pub search_nonce : BlockHeader → Result Outcome
  search_nonce header = try_nonces (2 ^ 32) header

  -- `main`
  unfoldable pub main : List (List ℕ) → Result Outcome
  main (version ∷ prev_hash ∷ merkle_root ∷ time ∷ bits ∷ more) = do
    v ← stoul 10 version
    prev ← from_hex prev_hash
    root ← from_hex merkle_root
    t ← stoul 10 time
    b ← stoul 16 bits
    search_nonce (record {
      version = v % 2 ^ 32;
      prev_block_hash = prev;
      merkle_root = root;
      time = t % 2 ^ 32;
      bits = b % 2 ^ 32;
      nonce = 0;
    })
  main _ = ok usage
