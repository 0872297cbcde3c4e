-- ===== src/Miner/Hex.antt =====
-- `PrintHash` and `FromHex` of miners/cpu/main.cpp.
use drachma_block_chain.Common.{
  ℕ, ◌+◌, ◌*◌, ◌/◌, ◌%◌, ◌^◌, ◌<◌, ◌≡◌, refl, ap, ◌∙◌, arith, List, [], ◌∷◌, length, All, Bool,
  false, ◌==◌, some, ok, lt→ltb,
}
use drachma_block_chain.Common.Bytes.{IsByte}
use drachma_block_chain.Config.{is_space}
use drachma_block_chain.Config.Text.{drop_spaces_clean}
use drachma_block_chain.Miner.{
  digit_value, base_digit, scan_value, drop_prefix, drop_sign, negated, unsigned_value, stoul,
  from_pairs, from_hex, hex_char, print_hash,
}
use native.Mathlib.Nat.{mod-eq_of_lt}

base_digit-hex_char : (d : ℕ) → d < 16 → base_digit 16 (hex_char d) ≡ some d
unfolding base_digit digit_value hex_char
base_digit-hex_char d h = ground arith

no_space : (d : ℕ) → d < 16 → is_space (hex_char d) ≡ false
unfolding is_space hex_char
no_space d h = ground arith

no_sign : (d : ℕ) → d < 16 → ((hex_char d == 45) ≡ false) × ((hex_char d == 43) ≡ false)
unfolding hex_char
no_sign d h = (ground arith, ground arith)

scan_step :
    (v c d : ℕ) (cs : List ℕ)
    → base_digit 16 c ≡ some d
    → scan_value 16 v (c ∷ cs) ≡ scan_value 16 (v * 16 + d) cs
unfolding scan_value
scan_step v c d cs e = rw (scan_value, e)

scan_pair :
    (hi lo : ℕ)
    → hi < 16
    → lo < 16
    → scan_value 16 0 (hex_char hi ∷ hex_char lo ∷ []) ≡ hi * 16 + lo
scan_pair hi lo h l =
    scan_step 0 (hex_char hi) hi (hex_char lo ∷ []) (base_digit-hex_char hi h)
    ∙ scan_step (0 * 16 + hi) (hex_char lo) lo [] (base_digit-hex_char lo l)
    ∙ unfold scan_value in omega arith

unsigned_pair :
    (c d : ℕ) (cs : List ℕ) (v : ℕ)
    → base_digit 16 c ≡ some d
    → scan_value 16 0 (c ∷ cs) ≡ v
    → v < 2 ^ 64
    → unsigned_value 16 false (c ∷ cs) ≡ ok v
unfolding unsigned_value negated
unsigned_pair c d cs v e same lt = rw (unsigned_value, e, same, lt→ltb v (2 ^ 64) lt)

unsigned_front :
    (c : ℕ) (cs : List ℕ)
    → (c == 45) ≡ false
    → (c == 43) ≡ false
    → drop_sign (c ∷ cs) ≡ (false, c ∷ cs)
unfolding drop_sign
unsigned_front c cs minus plus = rw (minus, plus)

stoul-pair :
    (hi lo : ℕ) → hi < 16 → lo < 16 → stoul 16 (hex_char hi ∷ hex_char lo ∷ []) ≡ ok (hi * 16 + lo)
unfolding stoul drop_prefix
stoul-pair hi lo h l =
    let text = hex_char hi ∷ hex_char lo ∷ [] in
    let (minus, plus) = no_sign hi h in
    let front =
      ap drop_sign (drop_spaces_clean text (no_space hi h))
      ∙ unsigned_front (hex_char hi) (hex_char lo ∷ []) minus plus in
    ap (λ (r : Bool × List ℕ). unsigned_value 16 r.0 (drop_prefix 16 r.1)) front
    ∙ unsigned_pair (hex_char hi) hi (hex_char lo ∷ []) (hi * 16 + lo) (base_digit-hex_char hi h)
        (scan_pair hi lo h l) (omega arith)

stoul-byte : (b : ℕ) → IsByte b → stoul 16 (hex_char (b / 16) ∷ hex_char (b % 16) ∷ []) ≡ ok b
stoul-byte b h =
    stoul-pair (b / 16) (b % 16) (omega arith) (omega arith) ∙ ap (λ (n : ℕ). ok n) (omega arith)

from_pairs-print_hash : (bs : List ℕ) → All IsByte bs → from_pairs (print_hash bs) ≡ ok bs
unfolding from_pairs print_hash
from_pairs-print_hash [] h = refl
from_pairs-print_hash (b ∷ bs) h =
    rw (stoul-byte b h.0, from_pairs-print_hash bs h.1)
      (ap (λ (n : ℕ). ok (n ∷ bs)) (mod-eq_of_lt h.0))

length-print_hash : (bs : List ℕ) → length (print_hash bs) ≡ 2 * length bs
unfolding print_hash
length-print_hash [] = omega arith
length-print_hash (b ∷ bs) = omega (arith, length-print_hash bs)

-- FromHex reads back the digits that PrintHash prints for a hash of 32 bytes.
pub from_hex-print_hash :
    (hash : List ℕ) → length hash ≡ 32 → All IsByte hash → from_hex (print_hash hash) ≡ ok hash
unfolding from_hex
from_hex-print_hash hash n h = rw (length-print_hash hash, n) (from_pairs-print_hash hash h)
