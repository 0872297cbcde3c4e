-- ===== src/Gpu.antt =====
-- miners/gpu-cuda/kernel.cu. A `uint32_t` is a number below 2 ^ 32. A thread of the grid is its number and
-- what it read of the flag when it started; what the threads share is the flag and the solution, which a
-- thread changes in one step, the exchange of the flag.
pub mod Nonce
mod Tests
use Prim.Native.Nat.{bit_xor}
use drachma_block_chain.Common.{
  ℕ, zero, suc, ◌+◌, ◌-◌, ◌*◌, ◌/◌, ◌%◌, ◌^◌, bit_and, bit_or, List, [], ◌∷◌, ◌++◌, take, length,
  replicate, get_elem?, Bool, true, false, leb, not, ◌&&◌, if◌then◌else◌, none, some,
}

unfoldable pub rotr : ℕ → ℕ → ℕ
rotr x n = bit_or (x / 2 ^ n) (x * 2 ^ (32 - n) % 2 ^ 32)

unfoldable pub ch : ℕ → ℕ → ℕ → ℕ
ch x y z = bit_xor (bit_and x y) (bit_and (2 ^ 32 - 1 - x) z)

unfoldable pub maj : ℕ → ℕ → ℕ → ℕ
maj x y z = bit_xor (bit_xor (bit_and x y) (bit_and x z)) (bit_and y z)

unfoldable pub big0 : ℕ → ℕ
big0 x = bit_xor (bit_xor (rotr x 2) (rotr x 13)) (rotr x 22)

unfoldable pub big1 : ℕ → ℕ
big1 x = bit_xor (bit_xor (rotr x 6) (rotr x 11)) (rotr x 25)

unfoldable pub sm0 : ℕ → ℕ
sm0 x = bit_xor (bit_xor (rotr x 7) (rotr x 18)) (x / 2 ^ 3)

unfoldable pub sm1 : ℕ → ℕ
sm1 x = bit_xor (bit_xor (rotr x 17) (rotr x 19)) (x / 2 ^ 10)

-- `K`
abbrev pub round_constants : List ℕ
round_constants =
    0x428a2f98 ∷ 0x71374491 ∷ 0xb5c0fbcf ∷ 0xe9b5dba5 ∷ 0x3956c25b ∷ 0x59f111f1 ∷ 0x923f82a4
    ∷ 0xab1c5ed5 ∷ 0xd807aa98 ∷ 0x12835b01 ∷ 0x243185be ∷ 0x550c7dc3 ∷ 0x72be5d74 ∷ 0x80deb1fe
    ∷ 0x9bdc06a7 ∷ 0xc19bf174 ∷ 0xe49b69c1 ∷ 0xefbe4786 ∷ 0x0fc19dc6 ∷ 0x240ca1cc ∷ 0x2de92c6f
    ∷ 0x4a7484aa ∷ 0x5cb0a9dc ∷ 0x76f988da ∷ 0x983e5152 ∷ 0xa831c66d ∷ 0xb00327c8 ∷ 0xbf597fc7
    ∷ 0xc6e00bf3 ∷ 0xd5a79147 ∷ 0x06ca6351 ∷ 0x14292967 ∷ 0x27b70a85 ∷ 0x2e1b2138 ∷ 0x4d2c6dfc
    ∷ 0x53380d13 ∷ 0x650a7354 ∷ 0x766a0abb ∷ 0x81c2c92e ∷ 0x92722c85 ∷ 0xa2bfe8a1 ∷ 0xa81a664b
    ∷ 0xc24b8b70 ∷ 0xc76c51a3 ∷ 0xd192e819 ∷ 0xd6990624 ∷ 0xf40e3585 ∷ 0x106aa070 ∷ 0x19a4c116
    ∷ 0x1e376c08 ∷ 0x2748774c ∷ 0x34b0bcb5 ∷ 0x391c0cb3 ∷ 0x4ed8aa4a ∷ 0x5b9cca4f ∷ 0x682e6ff3
    ∷ 0x748f82ee ∷ 0x78a5636f ∷ 0x84c87814 ∷ 0x8cc70208 ∷ 0x90befffa ∷ 0xa4506ceb ∷ 0xbef9a3f7
    ∷ 0xc67178f2 ∷ []

-- The eight words of `state`, and the eight variables of a round.
pub record Words : Type 0 where
  pub a : ℕ
  pub b : ℕ
  pub c : ℕ
  pub d : ℕ
  pub e : ℕ
  pub f : ℕ
  pub g : ℕ
  pub h : ℕ

-- The body of the loop of `sha256_round`, with `K[i]` and `w[i]`.
unfoldable pub sha_round : ℕ → ℕ → Words → Words
sha_round k w s =
    let t1 = s.h + big1 s.e + ch s.e s.f s.g + k + w in
    let t2 = big0 s.a + maj s.a s.b s.c in
    record {
      a = (t1 + t2) % 2 ^ 32;
      b = s.a;
      c = s.b;
      d = s.c;
      e = (s.d + t1) % 2 ^ 32;
      f = s.e;
      g = s.f;
      h = s.g;
    }

unfoldable pub sha_rounds : List ℕ → List ℕ → Words → Words
sha_rounds (k ∷ ks) (w ∷ ws) s = sha_rounds ks ws (sha_round k w s)
sha_rounds _ _ s = s

-- `sha256_round`
unfoldable pub sha256_round : Words → List ℕ → Words
sha256_round state w =
    let s = sha_rounds round_constants w state in
    record {
      a = (state.a + s.a) % 2 ^ 32;
      b = (state.b + s.b) % 2 ^ 32;
      c = (state.c + s.c) % 2 ^ 32;
      d = (state.d + s.d) % 2 ^ 32;
      e = (state.e + s.e) % 2 ^ 32;
      f = (state.f + s.f) % 2 ^ 32;
      g = (state.g + s.g) % 2 ^ 32;
      h = (state.h + s.h) % 2 ^ 32;
    }

-- `w[i]`, in an array that is filled from the front.
unfoldable pub word_at : List ℕ → ℕ → ℕ
word_at w i = elim (get_elem? w i) [ none ↦ 0 | some x ↦ x ]

-- The loop from 16 to 63, over the rounds left.
unfoldable pub extend : ℕ → List ℕ → List ℕ
extend zero w = w
extend (suc left) w =
    let i = length w in
    let x =
      sm1 (word_at w (i - 2)) + word_at w (i - 7) + sm0 (word_at w (i - 15)) + word_at w (i - 16) in
    extend left (w ++ x % 2 ^ 32 ∷ [])

-- The loop that fills the first words from bytes, over the words left.
unfoldable pub be_words : ℕ → List ℕ → List ℕ
be_words (suc left) (p ∷ q ∷ r ∷ s ∷ bytes) =
    bit_or (bit_or (bit_or (p * 2 ^ 24) (q * 2 ^ 16)) (r * 2 ^ 8)) s ∷ be_words left bytes
be_words _ _ = []

-- `header[76]` to `header[79]`.
unfoldable pub nonce_bytes : ℕ → List ℕ
nonce_bytes nonce =
    bit_and (nonce / 2 ^ 24) 0xff
    ∷ bit_and (nonce / 2 ^ 16) 0xff
    ∷ bit_and (nonce / 2 ^ 8) 0xff
    ∷ bit_and nonce 0xff
    ∷ []

abbrev pub initial_state : Words
initial_state = record {
  a = 0x6a09e667;
  b = 0xbb67ae85;
  c = 0x3c6ef372;
  d = 0xa54ff53a;
  e = 0x510e527f;
  f = 0x9b05688c;
  g = 0x1f83d9ab;
  h = 0x5be0cd19;
}

abbrev pub words_list : Words → List ℕ
words_list s = s.a ∷ s.b ∷ s.c ∷ s.d ∷ s.e ∷ s.f ∷ s.g ∷ s.h ∷ []

-- `w0` to `w3`
unfoldable pub first_block : List ℕ → List ℕ
first_block header = extend 48 (be_words 16 header)

unfoldable pub second_block : List ℕ
second_block = extend 48 (0x80000000 ∷ replicate 14 0 ++ (80 * 8) ∷ [])

unfoldable pub third_block : Words → List ℕ
third_block state = extend 48 (words_list state ++ (0x80000000 ∷ replicate 6 0 ++ (32 * 8) ∷ []))

unfoldable pub fourth_block : List ℕ
fourth_block = extend 48 (replicate 8 0 ++ (0x80000000 ∷ replicate 6 0 ++ (32 * 8) ∷ []))

-- `state2`, for the bytes of the header.
unfoldable pub kernel_hash : List ℕ → Words
kernel_hash header =
    let state = sha256_round (sha256_round initial_state (first_block header)) second_block in
    sha256_round (sha256_round initial_state (third_block state)) fourth_block

-- The flag `*found`, and `solution`.
pub record Shared : Type 0 where
  pub found : Bool
  pub solution : List ℕ

-- `sha256d_kernel` in the thread `gid`; `seen` is the flag that it read at its start.
unfoldable pub sha256d_kernel : List ℕ → ℕ → List ℕ → ℕ → Bool → Shared → Shared
sha256d_kernel header76 nonce_start target gid seen shared =
    let nonce = (nonce_start + gid) % 2 ^ 32 in
    let state2 = kernel_hash (take 76 header76 ++ nonce_bytes nonce) in
    if seen
    then shared
    else if leb state2.h (word_at target 7) && not shared.found
    then record { found = true; solution = nonce ∷ words_list state2 }
    else shared

-- The threads of a launch, in the order of their exchanges.
unfoldable pub launch : List ℕ → ℕ → List ℕ → List (ℕ × Bool) → Shared → Shared
launch header76 nonce_start target [] shared = shared
launch header76 nonce_start target ((gid, seen) ∷ threads) shared =
    launch header76 nonce_start target threads
      (sha256d_kernel header76 nonce_start target gid seen shared)
