-- ===== src/Common/Streams.antt =====
-- `std::ifstream` in binary mode, for the loaders of layer1-core and layer2-services: the bytes that are
-- left, and whether the stream is still good. `read` into a variable that holds zeros stores what is
-- left and fails if that is too little; on a failed stream it stores nothing.
use drachma_block_chain.Common.{
  ℕ, ◌-◌, ◌<◌, ◌^◌, ◌≤◌, ◌≡◌, refl, arith, List, [], ◌++◌, length, take, drop, replicate, Bool,
  true, false, ltb, le→ltb, lt→ltb, if◌then◌else◌, length-append, take-append, drop-append,
}
use drachma_block_chain.Common.Bytes.{le_bytes, le_value, length-le_bytes, le_value-le_bytes}

pub record Stream : Type 0 where
  pub rest : List ℕ
  pub good : Bool

abbrev pub open_bytes : List ℕ → Stream
open_bytes bytes = record { rest = bytes; good = true }

unfoldable pub read_bytes : ℕ → Stream → List ℕ × Stream
read_bytes n s =
    if s.good
    then if ltb (length s.rest) n
      then (s.rest ++ replicate (n - length s.rest) 0, record { rest = []; good = false })
      else (take n s.rest, record { rest = drop n s.rest; good = true })
    else (replicate n 0, s)

-- The same into a variable of `n` bytes that is read as a number.
unfoldable pub read_number : ℕ → Stream → ℕ × Stream
read_number n s = let (bytes, s') = read_bytes n s in (le_value bytes, s')

pub read_bytes_exact :
    (n : ℕ) (bs rest : List ℕ)
    → length bs ≡ n
    → read_bytes n (open_bytes (bs ++ rest)) ≡ (bs, open_bytes rest)
unfolding read_bytes
read_bytes_exact n bs rest e =
    rw
      (
        le→ltb (length (bs ++ rest)) n (omega (arith, e, length-append bs rest)),
        take-append bs rest n (omega (arith, e)),
        drop-append bs rest n (omega (arith, e)),
      )
      refl

pub read_number_exact :
    (n v : ℕ) (rest : List ℕ)
    → v < 256 ^ n
    → read_number n (open_bytes (le_bytes n v ++ rest)) ≡ (v, open_bytes rest)
unfolding read_number
read_number_exact n v rest h =
    rw (read_bytes_exact n (le_bytes n v) rest (length-le_bytes n v), le_value-le_bytes n v h) refl

pub read_bytes_fits :
    (n : ℕ) (bs : List ℕ)
    → n ≤ length bs
    → read_bytes n (open_bytes bs) ≡ (take n bs, open_bytes (drop n bs))
unfolding read_bytes
read_bytes_fits n bs h = rw (le→ltb (length bs) n h) refl

abbrev pub failed : Stream
failed = record { rest = []; good = false }

pub read_bytes_short :
    (n : ℕ) (bs : List ℕ)
    → length bs < n
    → read_bytes n (open_bytes bs) ≡ (bs ++ replicate (n - length bs) 0, failed)
unfolding read_bytes
read_bytes_short n bs h = rw (lt→ltb (length bs) n h) refl

-- On a failed stream every read fails.
pub read_bytes-failed : (n : ℕ) → read_bytes n failed ≡ (replicate n 0, failed)
unfolding read_bytes
read_bytes-failed n = refl
