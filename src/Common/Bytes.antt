-- ===== src/Common/Bytes.antt =====
-- Little-endian numbers in byte sequences: `WriteUint32`, `WriteUint64`, `ReadUint32` and `ReadUint64`
-- of layer1-core/tx/transaction.cpp. A read returns the value and the bytes that it has not reached,
-- `data` from `offset` on; so `offset + 4 > data.size()` is a test on the length of that rest.
use drachma_block_chain.Common.{
  ℕ, zero, suc, ◌+◌, ◌*◌, ◌/◌, ◌%◌, ◌^◌, ◌≤◌, ◌<◌, ◌≡◌, refl, sym, ap, ◌∙◌, arith, bit_and, bit_or,
  List, [], ◌∷◌, ◌++◌, append-nil, append_assoc, length, length-append, take, drop, take-append,
  drop-append, take-append-drop, length-take, All, All-append, All-take, All-drop, ltb, le→ltb,
  Result, ok, throw_if, ok_pair-injective, ◌>>◌, uint32_overflow, uint64_overflow,
}
use drachma_block_chain.Common.Bits.{bit_and-mask, bit_or-shift, pow-pos}
use mathlib.Core.Path.{subst}
use native.Mathlib.Nat.{div-div-eq-div-mul, pow-suc, div-one}
use native.Mathlib.Numerals.{towards_suc}

abbrev pub IsByte : ℕ → Type 0
IsByte b = b < 256

abbrev pub IsU32 : ℕ → Type 0
IsU32 v = v < 2 ^ 32

abbrev pub IsU64 : ℕ → Type 0
IsU64 v = v < 2 ^ 64

-- `for (i = ..; i < ..; ++i) out.push_back((v >> (8 * i)) & 0xFF)`, with the rounds left first.
write_loop : ℕ → ℕ → List ℕ → ℕ → List ℕ
write_loop zero i out v = out
write_loop (suc k) i out v = write_loop k (suc i) (out ++ (bit_and (v / 2 ^ (8 * i)) 0xff ∷ [])) v

unfoldable pub write_uint32 : List ℕ → ℕ → List ℕ
unfolding write_loop
write_uint32 out v = write_loop 4 0 out v

unfoldable pub write_uint64 : List ℕ → ℕ → List ℕ
unfolding write_loop
write_uint64 out v = write_loop 8 0 out v

-- `for (i = ..; i < ..; ++i) v |= data[offset++] << (8 * i)`. The data ends no sooner than the loop,
-- by the test that its callers make.
read_loop : ℕ → ℕ → ℕ → List ℕ → ℕ × List ℕ
read_loop zero i v src = (v, src)
read_loop (suc k) i v [] = (v, [])
read_loop (suc k) i v (b ∷ src) = read_loop k (suc i) (bit_or v (b * 2 ^ (8 * i))) src

unfoldable pub read_uint32 : List ℕ → Result (ℕ × List ℕ)
unfolding read_loop
read_uint32 src = do throw_if (ltb (length src) 4) uint32_overflow; ok (read_loop 4 0 0 src)

unfoldable pub read_uint64 : List ℕ → Result (ℕ × List ℕ)
unfolding read_loop
read_uint64 src = do throw_if (ltb (length src) 8) uint64_overflow; ok (read_loop 8 0 0 src)

-- The first `k` bytes of a number, lowest first, and the number that bytes stand for.
unfoldable pub le_bytes : ℕ → ℕ → List ℕ
le_bytes zero v = []
le_bytes (suc k) v = (v % 256) ∷ le_bytes k (v / 256)

unfoldable pub le_value : List ℕ → ℕ
le_value [] = 0
le_value (b ∷ bs) = b + le_value bs * 256

pub length-le_bytes : (k v : ℕ) → length (le_bytes k v) ≡ k
unfolding le_bytes
length-le_bytes zero v = refl
length-le_bytes (suc k) v = ap suc (length-le_bytes k (v / 256))

pub le_bytes-IsByte : (k v : ℕ) → All IsByte (le_bytes k v)
unfolding le_bytes
le_bytes-IsByte zero v = tt
le_bytes-IsByte (suc k) v = (omega arith, le_bytes-IsByte k (v / 256))

pub le_value-le_bytes : (k v : ℕ) → v < 256 ^ k → le_value (le_bytes k v) ≡ v
unfolding le_bytes le_value
le_value-le_bytes zero v h = omega arith
le_value-le_bytes (suc k) v h =
    omega (arith, pow-suc 256 k, le_value-le_bytes k (v / 256) (omega (arith, pow-suc 256 k)))

pub le_bytes-le_value : (bs : List ℕ) → All IsByte bs → le_bytes (length bs) (le_value bs) ≡ bs
unfolding le_bytes le_value
le_bytes-le_value [] h = refl
le_bytes-le_value (b ∷ bs) h = ground (arith, le_bytes-le_value bs h.1)

pub le_value-lt : (bs : List ℕ) → All IsByte bs → le_value bs < 256 ^ length bs
unfolding le_value
le_value-lt [] h = omega arith
le_value-lt (b ∷ bs) h = omega (arith, pow-suc 256 (length bs), le_value-lt bs h.1)

pub shift_eight : (i : ℕ) → 2 ^ (8 * suc i) ≡ 2 ^ (8 * i) * 256
shift_eight i = ap (λ (t : ℕ). 2 ^ t) (arith_step i) ∙ simp towards_suc (omega arith)
  where
    arith_step : (i : ℕ) → 8 * suc i ≡ 8 * i + 8
    arith_step i = omega arith

write_loop-le_bytes :
    (k i : ℕ) (out : List ℕ) (v : ℕ) → write_loop k i out v ≡ out ++ le_bytes k (v / 2 ^ (8 * i))
unfolding write_loop le_bytes
write_loop-le_bytes zero i out v = sym (append-nil out)
write_loop-le_bytes (suc k) i out v =
    write_loop-le_bytes k (suc i) _ v
    ∙ append_assoc out _ _
    ∙ ap (λ bs. out ++ bs) (ap₂' (bit_and-mask 8 (v / 2 ^ (8 * i))) next)
  where
    next : v / 2 ^ (8 * suc i) ≡ v / 2 ^ (8 * i) / 256
    next = ap (λ (t : ℕ). v / t) (shift_eight i) ∙ sym (div-div-eq-div-mul v _ 256)

    ap₂' : {a b c d : ℕ} → a ≡ b → c ≡ d → a ∷ le_bytes k c ≡ b ∷ le_bytes k d
    ap₂' p q = cc

pub write_uint32_lem : (out : List ℕ) (v : ℕ) → write_uint32 out v ≡ out ++ le_bytes 4 v
unfolding write_uint32
write_uint32_lem out v =
    write_loop-le_bytes 4 0 out v ∙ ap (λ (t : ℕ). out ++ le_bytes 4 t) (div-one v)

pub write_uint64_lem : (out : List ℕ) (v : ℕ) → write_uint64 out v ≡ out ++ le_bytes 8 v
unfolding write_uint64
write_uint64_lem out v =
    write_loop-le_bytes 8 0 out v ∙ ap (λ (t : ℕ). out ++ le_bytes 8 t) (div-one v)

read_loop_lem :
    (k i v : ℕ) (src : List ℕ)
    → k ≤ length src
    → All IsByte src
    → v < 2 ^ (8 * i)
    → read_loop k i v src ≡ (v + le_value (take k src) * 2 ^ (8 * i), drop k src)
unfolding read_loop le_value
read_loop_lem zero i v src h a s = ground arith
read_loop_lem (suc k) i v [] h a s = absurd (omega arith)
read_loop_lem (suc k) i v (b ∷ src) h a s = rw (bit_or-shift (8 * i) v b s) (
    read_loop_lem k (suc i) (v + b * 2 ^ (8 * i)) src (omega arith) a.1 fits
    ∙ ap (λ (t : ℕ). (t, drop k src)) total)
  where
    fits : v + b * 2 ^ (8 * i) < 2 ^ (8 * suc i)
    fits = grind (arith, shift_eight i, a.0, s, pow-pos (8 * i))

    total :
        v + b * 2 ^ (8 * i) + le_value (take k src) * 2 ^ (8 * suc i)
        ≡ v + (b + le_value (take k src) * 256) * 2 ^ (8 * i)
    total = omega (arith, ap (λ (t : ℕ). le_value (take k src) * t) (shift_eight i))

-- A 32-bit read takes four bytes, and throws if fewer are left.
pub read_uint32_lem :
    (src : List ℕ)
    → 4 ≤ length src
    → All IsByte src
    → read_uint32 src ≡ ok (le_value (take 4 src), drop 4 src)
unfolding read_uint32
read_uint32_lem src h a = rw (le→ltb (length src) 4 h) (
    ap ok
      (read_loop_lem 4 0 0 src h a (omega arith) ∙ ap (λ (t : ℕ). (t, drop 4 src)) (omega arith)))

pub read_uint64_lem :
    (src : List ℕ)
    → 8 ≤ length src
    → All IsByte src
    → read_uint64 src ≡ ok (le_value (take 8 src), drop 8 src)
unfolding read_uint64
read_uint64_lem src h a = rw (le→ltb (length src) 8 h) (
    ap ok
      (read_loop_lem 8 0 0 src h a (omega arith) ∙ ap (λ (t : ℕ). (t, drop 8 src)) (omega arith)))

module _ (v : ℕ) (rest : List ℕ) (r : All IsByte rest) where
  -- A number that was written is read back, whatever bytes follow.
  pub read_uint32-le_bytes : IsU32 v → read_uint32 (le_bytes 4 v ++ rest) ≡ ok (v, rest)
  read_uint32-le_bytes h =
      read_uint32_lem _ (omega (arith, size))
        (All-append IsByte (le_bytes 4 v) rest (le_bytes-IsByte 4 v) r)
      ∙ rw (
        take-append (le_bytes 4 v) rest 4 (sym len),
        drop-append (le_bytes 4 v) rest 4 (sym len),
        le_value-le_bytes 4 v h,
      )
    where
      len : length (le_bytes 4 v) ≡ 4
      len = length-le_bytes 4 v

      size : length (le_bytes 4 v ++ rest) ≡ 4 + length rest
      size = length-append (le_bytes 4 v) rest ∙ omega (arith, len)

  pub read_uint64-le_bytes : IsU64 v → read_uint64 (le_bytes 8 v ++ rest) ≡ ok (v, rest)
  read_uint64-le_bytes h =
      read_uint64_lem _ (omega (arith, size))
        (All-append IsByte (le_bytes 8 v) rest (le_bytes-IsByte 8 v) r)
      ∙ rw (
        take-append (le_bytes 8 v) rest 8 (sym len),
        drop-append (le_bytes 8 v) rest 8 (sym len),
        le_value-le_bytes 8 v h,
      )
    where
      len : length (le_bytes 8 v) ≡ 8
      len = length-le_bytes 8 v

      size : length (le_bytes 8 v ++ rest) ≡ 8 + length rest
      size = length-append (le_bytes 8 v) rest ∙ omega (arith, len)

module _ (k : ℕ) (src : List ℕ) (h : k ≤ length src) (a : All IsByte src) where
  front_length : length (take k src) ≡ k
  front_length = length-take k src ∙ omega arith

  front_bytes : le_bytes k (le_value (take k src)) ≡ take k src
  front_bytes =
      ap (λ (n : ℕ). le_bytes n (le_value (take k src))) (sym front_length)
      ∙ le_bytes-le_value (take k src) (All-take IsByte k src a)

  split_value : src ≡ le_bytes k (le_value (take k src)) ++ drop k src
  split_value = rw (front_bytes, take-append-drop k src)

  front_bound : le_value (take k src) < 256 ^ k
  front_bound = let p = le_value-lt (take k src) (All-take IsByte k src a) in rw front_length at p

read_uint32-length : (src : List ℕ) {p : ℕ × List ℕ} → read_uint32 src ≡ ok p → 4 ≤ length src
unfolding read_uint32
read_uint32-length src e = ground arith

read_uint64-length : (src : List ℕ) {p : ℕ × List ℕ} → read_uint64 src ≡ ok p → 8 ≤ length src
unfolding read_uint64
read_uint64-length src e = ground arith

-- What a successful read says of the bytes before it: they are those of the value.
module _ (src : List ℕ) (v : ℕ) (rest : List ℕ) (a : All IsByte src) where
  pub read_uint32-eq_ok :
      read_uint32 src ≡ ok (v, rest) → (src ≡ le_bytes 4 v ++ rest) × All IsByte rest × IsU32 v
  read_uint32-eq_ok e =
      let h = read_uint32-length src e in
      let (qv, qr) = ok_pair-injective (sym (read_uint32_lem src h a) ∙ e) in
      (
        split_value 4 src h a ∙ rw (qv, qr),
        subst (All IsByte) qr (All-drop IsByte 4 src a),
        omega (arith, qv, front_bound 4 src h a),
      )

  pub read_uint64-eq_ok :
      read_uint64 src ≡ ok (v, rest) → (src ≡ le_bytes 8 v ++ rest) × All IsByte rest × IsU64 v
  read_uint64-eq_ok e =
      let h = read_uint64-length src e in
      let (qv, qr) = ok_pair-injective (sym (read_uint64_lem src h a) ∙ e) in
      (
        split_value 8 src h a ∙ rw (qv, qr),
        subst (All IsByte) qr (All-drop IsByte 8 src a),
        omega (arith, qv, front_bound 8 src h a),
      )
