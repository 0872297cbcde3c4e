-- ===== src/Common/Bits.antt =====
-- Laws of `bit_and` and `bit_or` at variables, from the definition that they stand for.
use Prim.Native.Nat.{
  ℕ, zero, suc, ◌+◌, ◌-◌, ◌*◌, ◌/◌, ◌%◌, ◌^◌, ◌≤◌, ◌<◌, min, max, bit_and, bit_or, digits, bitwise,
  bit_and-bitwise, bit_or-bitwise,
}
use mathlib.Core.Path.{◌≡◌, refl, sym, ap, ◌∙◌}
use mathlib.Core.Logic.{◌⊎◌, inl, inr, ◌↔◌}
use native.Mathlib.Omega.{arith}
use native.Mathlib.Nat.{
  pow-suc, one-le-pow, mul_comm, div-add-mod', mod-lt, mod-eq_of_lt, add-mul-mod_self_right,
  div-div-eq-div-mul, div_self, div-eq_of_lt,
}

-- What the native operations stand for: the lowest digits are joined, and the halves follow, on fuel.
module _ (low : ℕ → ℕ) (join : ℕ → ℕ → ℕ) where
  same_digits : (x y k l : ℕ) → x ≤ l → x ≤ k → digits low join k x y ≡ digits low join l x y
  same_digits zero y zero zero below above = refl
  same_digits zero y (suc k) zero below above = refl
  same_digits zero y zero (suc l) below above = refl
  same_digits zero y (suc k) (suc l) below above = refl
  same_digits (suc x) y k zero below above = absurd (omega arith)
  same_digits (suc x) y zero (suc l) below above = absurd (omega arith)
  same_digits (suc x) y (suc k) (suc l) below above =
      ap (λ (rest : ℕ). rest * 2 + join (suc x % 2) (y % 2))
        (same_digits (suc x / 2) (y / 2) k l (omega arith) (omega arith))

  halve :
      (x y : ℕ)
      → bitwise low join (suc x) y
        ≡ bitwise low join (suc x / 2) (y / 2) * 2 + join (suc x % 2) (y % 2)
  halve x y =
      let half = suc x / 2 in
      ap (λ (rest : ℕ). rest * 2 + join (suc x % 2) (y % 2))
        (same_digits half (y / 2) x half (omega arith) (omega arith))

pub zero-bit_or : (y : ℕ) → bit_or 0 y ≡ y
zero-bit_or = bit_or-bitwise 0

zero-bit_and : (y : ℕ) → bit_and 0 y ≡ 0
zero-bit_and = bit_and-bitwise 0

-- An `or` and an `and` by the lowest digits and the halves.
pub bit_or_step : (x y : ℕ) → bit_or x y ≡ bit_or (x / 2) (y / 2) * 2 + max (x % 2) (y % 2)
bit_or_step (suc x) y =
    bit_or-bitwise (suc x) y
    ∙ halve (λ t. t) max x y
    ∙ ap (λ (rest : ℕ). rest * 2 + max (suc x % 2) (y % 2))
        (sym (bit_or-bitwise (suc x / 2) (y / 2)))
bit_or_step zero y = omega (arith, zero-bit_or (y / 2), zero-bit_or y)

pub bit_and_step : (x y : ℕ) → bit_and x y ≡ bit_and (x / 2) (y / 2) * 2 + min (x % 2) (y % 2)
bit_and_step (suc x) y =
    bit_and-bitwise (suc x) y
    ∙ halve (λ t. 0) min x y
    ∙ ap (λ (rest : ℕ). rest * 2 + min (suc x % 2) (y % 2))
        (sym (bit_and-bitwise (suc x / 2) (y / 2)))
bit_and_step zero y = omega (arith, zero-bit_and (y / 2), zero-bit_and y)

double_shift : (b n : ℕ) → b * 2 ^ suc n ≡ b * 2 ^ n * 2
double_shift b n = omega (arith, ap (λ (t : ℕ). b * t) (pow-suc 2 n))

half_shift : (b n : ℕ) → b * 2 ^ suc n / 2 ≡ b * 2 ^ n
half_shift b n = omega (arith, double_shift b n)

-- Bits that do not overlap: the `or` is the sum.
pub bit_or-shift : (n a b : ℕ) → a < 2 ^ n → bit_or a (b * 2 ^ n) ≡ a + b * 2 ^ n
bit_or-shift zero zero b h = zero-bit_or (b * 2 ^ 0) ∙ omega arith
bit_or-shift zero (suc a) b h = absurd (omega arith)
bit_or-shift (suc n) a b h = omega (
  arith,
  double_shift b n,
  pow-suc 2 n,
  bit_or_step a (b * 2 ^ suc n),
  ap (bit_or (a / 2)) (half_shift b n),
  bit_or-shift n (a / 2) b (omega (arith, pow-suc 2 n)),
)

-- No bit of 0 is set, below any bound on the number it is joined with.
none_set : (bound x : ℕ) → x ≤ bound → bit_and x 0 ≡ 0
none_set zero (suc x) le = absurd (omega arith)
none_set zero zero le = zero-bit_and 0
none_set (suc bound) zero le = zero-bit_and 0
none_set (suc bound) (suc x) le =
    let rest = none_set bound (suc x / 2) (omega arith) in
    bit_and_step (suc x) 0 ∙ omega (arith, rest)

pub bit_and-zero : (x : ℕ) → bit_and x 0 ≡ 0
bit_and-zero x = none_set x x (omega arith)

pub pow-pos : (n : ℕ) → 0 < 2 ^ n
pow-pos n = one-le-pow n 2 (omega arith)

-- The remainder by an even number, digit by digit.
half_mod : (a m : ℕ) → 0 < m → a % (m * 2) ≡ a / 2 % m * 2 + a % 2
half_mod a m h =
    let q : ℕ = a / 2 / m in
    let r : ℕ = a / 2 % m in
    let whole : a ≡ r * 2 + a % 2 + q * (m * 2) = omega (arith, div-add-mod' (a / 2) m) in
    let small : r * 2 + a % 2 < m * 2 = omega (arith, mod-lt (a / 2) h) in
    ap (λ (t : ℕ). t % (m * 2)) whole
    ∙ add-mul-mod_self_right (r * 2 + a % 2) q (m * 2)
    ∙ mod-eq_of_lt small

-- A mask of `n` ones keeps the remainder.
pub bit_and-mask : (n a : ℕ) → bit_and a (2 ^ n - 1) ≡ a % 2 ^ n
bit_and-mask zero a = bit_and-zero a ∙ omega arith
bit_and-mask (suc n) a = omega (
  arith,
  pow-suc 2 n,
  pow-pos n,
  bit_and_step a (2 ^ suc n - 1),
  ap (bit_and (a / 2)) (half_ones n),
  bit_and-mask n (a / 2),
  half_mod a (2 ^ n) (pow-pos n),
  ap (λ (t : ℕ). a % t) (pow-suc 2 n),
)
  where
    half_ones : (n : ℕ) → (2 ^ suc n - 1) / 2 ≡ 2 ^ n - 1
    half_ones n = omega (arith, pow-suc 2 n, pow-pos n)

-- Bit `n` of a number.
abbrev pub bit : ℕ → ℕ → ℕ
bit n a = a / 2 ^ n % 2

pub bit_suc : (n a : ℕ) → a / 2 ^ suc n ≡ a / 2 / 2 ^ n
bit_suc n a =
    ap (λ (t : ℕ). a / t) (pow-suc 2 n ∙ mul_comm (2 ^ n) 2) ∙ sym (div-div-eq-div-mul a 2 (2 ^ n))

pub bit_and-bit : (n a : ℕ) → bit_and a (2 ^ n) ≡ bit n a * 2 ^ n
bit_and-bit zero a = omega (arith, bit_and_step a 1, bit_and-zero (a / 2))
bit_and-bit (suc n) a = omega (
  arith,
  pow-suc 2 n,
  bit_and_step a (2 ^ suc n),
  ap (bit_and (a / 2)) (half_pow n),
  bit_and-bit n (a / 2),
  ap (λ (t : ℕ). t % 2 * 2 ^ suc n) (bit_suc n a),
  ap (λ (t : ℕ). bit n (a / 2) * t) (pow-suc 2 n),
)
  where
    half_pow : (n : ℕ) → 2 ^ suc n / 2 ≡ 2 ^ n
    half_pow n = omega (arith, pow-suc 2 n)

-- Bit `n` of an `or`.
pub bit-bit_or : (n a b : ℕ) → bit n (bit_or a b) ≡ max (bit n a) (bit n b)
bit-bit_or zero a b = omega (arith, bit_or_step a b)
bit-bit_or (suc n) a b = omega (
  arith,
  ap (λ (t : ℕ). t % 2) (bit_suc n (bit_or a b)),
  ap (λ (t : ℕ). t % 2) (bit_suc n a),
  ap (λ (t : ℕ). t % 2) (bit_suc n b),
  ap (bit n) (half_or a b),
  bit-bit_or n (a / 2) (b / 2),
)
  where
    half_or : (a b : ℕ) → bit_or a b / 2 ≡ bit_or (a / 2) (b / 2)
    half_or a b = omega (arith, bit_or_step a b)

pub bit-pow : (n : ℕ) → bit n (2 ^ n) ≡ 1
bit-pow n = ap (λ (t : ℕ). t % 2) (div_self (pow-pos n))

bit_or-zero_fuel : (n a : ℕ) → a ≤ n → bit_or a 0 ≡ a
bit_or-zero_fuel n zero h = zero-bit_or 0
bit_or-zero_fuel zero (suc a) h = absurd (omega arith)
bit_or-zero_fuel (suc n) (suc a) h =
    omega (arith, bit_or_step (suc a) 0, bit_or-zero_fuel n (suc a / 2) (omega arith))

pub bit_or-zero : (a : ℕ) → bit_or a 0 ≡ a
bit_or-zero a = bit_or-zero_fuel a a (omega arith)

-- `x | (y << n)` with the halves swapped, as `(acc << 8) | byte` is written.
pub shift-bit_or : (n a b : ℕ) → b < 2 ^ n → bit_or (a * 2 ^ n) b ≡ a * 2 ^ n + b
shift-bit_or zero a zero h = omega (arith, bit_or-zero (a * 2 ^ 0))
shift-bit_or zero a (suc b) h = absurd (omega arith)
shift-bit_or (suc n) a b h = omega (
  arith,
  double_shift a n,
  pow-suc 2 n,
  bit_or_step (a * 2 ^ suc n) b,
  ap (λ (t : ℕ). bit_or t (b / 2)) (half_shift a n),
  shift-bit_or n a (b / 2) (omega (arith, pow-suc 2 n)),
)

up : (m : ℕ) → 2 ^ (1 + m) ≡ 2 * 2 ^ m
up m = ap (λ (t : ℕ). 2 ^ t) (carry m) ∙ pow-suc 2 m ∙ omega arith
  where
    carry : (m : ℕ) → 1 + m ≡ suc m
    carry m = omega arith

-- A power of two has one bit.
pub bit-pow_other : (n m : ℕ) → bit (suc n + m) (2 ^ n) ≡ 0
bit-pow_other zero m =
    omega (arith, pow-suc 2 m, pow-pos m, ap (λ (t : ℕ). t % 2) (div-eq_of_lt (small m)))
  where
    small : (m : ℕ) → 1 < 2 ^ (1 + m)
    small m = omega (arith, up m, pow-pos m)
bit-pow_other (suc n) m = omega (
  arith,
  ap (λ (t : ℕ). bit t (2 ^ suc n)) (carry n m),
  ap (λ (t : ℕ). t % 2) (bit_suc (suc n + m) (2 ^ suc n)),
  ap (bit (suc n + m)) (half_pow n),
  bit-pow_other n m,
)
  where
    carry : (n m : ℕ) → suc (suc n) + m ≡ suc (suc n + m)
    carry n m = omega arith

    half_pow : (n : ℕ) → 2 ^ suc n / 2 ≡ 2 ^ n
    half_pow n = omega (arith, pow-suc 2 n)

pub bit-pow_lower : (n m : ℕ) → bit n (2 ^ (suc n + m)) ≡ 0
bit-pow_lower zero m = omega (arith, up m)
bit-pow_lower (suc n) m = omega (
  arith,
  ap (λ (t : ℕ). bit (suc n) (2 ^ t)) (carry n m),
  ap (λ (t : ℕ). t % 2) (bit_suc n (2 ^ suc (suc n + m))),
  ap (bit n) (half_pow (suc n + m)),
  bit-pow_lower n m,
)
  where
    carry : (n m : ℕ) → suc (suc n) + m ≡ suc (suc n + m)
    carry n m = omega arith

    half_pow : (n : ℕ) → 2 ^ suc n / 2 ≡ 2 ^ n
    half_pow n = omega (arith, pow-suc 2 n)

pub bit-pow_iff : (n m : ℕ) → (bit n (2 ^ m) ≡ 1) ↔ (n ≡ m)
bit-pow_iff n m = elim (split n m) [
  | inl (inl e) ↦ ((λ h. e), (λ h. ap (λ (t : ℕ). bit n (2 ^ t)) (sym e) ∙ bit-pow n))
  | inl (inr (k, e)) ↦ (
    (λ h. absurd (omega (arith, h, ap (λ (t : ℕ). bit n (2 ^ t)) e, bit-pow_lower n k))),
    (λ h. absurd (omega arith)),
  )
  | inr (k, e) ↦ (
    (λ h. absurd (omega (arith, h, ap (λ (t : ℕ). bit t (2 ^ m)) e, bit-pow_other m k))),
    (λ h. absurd (omega arith)),
  )
]
  where
    split : (n m : ℕ) → ((n ≡ m) ⊎ ((k : ℕ) × (m ≡ suc n + k))) ⊎ ((k : ℕ) × (n ≡ suc m + k))
    split zero zero = inl (inl refl)
    split zero (suc m) = inl (inr (m, omega arith))
    split (suc n) zero = inr (n, omega arith)
    split (suc n) (suc m) = elim (split n m) [
      | inl (inl e) ↦ inl (inl (ap suc e))
      | inl (inr (k, e)) ↦ inl (inr (k, omega (arith, e)))
      | inr (k, e) ↦ inr (k, omega (arith, e))
    ]
